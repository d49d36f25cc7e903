-- ===== src/Cluster.antt =====
-- The clients of the cluster, internal/adapters/secondary/aigateway and kserve: what they write
-- into Kubernetes objects and read out of them.
pub mod Json
pub mod Server
pub mod Gateway
pub mod Kserve
pub mod Services
