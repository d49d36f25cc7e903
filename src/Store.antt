-- ===== src/Store.antt =====
-- The world that the services act on: the tables of the database, the log of calls to the
-- cluster, and a monad of calls that may fail. A failed call keeps what was written before it, as
-- the code opens no transaction.
pub mod World
pub mod Silent
pub mod Quiet
pub mod Hoare
pub mod Gives
pub mod Reliable
pub mod Variants
pub mod Configs
pub mod Serving
pub mod Registry
pub mod Reads
pub mod Environments
