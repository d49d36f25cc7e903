-- ===== src/Virtual/Service/Reads.antt =====
-- The calls of the cluster and the synchronisation change no table.
use model_registry_service.Base.{String, not, List, str_eq}
use model_registry_service.Domain.Virtual.{VirtualModel, VirtualModelBackend}
use model_registry_service.Store.World.{Oracle}
use model_registry_service.Cluster.Server.{Unstructured, Dynamic, Act}
use model_registry_service.Cluster.Server.Keeps.{Keeps, Keeps-bind, Keeps-if, Keeps-pure}
use model_registry_service.Cluster.Gateway.{Settings}
use model_registry_service.Virtual.Tables.Reads.{On, vm_get_by_id-Keeps}
use model_registry_service.Virtual.Service.{
  on_cluster, push_backends, sync_route, check_service_backend,
}

module _ (E : Oracle) (u : Unstructured) (d : Dynamic) (c : Settings)
    (Q : List VirtualModel → List VirtualModelBackend → Type 0) where
  pub on_cluster-Keeps : {A : Type 0} (m : Act d.State A) → Keeps (On Q) (on_cluster {d = d} m)
  unfolding on_cluster
  on_cluster-Keeps m = record { keeps = λ w h. h }

  push_backends-Keeps : (vm : VirtualModel) → Keeps (On Q) (push_backends E u d c vm)
  unfolding push_backends
  push_backends-Keeps vm =
      Keeps-bind (vm_get_by_id-Keeps E d Q vm.project_id vm.id) λ fresh. on_cluster-Keeps _

  pub sync_route-Keeps : (vm : VirtualModel) → Keeps (On Q) (sync_route E u d c vm)
  unfolding sync_route
  sync_route-Keeps vm =
      Keeps-if (not c.enabled) Keeps-pure
        (Keeps-if (str_eq vm.ai_gateway_route_name "") Keeps-pure (push_backends-Keeps vm))

  pub check-Keeps : (ns name : String) → Keeps (On Q) (check_service_backend E u d c ns name)
  unfolding check_service_backend
  check-Keeps ns name = record { keeps = λ w h. h }
