-- ===== src/Virtual/Service/Removal.antt =====
-- DeleteBackend of internal/core/services/virtual_model.go removes a backend by its identifier alone.
use model_registry_service.Base.{
  ℕ, ◌+◌, String, ◌≡◌, refl, true, false, not, some, List, keep, ◌==◌,
}
use model_registry_service.Domain.Traffic.{Uuid}
use model_registry_service.Domain.Virtual.{VirtualModel, VirtualModelBackend}
use model_registry_service.Store.World.{Oracle}
use model_registry_service.Cluster.Server.{Unstructured, Dynamic, ◌>>=◌, ◌>>◌, ignore}
use model_registry_service.Cluster.Server.Keeps.{Keeps, Keeps-bind, Keeps-ignore}
use model_registry_service.Cluster.Gateway.{Settings}
use model_registry_service.Virtual.Tables.{
  World, model_named, has_backend, backends_of, vm_get_by_name,
}
use model_registry_service.Virtual.Tables.Reads.{On, vm_get_by_name-Keeps}
use model_registry_service.Virtual.Tables.Found.{vm_get_by_name-found, vm_delete_backend-found}
use model_registry_service.Virtual.Service.{delete_backend, sync_route}
use model_registry_service.Virtual.Service.Reads.{sync_route-Keeps}

module _ (E : Oracle) (u : Unstructured) (d : Dynamic) (c : Settings) where
  -- What follows the removal.
  finish-Keeps :
      (Q : List VirtualModel → List VirtualModelBackend → Type 0) (vm : VirtualModel) (p : Uuid)
      (name : String)
      → Keeps (On Q) (ignore (sync_route E u d c vm) >> vm_get_by_name E d p name)
  finish-Keeps Q vm p name =
      Keeps-bind (Keeps-ignore (sync_route-Keeps E u d c Q vm))
        λ _. vm_get_by_name-Keeps E d Q p name

  -- If the database answers, a virtual model of the project has the name and some backend has the
  -- identifier, be it of this virtual model or of one of another project, then DeleteBackend leaves
  -- the virtual models and all backends but those of that identifier, whatever the cluster answers.
  pub delete_backend-unscoped :
      (answers : (k : ℕ) → E.database_fails k ≡ false) (p : Uuid) (name : String) (id : Uuid)
      (w : World d) (vm : VirtualModel)
      → model_named p name w.models ≡ some vm
      → has_backend id w.backends ≡ true
      → ((delete_backend E u d c p name id w).1.models ≡ w.models)
        × ((delete_backend E u d c p name id w).1.backends
            ≡ keep (λ b. not (b.id == id)) w.backends)
  unfolding delete_backend ◌>>=◌
  delete_backend-unscoped answers p name id w vm named known =
      rw
        (
          vm_get_by_name-found E d answers p name vm w named,
          vm_delete_backend-found E d answers id (record w { ticks = w.ticks + 1 + 1 }) known,
        )
        ((finish-Keeps (λ ms bs. (ms ≡ w.models) × (bs ≡ keep (λ b. not (b.id == id)) w.backends))
            (record vm { backends = backends_of vm.id w.backends }) p name).keeps
          _ (refl, refl))
