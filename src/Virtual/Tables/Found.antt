-- ===== src/Virtual/Tables/Found.antt =====
-- The statements on virtual models that find their row, if the database answers.
use model_registry_service.Base.{ℕ, ◌+◌, String, ◌≡◌, refl, true, false, not, some, keep, ◌==◌}
use model_registry_service.Domain.Result.{ok}
use model_registry_service.Domain.Traffic.{Uuid}
use model_registry_service.Domain.Virtual.{VirtualModel}
use model_registry_service.Store.World.{Oracle}
use model_registry_service.Cluster.Server.{Dynamic, ◌>>=◌, wrapping}
use model_registry_service.Virtual.Tables.{
  World, reach_database, list_backends, backends_of, model_row, model_named, has_backend,
  vm_get_by_id, vm_get_by_name, vm_delete_backend,
}

abbrev pub waited : {d : Dynamic} → ℕ → World d → World d
waited n w = record w { ticks = w.ticks + n }

module _ (E : Oracle) (d : Dynamic) (answers : (k : ℕ) → E.database_fails k ≡ false) where
  reach-answers : (w : World d) → reach_database E d w ≡ (ok tt, record w { ticks = w.ticks + 1 })
  unfolding reach_database ◌>>=◌
  reach-answers w = rw (answers w.ticks) refl

  pub vm_get_by_name-found :
      (p : Uuid) (name : String) (vm : VirtualModel) (w : World d)
      → model_named p name w.models ≡ some vm
      → vm_get_by_name E d p name w ≡ (
        ok (record vm { backends = backends_of vm.id w.backends }),
        record w { ticks = w.ticks + 1 + 1 },
      )
  unfolding vm_get_by_name list_backends ◌>>=◌ wrapping
  vm_get_by_name-found p name vm w found =
      rw (reach-answers w, found, reach-answers (record w { ticks = w.ticks + 1 })) refl

  pub vm_get_by_id-found :
      (p id : Uuid) (vm : VirtualModel) (w : World d)
      → model_row p id w.models ≡ some vm
      → vm_get_by_id E d p id w ≡ (
        ok (record vm { backends = backends_of vm.id w.backends }),
        record w { ticks = w.ticks + 1 + 1 },
      )
  unfolding vm_get_by_id list_backends ◌>>=◌ wrapping
  vm_get_by_id-found p id vm w found =
      rw (reach-answers w, found, reach-answers (record w { ticks = w.ticks + 1 })) refl

  pub vm_delete_backend-found :
      (id : Uuid) (w : World d)
      → has_backend id w.backends ≡ true
      → vm_delete_backend E d id w ≡ (
        ok tt,
        record w { ticks = w.ticks + 1; backends = keep (λ b. not (b.id == id)) w.backends },
      )
  unfolding vm_delete_backend ◌>>=◌ wrapping
  vm_delete_backend-found id w found = rw (reach-answers w, found) refl
