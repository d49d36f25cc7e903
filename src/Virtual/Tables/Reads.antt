-- ===== src/Virtual/Tables/Reads.antt =====
-- The statements that change no table of virtual models, whatever is said of the tables.
use model_registry_service.Base.{String, List}
use model_registry_service.Domain.Traffic.{Uuid}
use model_registry_service.Domain.Virtual.{VirtualModel, VirtualModelBackend}
use model_registry_service.Store.World.{Oracle}
use model_registry_service.Cluster.Server.{Dynamic, ◌>>=◌, gets}
use model_registry_service.Cluster.Server.Keeps.{
  Keeps, Keeps-bind, Keeps-wrapping, Keeps-pure, Keeps-or_raise,
}
use model_registry_service.Virtual.Tables.{
  World, reach_database, time_now, new_uuid, list_backends, vm_get_by_id, vm_get_by_name,
}

-- What is said of the two tables.
abbrev pub On :
    (List VirtualModel → List VirtualModelBackend → Type 0) → {d : Dynamic} → World d → Type 0
On Q w = Q w.models w.backends

module _ (E : Oracle) (d : Dynamic)
    (Q : List VirtualModel → List VirtualModelBackend → Type 0) where
  pub reach-Keeps : Keeps (On Q) (reach_database E d)
  unfolding reach_database ◌>>=◌
  reach-Keeps = record { keeps = λ w h. h }

  pub time_now-Keeps : Keeps (On Q) (time_now E d)
  unfolding time_now ◌>>=◌
  time_now-Keeps = record { keeps = λ w h. h }

  pub new_uuid-Keeps : Keeps (On Q) (new_uuid E d)
  unfolding new_uuid ◌>>=◌
  new_uuid-Keeps = record { keeps = λ w h. h }

  pub gets-Keeps : {A : Type 0} {g : World d → A} → Keeps (On Q) (gets g)
  gets-Keeps = record { keeps = λ w h. h }

  list_backends-Keeps : (id : Uuid) → Keeps (On Q) (list_backends E d id)
  unfolding list_backends
  list_backends-Keeps id =
      Keeps-bind (Keeps-wrapping _ reach-Keeps) λ _. Keeps-bind gets-Keeps λ rows. Keeps-pure

  pub vm_get_by_id-Keeps : (p id : Uuid) → Keeps (On Q) (vm_get_by_id E d p id)
  unfolding vm_get_by_id
  vm_get_by_id-Keeps p id = Keeps-bind (Keeps-wrapping _ reach-Keeps) λ _.
      Keeps-bind gets-Keeps λ rows.
        Keeps-bind (Keeps-or_raise _ _)
          λ vm. Keeps-bind (list_backends-Keeps vm.id) λ found. Keeps-pure

  pub vm_get_by_name-Keeps : (p : Uuid) (name : String) → Keeps (On Q) (vm_get_by_name E d p name)
  unfolding vm_get_by_name
  vm_get_by_name-Keeps p name = Keeps-bind (Keeps-wrapping _ reach-Keeps) λ _.
      Keeps-bind gets-Keeps λ rows.
        Keeps-bind (Keeps-or_raise _ _)
          λ vm. Keeps-bind (list_backends-Keeps vm.id) λ found. Keeps-pure
