-- ===== src/Virtual/Service/Statements.antt =====
-- Every statement keeps the names of a virtual model's backends different, and a new backend needs
-- one that is not used.
use model_registry_service.Base.{
  String, subst, ◌++◌, ◌≡◌, ◌∙◌, ap, sym, false, List, [], ◌∷◌, ℤ, arith, Option,
}
use model_registry_service.Domain.Result.{ok}
use model_registry_service.Domain.Traffic.{Uuid, Time}
use model_registry_service.Domain.Virtual.{
  VirtualModel, VirtualModelBackend, new_virtual_model_backend,
}
use model_registry_service.Store.World.{Oracle}
use model_registry_service.Cluster.Server.{Dynamic}
use model_registry_service.Cluster.Server.Keeps.{
  Keeps, Keeps-bind, Keeps-raise_if, Keeps-or_raise, Keeps-wrapping,
}
use model_registry_service.Cluster.Server.Leads.{
  Leads, Leads-bind, Leads-of, Keeps-of, Leads-wrapping, Leads-gets, Leads-pure, Leads-modify,
  Leads-weaken,
}
use model_registry_service.Virtual.Tables.{
  World, backends_of, list_backends, vm_create, vm_get_by_name, vm_update, vm_delete,
  vm_create_backend, vm_update_backend, vm_delete_backend, update_backends,
}
use model_registry_service.Virtual.Tables.Reads.{On, reach-Keeps, gets-Keeps, time_now-Keeps}
use model_registry_service.Virtual.Service.Names.{
  is_used, AreDistinct, AreDistinct-append, AreDistinct-keep, AreDistinct-update,
}

-- The names of the backends differ.
abbrev pub Names : List VirtualModel → List VirtualModelBackend → Type 0
Names ms bs = AreDistinct bs

-- And the name is not used in the virtual model.
abbrev pub Free : Uuid → String → List VirtualModel → List VirtualModelBackend → Type 0
Free id name ms bs = AreDistinct bs × (is_used id name bs ≡ false)

pub made_of :
    (id : Uuid) (now : Time) (vm_id : Uuid) (name : String) (o : Option String)
    (weight priority : ℤ) (b : VirtualModelBackend)
    → new_virtual_model_backend id now vm_id name o weight priority ≡ ok b
    → (b.virtual_model_id ≡ vm_id) × (b.ai_service_backend_name ≡ name)
unfolding new_virtual_model_backend
made_of id now vm_id name o weight priority b h = ground arith

module _ (E : Oracle) (d : Dynamic) where
  abbrev pub Sound : World d → Type 0
  Sound = On Names

  abbrev pub Unused : Uuid → String → World d → Type 0
  Unused id name = On (Free id name)

  list_backends-reads :
      (id : Uuid)
      → Leads Sound
          (list_backends E d id)
          (λ found w. Sound w × (found ≡ backends_of id w.backends))
          Sound
  unfolding list_backends
  list_backends-reads id =
      Leads-bind (Leads-of (λ w h. h) (Keeps-wrapping _ (reach-Keeps E d Names))) λ _.
        Leads-bind (Leads-gets (λ w. w.backends))
          λ rows. Leads-pure _ λ w h. (h.0, ap (backends_of id) h.1)

  pub vm_get_by_name-reads :
      (p : Uuid) (name : String)
      → Leads Sound
          (vm_get_by_name E d p name)
          (λ vm w. Sound w × (vm.backends ≡ backends_of vm.id w.backends))
          Sound
  unfolding vm_get_by_name
  vm_get_by_name-reads p name =
      Leads-bind (Leads-of (λ w h. h) (Keeps-wrapping _ (reach-Keeps E d Names))) λ _.
        Leads-bind (Leads-of (λ w h. h) (gets-Keeps E d Names)) λ rows.
          Leads-bind (Leads-of (λ w h. h) (Keeps-or_raise _ _))
            λ vm. Leads-bind (list_backends-reads vm.id) λ found. Leads-pure _ λ w h. h

  pub vm_create-Keeps : (vm : VirtualModel) → Keeps Sound (vm_create E d vm)
  unfolding vm_create
  vm_create-Keeps vm = Keeps-wrapping _ (
      Keeps-bind (reach-Keeps E d Names) λ _.
        Keeps-bind (gets-Keeps E d Names)
          λ rows. Keeps-bind (Keeps-raise_if _ _) λ _. record { keeps = λ w h. h })

  pub vm_update-Keeps : (p : Uuid) (vm : VirtualModel) → Keeps Sound (vm_update E d p vm)
  unfolding vm_update
  vm_update-Keeps p vm = Keeps-bind (Keeps-wrapping _ (reach-Keeps E d Names)) λ _.
      Keeps-bind (gets-Keeps E d Names) λ rows. Keeps-bind (Keeps-or_raise _ _) λ row.
        Keeps-bind (Keeps-wrapping _ (Keeps-raise_if _ _))
          λ _. Keeps-bind (time_now-Keeps E d Names) λ now. record { keeps = λ w h. h }

  pub vm_delete-Keeps : (p id : Uuid) → Keeps Sound (vm_delete E d p id)
  unfolding vm_delete
  vm_delete-Keeps p id = Keeps-bind (Keeps-wrapping _ (reach-Keeps E d Names)) λ _.
      Keeps-bind (record { keeps = λ w h. AreDistinct-keep _ w.backends h })
        λ _. Keeps-bind (Keeps-wrapping _ (reach-Keeps E d Names)) λ _.
          Keeps-bind (gets-Keeps E d Names)
            λ rows. Keeps-bind (Keeps-or_raise _ _) λ row. record { keeps = λ w h. h }

  -- The rows that a statement has read.
  abbrev Read : List VirtualModelBackend → List VirtualModel → List VirtualModelBackend → Type 0
  Read rows ms bs = AreDistinct bs × (bs ≡ rows)

  pub vm_update_backend-Keeps : (b : VirtualModelBackend) → Keeps Sound (vm_update_backend E d b)
  unfolding vm_update_backend
  vm_update_backend-Keeps b = Keeps-of (
      Leads-bind
        (Leads-of (λ w h. h)
          (Keeps-wrapping _ (Keeps-bind (reach-Keeps E d Names) λ _. Keeps-raise_if _ _)))
        λ _. Leads-bind (Leads-gets (λ w. w.backends)) λ rows.
          Leads-weaken (λ w h. (h.0, sym h.1))
            (Leads-bind (Leads-of {P = On (Read rows)} (λ w h. h.0) (Keeps-raise_if _ _)) λ _.
              Leads-bind (Leads-of (λ w h. h.0) (Keeps-wrapping _ (Keeps-raise_if _ _))) λ _.
                Leads-bind (Leads-of (λ w h. h.0) (time_now-Keeps E d (Read rows)))
                  λ now. Leads-modify _ λ w h. subst_rows rows w.backends h now))
    where
      subst_rows :
          (rows bs : List VirtualModelBackend)
          → AreDistinct bs × (bs ≡ rows)
          → (now : Time) → AreDistinct (update_backends now b rows)
      subst_rows rows bs h now = AreDistinct-update now b rows (subst AreDistinct h.1 h.0)

  pub vm_delete_backend-Keeps : (id : Uuid) → Keeps Sound (vm_delete_backend E d id)
  unfolding vm_delete_backend
  vm_delete_backend-Keeps id = Keeps-of (
      Leads-bind (Leads-of (λ w h. h) (Keeps-wrapping _ (reach-Keeps E d Names))) λ _.
        Leads-bind (Leads-gets (λ w. w.backends)) λ rows.
          Leads-weaken (λ w h. (h.0, sym h.1))
            (Leads-bind (Leads-of {P = On (Read rows)} (λ w h. h.0) (Keeps-raise_if _ _))
              λ _. Leads-modify _ λ w h. AreDistinct-keep _ rows (subst AreDistinct h.1 h.0)))

  -- A row whose name is not used in its virtual model.
  pub vm_create_backend-names :
      (b : VirtualModelBackend)
      → Leads
          (Unused b.virtual_model_id b.ai_service_backend_name)
          (vm_create_backend E d b)
          (λ _. Sound)
          Sound
  unfolding vm_create_backend
  vm_create_backend-names b =
      let Q : List VirtualModel → List VirtualModelBackend → Type 0 =
        Free b.virtual_model_id b.ai_service_backend_name in
      Leads-wrapping _ (
        Leads-bind (Leads-of (λ w h. h.0) (reach-Keeps E d Q)) λ _.
          Leads-bind (Leads-of (λ w h. h.0) (Keeps-raise_if _ _)) λ _.
            Leads-bind (Leads-of (λ w h. h.0) (Keeps-raise_if _ _)) λ _.
              Leads-bind (Leads-of (λ w h. h.0) (Keeps-raise_if _ _)) λ _.
                Leads-bind (Leads-gets (λ w. w.backends)) λ rows.
                  Leads-weaken (λ w h. (h.0.0, append rows w.backends h))
                    (Leads-bind
                      (Leads-of {P = On (Appended rows)} (λ w h. h.0) (Keeps-raise_if _ _))
                      λ _.
                        Leads-bind (Leads-of (λ w h. h.0) (gets-Keeps E d (Appended rows)))
                          λ models.
                            Leads-bind (Leads-of (λ w h. h.0) (Keeps-raise_if _ _))
                              λ _. Leads-modify _ λ w h. h.1))
    where
      append :
          (rows bs : List VirtualModelBackend)
          → (AreDistinct bs × (is_used b.virtual_model_id b.ai_service_backend_name bs ≡ false))
            × (rows ≡ bs)
          → AreDistinct (rows ++ b ∷ [])
      append rows bs ((u, free), e) =
          AreDistinct-append b rows (subst AreDistinct (sym e) u)
            (ap (is_used b.virtual_model_id b.ai_service_backend_name) e ∙ free)

      Appended : List VirtualModelBackend → List VirtualModel → List VirtualModelBackend → Type 0
      Appended rows ms bs = AreDistinct bs × AreDistinct (rows ++ b ∷ [])
