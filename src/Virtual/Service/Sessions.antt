-- ===== src/Virtual/Service/Sessions.antt =====
-- Any sequence of requests keeps the names of a virtual model's backends different.
use model_registry_service.Base.{
  String, ◌≡◌, ◌∙◌, ap, sym, false, not, ◌&&◌, List, [], ◌∷◌, ℤ, str_eq,
}
use model_registry_service.Domain.Result.{Result, ok, err, panic}
use model_registry_service.Domain.Traffic.{Uuid}
use model_registry_service.Domain.Virtual.{VirtualModel, VirtualModelBackend, named_backend}
use model_registry_service.Store.World.{Oracle}
use model_registry_service.Cluster.Server.{Unstructured, Dynamic}
use model_registry_service.Cluster.Server.Keeps.{
  Keeps, Keeps-bind, Keeps-ignore, Keeps-if, Keeps-pure, Keeps-or_raise,
}
use model_registry_service.Cluster.Server.Leads.{
  Leads-bind, Leads-of, Keeps-of, Leads-raise_if, Leads-lift, Leads-weaken,
}
use model_registry_service.Cluster.Gateway.{Settings}
use model_registry_service.Virtual.Tables.{World, backends_of}
use model_registry_service.Virtual.Tables.Reads.{
  On, time_now-Keeps, new_uuid-Keeps, vm_get_by_id-Keeps, vm_get_by_name-Keeps,
}
use model_registry_service.Virtual.Service.Names.{is_used, AreDistinct, named-backends_of}
use model_registry_service.Virtual.Service.Reads.{on_cluster-Keeps, sync_route-Keeps, check-Keeps}
use model_registry_service.Virtual.Service.{
  CreateVirtualModelRequest, AddBackendRequest, is_some, backend_ns, open_route, record_route,
  create_virtual_model, delete_virtual_model, add_backend, update_backend, delete_backend,
}
use model_registry_service.Virtual.Service.Statements.{
  Names, Free, Sound, made_of, vm_get_by_name-reads, vm_create-Keeps, vm_update-Keeps,
  vm_delete-Keeps, vm_update_backend-Keeps, vm_delete_backend-Keeps, vm_create_backend-names,
}

pub data Request : Type 0 where
  create : CreateVirtualModelRequest → Request
  delete : Uuid → String → Request
  add : AddBackendRequest → Request
  change : Uuid → String → Uuid → ℤ → ℤ → Request
  remove : Uuid → String → Uuid → Request

module _ (E : Oracle) (u : Unstructured) (d : Dynamic) (c : Settings) where
  -- What a request leaves behind, whether it succeeded or failed.
  unfoldable pub handle : Request → World d → World d
  handle (Request.create req) w = (create_virtual_model E u d c req w).1
  handle (Request.delete p name) w = (delete_virtual_model E u d c p name w).1
  handle (Request.add req) w = (add_backend E u d c req w).1
  handle (Request.change p name id weight priority) w =
      (update_backend E u d c p name id weight priority w).1
  handle (Request.remove p name id) w = (delete_backend E u d c p name id w).1

  unfoldable pub serve : List Request → World d → World d
  unfolding handle
  serve [] w = w
  serve (r ∷ rs) w = serve rs (handle r w)

  record_route-Keeps :
      (p : Uuid) (vm : VirtualModel) (r : Result (Unit {0}))
      → Keeps (Sound E d) (record_route E u d c p vm r)
  record_route-Keeps p vm (ok a) = Keeps-ignore (vm_update-Keeps E d p _)
  record_route-Keeps p vm (err e) = Keeps-pure
  record_route-Keeps p vm panic = Keeps-pure

  open_route-Keeps : (p : Uuid) (vm : VirtualModel) → Keeps (Sound E d) (open_route E u d c p vm)
  unfolding open_route
  open_route-Keeps p vm = record { keeps = λ w h. (record_route-Keeps p vm _).keeps _ h }

  create-Keeps :
      (req : CreateVirtualModelRequest) → Keeps (Sound E d) (create_virtual_model E u d c req)
  unfolding create_virtual_model
  create-Keeps req = Keeps-bind (time_now-Keeps E d Names) λ now.
      Keeps-bind (new_uuid-Keeps E d Names) λ id. Keeps-bind Keeps-pure λ made.
        Keeps-bind (vm_create-Keeps E d _) λ _.
          Keeps-bind
            (Keeps-if c.enabled
              (open_route-Keeps req.project_id (record made { description = req.description }))
              Keeps-pure)
            λ _. vm_get_by_id-Keeps E d Names _ _

  delete-Keeps :
      (p : Uuid) (name : String) → Keeps (Sound E d) (delete_virtual_model E u d c p name)
  unfolding delete_virtual_model
  delete-Keeps p name = Keeps-bind (vm_get_by_name-Keeps E d Names p name) λ vm.
      Keeps-bind
        (Keeps-if (not (str_eq vm.ai_gateway_route_name "") && c.enabled)
          (Keeps-ignore (on_cluster-Keeps E u d c Names _)) Keeps-pure)
        λ _. vm_delete-Keeps E d p vm.id

  add-Keeps : (req : AddBackendRequest) → Keeps (Sound E d) (add_backend E u d c req)
  unfolding add_backend
  add-Keeps req = Keeps-of (
      Leads-bind (vm_get_by_name-reads E d req.project_id req.virtual_model_name) λ vm.
        Leads-bind (Leads-raise_if _ _ (λ w h. h.0)) λ _.
          Leads-weaken (λ w h. (h.0.0, unused vm.id vm.backends w.backends h.0.1 h.1))
            (let Q : List VirtualModel → List VirtualModelBackend → Type 0 = Free vm.id name in
              Leads-bind
                (Leads-of {P = On Q} (λ w h. h.0)
                  (Keeps-if c.enabled (check-Keeps E u d c Q _ _) Keeps-pure))
                λ _. Leads-bind (Leads-of (λ w h. h.0) (time_now-Keeps E d Q)) λ now.
                  Leads-bind (Leads-of (λ w h. h.0) (new_uuid-Keeps E d Q)) λ id.
                    Leads-bind (Leads-lift _ (λ w h. h.0)) λ made.
                      Leads-bind
                        (Leads-weaken
                          (λ w h.
                            let (same_vm, same_name) =
                              made_of id now vm.id name req.model_name_override req.weight
                                req.priority made h.1 in
                            (h.0.0, used_as same_vm same_name w.backends ∙ h.0.1))
                          (vm_create_backend-names E d (record made {
                            ai_service_backend_namespace = backend_ns req.ai_service_backend_ns;
                          })))
                        λ _.
                          Leads-bind
                            (Leads-of (λ w h. h) (Keeps-ignore (sync_route-Keeps E u d c Names vm)))
                            λ _. Leads-of (λ w h. h) (vm_get_by_name-Keeps E d Names _ _)))
    where
      name : String
      name = req.ai_service_backend_name

      unused :
          (id : Uuid) (found rows : List VirtualModelBackend)
          → found ≡ backends_of id rows
          → is_some (named_backend name found) ≡ false
          → is_used id name rows ≡ false
      unused id found rows e h =
          sym (named-backends_of id name rows)
          ∙ ap (λ (l : List VirtualModelBackend). is_some (named_backend name l)) (sym e)
          ∙ h

      used_as :
          {i j : Uuid} {m n : String}
          → i ≡ j
          → m ≡ n
          → (bs : List VirtualModelBackend) → is_used i m bs ≡ is_used j n bs
      used_as p q bs = λ k. is_used (p k) (q k) bs

  change-Keeps :
      (p : Uuid) (name : String) (id : Uuid) (weight priority : ℤ)
      → Keeps (Sound E d) (update_backend E u d c p name id weight priority)
  unfolding update_backend
  change-Keeps p name id weight priority = Keeps-bind (vm_get_by_name-Keeps E d Names p name) λ vm.
      Keeps-bind (Keeps-or_raise _ _) λ found. Keeps-bind (vm_update_backend-Keeps E d _) λ _.
        Keeps-bind (Keeps-ignore (sync_route-Keeps E u d c Names vm))
          λ _. vm_get_by_name-Keeps E d Names p name

  remove-Keeps :
      (p : Uuid) (name : String) (id : Uuid) → Keeps (Sound E d) (delete_backend E u d c p name id)
  unfolding delete_backend
  remove-Keeps p name id = Keeps-bind (vm_get_by_name-Keeps E d Names p name) λ vm.
      Keeps-bind (vm_delete_backend-Keeps E d id) λ _.
        Keeps-bind (Keeps-ignore (sync_route-Keeps E u d c Names vm))
          λ _. vm_get_by_name-Keeps E d Names p name

  pub handle-AreDistinct :
      (r : Request) (w : World d) → AreDistinct w.backends → AreDistinct (handle r w).backends
  unfolding handle
  handle-AreDistinct (Request.create req) w h = (create-Keeps req).keeps w h
  handle-AreDistinct (Request.delete p name) w h = (delete-Keeps p name).keeps w h
  handle-AreDistinct (Request.add req) w h = (add-Keeps req).keeps w h
  handle-AreDistinct (Request.change p name id weight priority) w h =
      (change-Keeps p name id weight priority).keeps w h
  handle-AreDistinct (Request.remove p name id) w h = (remove-Keeps p name id).keeps w h

  -- From tables in which no two backends of a virtual model name the same AIServiceBackend, any
  -- requests to create and delete virtual models and to add, change and remove backends, one after
  -- the other, whatever the database and the cluster answer, lead to such tables again.
  pub serve_virtual-AreDistinct :
      (rs : List Request) (w : World d) → AreDistinct w.backends → AreDistinct (serve rs w).backends
  unfolding serve
  serve_virtual-AreDistinct [] w h = h
  serve_virtual-AreDistinct (r ∷ rs) w h =
      serve_virtual-AreDistinct rs (handle r w) (handle-AreDistinct r w h)
