-- ===== src/Virtual/Tables.antt =====
-- The statements of internal/adapters/secondary/postgres/virtual_model_repo.go, under the constraints
-- of migrations/000004_add_virtual_model_tables.up.sql, less the lengths of texts
-- and the unique constraint of backends, whose expression PostgreSQL refuses.
pub mod Reads
pub mod Found
pub mod Order
use model_registry_service.Base.{
  ℕ, ◌+◌, ◌-◌, ◌^◌, String, Bool, true, false, not, ◌&&◌, ◌||◌, Option, none, some, List, [], ◌∷◌,
  ◌++◌, ◌==◌, if◌then◌else◌, str_eq, keep, ℤ, pos, negsuc, ltb_ℤ,
}
use model_registry_service.Domain.Result.{
  Result, ok, err, Error, virtual_model_not_found, backend_not_found, unique_violation,
  check_violation, not_null_violation, foreign_key_violation, connection_failure, message,
}
use model_registry_service.Domain.Traffic.{Uuid, Time}
use model_registry_service.Domain.Virtual.{VirtualModel, VirtualModelBackend, out_of_range}
use model_registry_service.Store.World.{Oracle}
use model_registry_service.Cluster.Server.{
  Dynamic, Act, pure, gets, modify, or_raise, raise_if, ◌>>=◌, ◌>>◌, wrapping,
}

-- The two tables, the cluster, and the number of questions put to the database and the clock.
pub record World (d : Dynamic) : Type 0 where
  pub models : List VirtualModel
  pub backends : List VirtualModelBackend
  pub cluster : d.State
  pub ticks : ℕ

unfoldable pub model_row : Uuid → Uuid → List VirtualModel → Option VirtualModel
model_row project_id id [] = none
model_row project_id id (m ∷ ms) =
    if m.id == id && m.project_id == project_id then some m else model_row project_id id ms

unfoldable pub model_named : Uuid → String → List VirtualModel → Option VirtualModel
model_named project_id name [] = none
model_named project_id name (m ∷ ms) =
    if m.project_id == project_id && str_eq m.name name
    then some m
    else model_named project_id name ms

-- The primary key, and uq_virtual_model_project_name.
unfoldable pub model_clashes : VirtualModel → List VirtualModel → Bool
model_clashes m [] = false
model_clashes m (r ∷ rs) =
    (r.id == m.id || (r.project_id == m.project_id && str_eq r.name m.name)) || model_clashes m rs

-- The same among the other rows, for a row that is rewritten.
unfoldable pub name_taken : Uuid → Uuid → String → List VirtualModel → Bool
name_taken self project_id name [] = false
name_taken self project_id name (r ∷ rs) =
    (not (r.id == self) && (r.project_id == project_id && str_eq r.name name))
    || name_taken self project_id name rs

unfoldable pub update_models : Time → Uuid → VirtualModel → List VirtualModel → List VirtualModel
update_models now project_id m [] = []
update_models now project_id m (r ∷ rs) =
    (if r.id == m.id && r.project_id == project_id
      then record r {
        name = m.name;
        description = m.description;
        ai_gateway_route_name = m.ai_gateway_route_name;
        status = m.status;
        updated_at = now;
      }
      else r)
    ∷ update_models now project_id m rs

-- The primary key. PostgreSQL refuses the unique constraint that the migration writes with an
-- expression.
unfoldable pub backend_clashes : VirtualModelBackend → List VirtualModelBackend → Bool
backend_clashes b [] = false
backend_clashes b (r ∷ rs) = r.id == b.id || backend_clashes b rs

-- The columns are INT.
abbrev out_of_int : ℤ → Bool
out_of_int n = ltb_ℤ n (negsuc (2 ^ 31 - 1)) || not (ltb_ℤ n (pos (2 ^ 31)))

-- chk_virtual_model_backend_weight and chk_virtual_model_backend_priority
abbrev pub violates_checks : VirtualModelBackend → Bool
violates_checks b = out_of_range b.weight || ltb_ℤ b.priority (pos 0)

unfoldable pub has_model : Uuid → List VirtualModel → Bool
has_model id [] = false
has_model id (m ∷ ms) = m.id == id || has_model id ms

unfoldable pub has_backend : Uuid → List VirtualModelBackend → Bool
has_backend id [] = false
has_backend id (b ∷ bs) = b.id == id || has_backend id bs

unfoldable pub update_backends :
    Time → VirtualModelBackend → List VirtualModelBackend → List VirtualModelBackend
update_backends now b [] = []
update_backends now b (r ∷ rs) =
    (if r.id == b.id
      then record r {
        weight = b.weight;
        priority = b.priority;
        status = b.status;
        updated_at = now;
      }
      else r)
    ∷ update_backends now b rs

-- ORDER BY priority, weight DESC
abbrev pub comes_first : VirtualModelBackend → VirtualModelBackend → Bool
comes_first a b =
    ltb_ℤ a.priority b.priority
    || (not (ltb_ℤ b.priority a.priority) && not (ltb_ℤ a.weight b.weight))

unfoldable pub insert_backend :
    VirtualModelBackend → List VirtualModelBackend → List VirtualModelBackend
insert_backend b [] = b ∷ []
insert_backend b (x ∷ xs) = if comes_first b x then b ∷ x ∷ xs else x ∷ insert_backend b xs

unfoldable pub by_priority : List VirtualModelBackend → List VirtualModelBackend
unfolding insert_backend
by_priority [] = []
by_priority (b ∷ bs) = insert_backend b (by_priority bs)

-- The rows of a virtual model, in the order of the query.
unfoldable pub backends_of : Uuid → List VirtualModelBackend → List VirtualModelBackend
unfolding by_priority
backends_of vm_id rows = by_priority (keep (λ b. b.virtual_model_id == vm_id) rows)

module _ (E : Oracle) (d : Dynamic) where
  -- The number of this question.
  unfoldable pub tick : Act (World d) ℕ
  tick w = (ok w.ticks, record w { ticks = w.ticks + 1 })

  unfoldable pub reach_database : Act (World d) (Unit {0})
  unfolding tick
  reach_database = do k ← tick; raise_if (E.database_fails k) connection_failure

  unfoldable pub time_now : Act (World d) Time
  unfolding tick
  time_now = do k ← tick; pure (E.now k)

  unfoldable pub new_uuid : Act (World d) Uuid
  unfolding tick
  new_uuid = do k ← tick; pure (E.uuid k)

  -- ListBackends
  unfoldable pub list_backends : Uuid → Act (World d) (List VirtualModelBackend)
  unfolding backends_of
  list_backends vm_id = do
    wrapping "query virtual_model_backends" reach_database
    rows ← gets (λ w. w.backends)
    pure (backends_of vm_id rows)

  -- Create
  unfoldable pub vm_create : VirtualModel → Act (World d) (Unit {0})
  vm_create vm = wrapping "insert virtual_model" do
    reach_database
    rows ← gets (λ w. w.models)
    raise_if (model_clashes vm rows) unique_violation
    modify (λ w. record w { models = rows ++ vm ∷ [] })

  -- GetByID
  unfoldable pub vm_get_by_id : Uuid → Uuid → Act (World d) VirtualModel
  vm_get_by_id project_id id = do
    wrapping "get virtual_model by id" reach_database
    rows ← gets (λ w. w.models)
    vm ← or_raise virtual_model_not_found (model_row project_id id rows)
    found ← list_backends vm.id
    pure (record vm { backends = found })

  -- GetByName
  unfoldable pub vm_get_by_name : Uuid → String → Act (World d) VirtualModel
  vm_get_by_name project_id name = do
    wrapping "get virtual_model by name" reach_database
    rows ← gets (λ w. w.models)
    vm ← or_raise virtual_model_not_found (model_named project_id name rows)
    found ← list_backends vm.id
    pure (record vm { backends = found })

  -- Update
  unfoldable pub vm_update : Uuid → VirtualModel → Act (World d) (Unit {0})
  vm_update project_id vm = do
    wrapping "update virtual_model" reach_database
    rows ← gets (λ w. w.models)
    row ← or_raise virtual_model_not_found (model_row project_id vm.id rows)
    wrapping "update virtual_model"
        (raise_if (name_taken vm.id project_id vm.name rows) unique_violation)
    now ← time_now
    modify (λ w. record w { models = update_models now project_id vm rows })

  -- Delete
  unfoldable pub vm_delete : Uuid → Uuid → Act (World d) (Unit {0})
  vm_delete project_id id = do
    wrapping "delete virtual_model_backends" reach_database
    modify λ w. record w { backends = keep (λ b. not (b.virtual_model_id == id)) w.backends }
    wrapping "delete virtual_model" reach_database
    rows ← gets (λ w. w.models)
    row ← or_raise virtual_model_not_found (model_row project_id id rows)
    modify
        λ w. record w { models = keep (λ m. not (m.id == id && m.project_id == project_id)) rows }

  -- CreateBackend
  unfoldable pub vm_create_backend : VirtualModelBackend → Act (World d) (Unit {0})
  vm_create_backend b = wrapping "insert virtual_model_backend" do
    reach_database
    raise_if (out_of_int b.weight || out_of_int b.priority)
        (message "value is out of range for type integer")
    raise_if (str_eq b.ai_service_backend_namespace "") not_null_violation
    raise_if (violates_checks b) check_violation
    rows ← gets (λ w. w.backends)
    raise_if (backend_clashes b rows) unique_violation
    models ← gets (λ w. w.models)
    raise_if (not (has_model b.virtual_model_id models)) foreign_key_violation
    modify (λ w. record w { backends = rows ++ b ∷ [] })

  -- UpdateBackend
  unfoldable pub vm_update_backend : VirtualModelBackend → Act (World d) (Unit {0})
  vm_update_backend b = do
    wrapping "update virtual_model_backend" do
      reach_database
      raise_if (out_of_int b.weight || out_of_int b.priority)
          (message "value is out of range for type integer")
    rows ← gets (λ w. w.backends)
    raise_if (not (has_backend b.id rows)) backend_not_found
    wrapping "update virtual_model_backend" (raise_if (violates_checks b) check_violation)
    now ← time_now
    modify (λ w. record w { backends = update_backends now b rows })

  -- DeleteBackend
  unfoldable pub vm_delete_backend : Uuid → Act (World d) (Unit {0})
  vm_delete_backend id = do
    wrapping "delete virtual_model_backend" reach_database
    rows ← gets (λ w. w.backends)
    raise_if (not (has_backend id rows)) backend_not_found
    modify (λ w. record w { backends = keep (λ b. not (b.id == id)) rows })
