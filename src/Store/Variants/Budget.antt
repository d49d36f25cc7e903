-- ===== src/Store/Variants/Budget.antt =====
-- The weight that the rows of a configuration carry, under each statement on traffic_variant.
use model_registry_service.Base.{
  ℕ, ◌+◌, ◌≤◌, ◌≡◌, refl, ◌∙◌, inl, inr, Bool, false, some, List, [], ◌∷◌, ◌++◌, ◌==◌,
  if◌then◌else◌, keep, arith, Bool-cases,
}
use model_registry_service.Domain.Traffic.{Uuid, Time, TrafficVariant, active_weight, sum_active}
use model_registry_service.Store.Variants.{
  row_by_id, has_id, insert_by_created, order_by_created, rows_of, update_rows,
}
use model_registry_service.Store.Variants.Rows.{Has, HasUniqueIds}

-- What a row adds to the weight of a configuration.
abbrev pub share : Uuid → Uuid → TrafficVariant → ℕ
share id owner v = if owner == id then active_weight v else 0

-- The weight of the active rows of a configuration.
unfoldable pub config_weight : Uuid → List TrafficVariant → ℕ
config_weight id [] = 0
config_weight id (r ∷ rows) = share id r.traffic_config_id r + config_weight id rows

sum_active-insert :
    (v : TrafficVariant) (xs : List TrafficVariant)
    → sum_active (insert_by_created v xs) ≡ active_weight v + sum_active xs
unfolding insert_by_created sum_active
sum_active-insert v [] = refl
sum_active-insert v (x ∷ xs) = ground (arith, sum_active-insert v xs)

sum_active-order : (xs : List TrafficVariant) → sum_active (order_by_created xs) ≡ sum_active xs
unfolding order_by_created sum_active
sum_active-order [] = refl
sum_active-order (x ∷ xs) =
    omega (arith, sum_active-insert x (order_by_created xs), sum_active-order xs)

sum_active-keep :
    (id : Uuid) (rows : List TrafficVariant)
    → sum_active (keep (λ r. r.traffic_config_id == id) rows) ≡ config_weight id rows
unfolding sum_active config_weight
sum_active-keep id [] = refl
sum_active-keep id (r ∷ rows) = ground (arith, sum_active-keep id rows)

-- TotalWeight of a loaded configuration is the weight of its rows.
pub sum_active-rows_of :
    (id : Uuid) (rows : List TrafficVariant) → sum_active (rows_of id rows) ≡ config_weight id rows
unfolding rows_of
sum_active-rows_of id rows = sum_active-order (keep _ rows) ∙ sum_active-keep id rows

pub config_weight-append :
    (id : Uuid) (rows : List TrafficVariant) (v : TrafficVariant)
    → config_weight id (rows ++ v ∷ []) ≡ config_weight id rows + share id v.traffic_config_id v
unfolding config_weight
config_weight-append id [] v = omega arith
config_weight-append id (r ∷ rows) v = omega (arith, config_weight-append id rows v)

pub config_weight-keep :
    (id : Uuid) (p : TrafficVariant → Bool) (rows : List TrafficVariant)
    → config_weight id (keep p rows) ≤ config_weight id rows
unfolding config_weight
config_weight-keep id p [] = omega arith
config_weight-keep id p (r ∷ rows) = elim (Bool-cases (p r)) [
  | inl e ↦ rw e (omega (arith, config_weight-keep id p rows))
  | inr e ↦ rw e (omega (arith, config_weight-keep id p rows))
]

-- A statement for an identifier that no row has changes nothing.
pub update_rows_absent :
    (now : Time) (v : TrafficVariant) (rows : List TrafficVariant)
    → has_id v.id rows ≡ false
    → update_rows now v rows ≡ rows
unfolding update_rows row_by_id
update_rows_absent now v [] h = refl
update_rows_absent now v (r ∷ rows) h = ground (arith, update_rows_absent now v rows)

-- Rewriting a row moves the weight of its configuration by what the row carried.
pub config_weight-update_rows :
    (id : Uuid) (now : Time) (v row : TrafficVariant) (rows : List TrafficVariant)
    → HasUniqueIds rows
    → row_by_id v.id rows ≡ some row
    → config_weight id (update_rows now v rows) + share id row.traffic_config_id row
      ≡ config_weight id rows + share id row.traffic_config_id v
unfolding config_weight row_by_id update_rows
config_weight-update_rows id now v row [] u h = cc
config_weight-update_rows id now v row (r ∷ rows) u h = elim (Bool-cases (r.id == v.id)) [
  | inl e ↦ ground (arith, update_rows_absent now v rows)
  | inr e ↦ ground (arith, config_weight-update_rows id now v row rows u.1)
]

pub has_id-update_rows :
    (id : Uuid) (now : Time) (v : TrafficVariant) (rows : List TrafficVariant)
    → has_id id (update_rows now v rows) ≡ has_id id rows
unfolding row_by_id update_rows
has_id-update_rows id now v [] = refl
has_id-update_rows id now v (r ∷ rows) = ground (arith, has_id-update_rows id now v rows)

pub HasUniqueIds-update_rows :
    (now : Time) (v : TrafficVariant) (rows : List TrafficVariant)
    → HasUniqueIds rows
    → HasUniqueIds (update_rows now v rows)
unfolding update_rows
HasUniqueIds-update_rows now v [] h = tt
HasUniqueIds-update_rows now v (r ∷ rows) h =
    ground (arith, has_id-update_rows r.id now v rows, HasUniqueIds-update_rows now v rows h.1)

has_id-append :
    (id : Uuid) (rows : List TrafficVariant) (v : TrafficVariant)
    → has_id id rows ≡ false
    → (v.id == id) ≡ false
    → has_id id (rows ++ v ∷ []) ≡ false
unfolding row_by_id
has_id-append id [] v h e = ground arith
has_id-append id (r ∷ rows) v h e = ground (arith, has_id-append id rows v)

pub HasUniqueIds-append :
    (rows : List TrafficVariant) (v : TrafficVariant)
    → HasUniqueIds rows
    → has_id v.id rows ≡ false
    → HasUniqueIds (rows ++ v ∷ [])
unfolding row_by_id
HasUniqueIds-append [] v u h = (refl, tt)
HasUniqueIds-append (r ∷ rows) v u h =
    ground (arith, has_id-append r.id rows v, HasUniqueIds-append rows v u.1)

has_id-keep :
    (id : Uuid) (p : TrafficVariant → Bool) (rows : List TrafficVariant)
    → has_id id rows ≡ false
    → has_id id (keep p rows) ≡ false
unfolding row_by_id
has_id-keep id p [] h = refl
has_id-keep id p (r ∷ rows) h = ground (arith, has_id-keep id p rows)

pub HasUniqueIds-keep :
    (p : TrafficVariant → Bool) (rows : List TrafficVariant)
    → HasUniqueIds rows
    → HasUniqueIds (keep p rows)
HasUniqueIds-keep p [] u = tt
HasUniqueIds-keep p (r ∷ rows) u = elim (Bool-cases (p r)) [
  | inl e ↦ rw e (has_id-keep r.id p rows u.0, HasUniqueIds-keep p rows u.1)
  | inr e ↦ rw e (HasUniqueIds-keep p rows u.1)
]

-- A row carries no more than its configuration.
pub active_weight-le :
    (v : TrafficVariant) (rows : List TrafficVariant)
    → Has v rows
    → active_weight v ≤ config_weight v.traffic_config_id rows
unfolding config_weight
active_weight-le v [] h = absurd h
active_weight-le v (r ∷ rows) h = elim h [
  | inl e ↦ rw e (ground arith)
  | inr t ↦ omega (arith, active_weight-le v rows t)
]
