-- ===== src/Store/Variants/Rows.antt =====
-- The rows that the queries on the table traffic_variant find.
use model_registry_service.Base.{
  String, ◌≡◌, ◌≢◌, ◌⊎◌, inl, inr, true, false, some, List, [], ◌∷◌, ◌==◌, str_eq_iff, keep, arith,
}
use model_registry_service.Domain.Traffic.{Uuid, TrafficVariant}
use model_registry_service.Store.Variants.{
  row_by_id, has_id, clashes, insert_by_created, order_by_created, rows_of,
}

-- The variant is a row of the table.
abbrev pub Has : TrafficVariant → List TrafficVariant → Type 0
Has v [] = ⊥
Has v (r ∷ rows) = (r ≡ v) ⊎ Has v rows

-- The primary key.
abbrev pub HasUniqueIds : List TrafficVariant → Type 0
HasUniqueIds [] = Unit
HasUniqueIds (r ∷ rows) = (has_id r.id rows ≡ false) × HasUniqueIds rows

Has-insert_by_created :
    (v x : TrafficVariant) (xs : List TrafficVariant)
    → Has v (insert_by_created x xs)
    → (x ≡ v) ⊎ Has v xs
unfolding insert_by_created
Has-insert_by_created v x [] h = h
Has-insert_by_created v x (y ∷ ys) h = ground (arith, Has-insert_by_created v x ys)

Has-order_by_created :
    (v : TrafficVariant) (xs : List TrafficVariant) → Has v (order_by_created xs) → Has v xs
unfolding order_by_created
Has-order_by_created v [] h = h
Has-order_by_created v (x ∷ xs) h = elim (Has-insert_by_created v x (order_by_created xs) h) [
  | inl e ↦ inl e
  | inr t ↦ inr (Has-order_by_created v xs t)
]

Has-keep :
    (v : TrafficVariant) (id : Uuid) (xs : List TrafficVariant)
    → Has v (keep (λ r. r.traffic_config_id == id) xs)
    → Has v xs × (v.traffic_config_id ≡ id)
Has-keep v id [] h = absurd h
Has-keep v id (x ∷ xs) h = ground (arith, Has-keep v id xs)

-- What a query by configuration returns is in the table and belongs to the configuration.
pub Has-rows_of :
    (v : TrafficVariant) (id : Uuid) (rows : List TrafficVariant)
    → Has v (rows_of id rows)
    → Has v rows × (v.traffic_config_id ≡ id)
unfolding rows_of
Has-rows_of v id rows h = Has-keep v id rows (Has-order_by_created v _ h)

has_id-Has :
    (v : TrafficVariant) (rows : List TrafficVariant) → Has v rows → has_id v.id rows ≡ true
unfolding row_by_id
has_id-Has v [] h = absurd h
has_id-Has v (r ∷ rows) h = elim h [
  | inl e ↦ rw e (ground arith)
  | inr t ↦ ground (arith, has_id-Has v rows t)
]

-- With unique identifiers a row is found under its own.
pub row_by_id-Has :
    (v : TrafficVariant) (rows : List TrafficVariant)
    → HasUniqueIds rows
    → Has v rows
    → row_by_id v.id rows ≡ some v
unfolding row_by_id
row_by_id-Has v [] u h = absurd h
row_by_id-Has v (r ∷ rows) u h = elim h [
  | inl e ↦ ground arith
  | inr t ↦ ground (arith, has_id-Has v rows t, row_by_id-Has v rows u.1 t)
]

-- A row of the configuration and name under another identifier is a clash.
pub clashes-Has :
    (v : TrafficVariant) (self id : Uuid) (name : String) (rows : List TrafficVariant)
    → Has v rows
    → v.id ≢ self
    → v.traffic_config_id ≡ id
    → v.variant_name ≡ name
    → clashes self id name rows ≡ true
unfolding clashes
clashes-Has v self id name [] h ne c n = absurd h
clashes-Has v self id name (r ∷ rows) h ne c n = elim h [
  | inl e ↦ ground (arith, str_eq_iff r.variant_name name)
  | inr t ↦ ground (arith, clashes-Has v self id name rows t ne c n)
]

-- Rows of different names have different identifiers.
pub ids_differ :
    (rows : List TrafficVariant) (a b : TrafficVariant)
    → HasUniqueIds rows
    → Has a rows
    → Has b rows
    → a.variant_name ≢ b.variant_name
    → a.id ≢ b.id
ids_differ rows a b u ha hb ne e = ne (cc (row_by_id-Has a rows u ha, row_by_id-Has b rows u hb))
