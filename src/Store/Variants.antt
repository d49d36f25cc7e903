-- ===== src/Store/Variants.antt =====
-- internal/adapters/secondary/postgres/traffic_variant_repo.go over the table traffic_variant of
-- migrations/000003_add_traffic_tables.up.sql: its primary key, the unique pair of configuration
-- and name, the check of the weight, and the columns that do not take NULL. A foreign key that is
-- violated counts among the failures that the oracle decides.
pub mod Rows
pub mod Writes
pub mod Budget
pub mod Lookup
use model_registry_service.Base.{
  ℕ, String, Bool, true, false, not, ◌&&◌, ◌||◌, Option, none, some, List, [], ◌∷◌, ◌++◌, map, ltb,
  leb, ◌==◌, if◌then◌else◌, str_eq, keep,
}
use model_registry_service.Domain.Result.{
  traffic_variant_not_found, unique_violation, not_null_violation, check_violation,
}
use model_registry_service.Domain.Traffic.{Uuid, Time, TrafficVariant}
use model_registry_service.Store.World.{
  Oracle, World, M, gets, modify, or_raise, raise_if, ◌>>=◌, ◌>>◌, wrapping, time_now,
  reach_database,
}

-- nullableString of traffic_config_repo.go: an empty string becomes NULL.
unfoldable pub nullable_string : String → Option String
nullable_string s = if str_eq s "" then none else some s

unfoldable pub is_null : String → Bool
unfolding nullable_string
is_null s = elim (nullable_string s) [ none ↦ true | some _ ↦ false ]

unfoldable pub row_by_id : Uuid → List TrafficVariant → Option TrafficVariant
row_by_id id [] = none
row_by_id id (r ∷ rows) = if r.id == id then some r else row_by_id id rows

abbrev pub has_id : Uuid → List TrafficVariant → Bool
has_id id rows = elim (row_by_id id rows) [ none ↦ false | some _ ↦ true ]

-- A row of that configuration and name, other than the row `self`.
unfoldable pub clashes : Uuid → Uuid → String → List TrafficVariant → Bool
clashes self config_id name [] = false
clashes self config_id name (r ∷ rows) =
    (not (r.id == self) && (r.traffic_config_id == config_id && str_eq r.variant_name name))
    || clashes self config_id name rows

-- nullableString would send NULL for a column that migrations/000003 declares NOT NULL.
abbrev pub lacks_text : TrafficVariant → Bool
lacks_text v = is_null v.kserve_isvc_name || is_null v.kserve_revision

-- UPDATE traffic_variant SET …: what the statement writes to the row.
unfoldable pub overwrite : Time → TrafficVariant → TrafficVariant → TrafficVariant
overwrite now v r = record r {
  variant_name = v.variant_name;
  weight = v.weight;
  kserve_isvc_name = v.kserve_isvc_name;
  kserve_revision = v.kserve_revision;
  status = v.status;
  updated_at = now;
}

unfoldable pub update_rows : Time → TrafficVariant → List TrafficVariant → List TrafficVariant
unfolding overwrite
update_rows now v [] = []
update_rows now v (r ∷ rows) =
    (if r.id == v.id then overwrite now v r else r) ∷ update_rows now v rows

insert_by_created : TrafficVariant → List TrafficVariant → List TrafficVariant
insert_by_created v [] = v ∷ []
insert_by_created v (x ∷ xs) =
    if leb v.created_at x.created_at then v ∷ x ∷ xs else x ∷ insert_by_created v xs

-- ORDER BY created_at ASC
unfoldable pub order_by_created : List TrafficVariant → List TrafficVariant
unfolding insert_by_created
order_by_created [] = []
order_by_created (v ∷ vs) = insert_by_created v (order_by_created vs)

-- SELECT … WHERE traffic_config_id = $1 ORDER BY created_at ASC
unfoldable pub rows_of : Uuid → List TrafficVariant → List TrafficVariant
unfolding order_by_created
rows_of config_id rows = order_by_created (keep (λ r. r.traffic_config_id == config_id) rows)

abbrev set_variants : List TrafficVariant → World → World
set_variants rows w = record w { variants = rows }

module _ (E : Oracle) where
  -- The constraints that a written row has to meet.
  abbrev pub check_row : Uuid → TrafficVariant → List TrafficVariant → M (Unit {0})
  check_row config_id v rows = do
    raise_if (lacks_text v) not_null_violation
    raise_if (ltb 100 v.weight) check_violation
    raise_if (clashes v.id config_id v.variant_name rows) unique_violation

  -- Create
  unfoldable pub variant_create : TrafficVariant → M (Unit {0})
  variant_create v = wrapping "insert traffic_variant" do
    reach_database E
    rows ← gets (λ w. w.variants)
    raise_if (has_id v.id rows) unique_violation
    check_row v.traffic_config_id v rows
    modify (set_variants (rows ++ v ∷ []))

  -- Update
  unfoldable pub variant_update : TrafficVariant → M (Unit {0})
  variant_update v = do
    wrapping "update traffic_variant" (reach_database E)
    rows ← gets (λ w. w.variants)
    row ← or_raise traffic_variant_not_found (row_by_id v.id rows)
    wrapping "update traffic_variant" (check_row row.traffic_config_id v rows)
    now ← time_now E
    modify (set_variants (update_rows now v rows))

  -- Delete
  unfoldable pub variant_delete : Uuid → M (Unit {0})
  variant_delete id = do
    wrapping "delete traffic_variant" (reach_database E)
    rows ← gets (λ w. w.variants)
    raise_if (not (has_id id rows)) traffic_variant_not_found
    modify (set_variants (keep (λ r. not (r.id == id)) rows))

  -- ListByConfig
  unfoldable pub variant_list_by_config : Uuid → M (List TrafficVariant)
  variant_list_by_config config_id = do
    wrapping "query traffic_variants" (reach_database E)
    gets (λ w. rows_of config_id w.variants)

  -- DeleteByConfig
  unfoldable pub variant_delete_by_config : Uuid → M (Unit {0})
  variant_delete_by_config config_id = do
    wrapping "delete traffic_variants by config" (reach_database E)
    modify (λ w. set_variants (keep (λ r. not (r.traffic_config_id == config_id)) w.variants) w)
