-- ===== src/Traffic/Variants/Sound.antt =====
-- What holds of the table of variants between requests, and how each statement keeps it.
use model_registry_service.Base.{
  ◌+◌, ◌≤◌, ◌≡◌, sym, subst, inl, inr, false, not, some, List, [], ◌∷◌, ◌==◌, arith, Bool-cases,
  All, All-append, All-keep, String, str_eq_iff,
}
use model_registry_service.Domain.Traffic.{
  Uuid, Time, TrafficVariant, TrafficConfig, is_active, active_weight, find_variant, get_variant,
}
use model_registry_service.Store.World.{Oracle, World}
use model_registry_service.Store.Variants.{row_by_id, update_rows}
use model_registry_service.Store.Variants.Rows.{Has, HasUniqueIds}
use model_registry_service.Store.Variants.Writes.{Created, Updated, Deleted}
use model_registry_service.Store.Variants.Budget.{
  config_weight, config_weight-append, config_weight-update_rows, config_weight-keep,
  HasUniqueIds-append, HasUniqueIds-update_rows, HasUniqueIds-keep,
}

-- A variant that is not active has no weight.
abbrev pub IsIdle : TrafficVariant → Type 0
IsIdle r = is_active r.status ≡ false → r.weight ≡ 0

-- Identifiers are unique, a variant that is not active has no weight, and the active variants of
-- each configuration share at most 100 percent.
pub record IsSound (rows : List TrafficVariant) : Type 0 where
  pub unique : HasUniqueIds rows
  pub idle : All IsIdle rows
  pub within : (id : Uuid) → config_weight id rows ≤ 100

pub All-Has {ℓ} :
    (P : TrafficVariant → Type ℓ) (v : TrafficVariant) (rows : List TrafficVariant)
    → All P rows
    → Has v rows
    → P v
All-Has P v [] h m = absurd m
All-Has P v (r ∷ rows) h m = elim m [ inl e ↦ subst P e h.0 | inr t ↦ All-Has P v rows h.1 t ]

pub find_variant-Has :
    (name : String) (vs : List TrafficVariant) (v : TrafficVariant)
    → find_variant name vs ≡ some v
    → Has v vs × (v.variant_name ≡ name)
unfolding find_variant
find_variant-Has name [] v h = cc
find_variant-Has name (x ∷ xs) v h =
    ground (arith, str_eq_iff x.variant_name name, find_variant-Has name xs v)

-- What GetVariant returns is a variant of the configuration, of the name asked for.
pub get_variant-Has :
    (c : TrafficConfig) (name : String) (v : TrafficVariant)
    → get_variant c name ≡ some v
    → Has v c.variants × (v.variant_name ≡ name)
unfolding get_variant
get_variant-Has c name v h = find_variant-Has name c.variants v h

IsIdle-update_rows :
    (now : Time) (v : TrafficVariant) (rows : List TrafficVariant)
    → IsIdle v
    → All IsIdle rows
    → All IsIdle (update_rows now v rows)
unfolding update_rows
IsIdle-update_rows now v [] i h = tt
IsIdle-update_rows now v (r ∷ rows) i h = elim (Bool-cases (r.id == v.id)) [
  | inl e ↦ rw e (i, IsIdle-update_rows now v rows i h.1)
  | inr e ↦ rw e (h.0, IsIdle-update_rows now v rows i h.1)
]

-- A new row whose weight still fits.
pub Created-IsSound :
    {E : Oracle} {w : World} (v : TrafficVariant) (rows : List TrafficVariant)
    → IsSound rows
    → IsIdle v
    → config_weight v.traffic_config_id rows + active_weight v ≤ 100
    → Created E v rows w
    → IsSound w.variants
Created-IsSound v rows s i room d = subst IsSound (sym d.table) (record {
  unique = HasUniqueIds-append rows v s.unique d.fresh;
  idle = All-append IsIdle rows (v ∷ []) s.idle (i, tt);
  within = λ id. ground (arith, config_weight-append id rows v, s.within id);
})

-- A row rewritten so that the weights still fit.
pub Updated-IsSound :
    {E : Oracle} {w : World} (v row : TrafficVariant) (rows : List TrafficVariant)
    → IsSound rows
    → IsIdle v
    → row_by_id v.id rows ≡ some row
    → config_weight row.traffic_config_id rows + active_weight v ≤ 100 + active_weight row
    → Updated E v rows w
    → IsSound w.variants
Updated-IsSound v row rows s i found room d = subst IsSound (sym d.table) (record {
  unique = HasUniqueIds-update_rows d.now v rows s.unique;
  idle = IsIdle-update_rows d.now v rows i s.idle;
  within = λ id.
      ground (arith, config_weight-update_rows id d.now v row rows s.unique found, s.within id);
})

pub Deleted-IsSound :
    {w : World} (id : Uuid) (rows : List TrafficVariant)
    → IsSound rows
    → Deleted id rows w
    → IsSound w.variants
Deleted-IsSound id rows s d = subst IsSound (sym d.table) (record {
  unique = HasUniqueIds-keep _ rows s.unique;
  idle = All-keep IsIdle _ rows s.idle;
  within = λ c. omega (arith, config_weight-keep c (λ r. not (r.id == id)) rows, s.within c);
})
