-- ===== src/Traffic/Variants/Guards.antt =====
-- What the guards of AddVariant and UpdateVariant on a Go `int` let through: no weight passes them
-- by wrapping around.
use model_registry_service.Base.{
  ℕ, ◌+◌, ◌≤◌, ◌≡◌, false, arith, if◌then◌else◌, ℤ, pos, negsuc, ltb_ℤ, to_ℕ, ◌+ℤ◌, ◌-ℤ◌, String,
}
use model_registry_service.Domain.Result.{ok}
use model_registry_service.Domain.Traffic.{
  Uuid, Time, TrafficVariant, VariantStatus, out_of_range, new_traffic_variant, set_weight,
  is_active, active_weight, activate,
}
use model_registry_service.Traffic.Variants.{weight_set, settle}

-- total + weight > 100 fails
pub add_guard :
    (total : ℕ) (weight : ℤ)
    → total ≤ 100
    → out_of_range weight ≡ false
    → ltb_ℤ (pos 100) (pos total +ℤ weight) ≡ false
    → total + to_ℕ weight ≤ 100
unfolding ◌+ℤ◌
add_guard total (pos n) t r g = ground arith
add_guard total (negsuc n) t r g = ground arith

-- total - old + weight > 100 fails
pub update_guard :
    (total old : ℕ) (weight : ℤ)
    → total ≤ 100
    → old ≤ total
    → out_of_range weight ≡ false
    → ltb_ℤ (pos 100) (pos total -ℤ pos old +ℤ weight) ≡ false
    → total + to_ℕ weight ≤ 100 + old
unfolding ◌+ℤ◌ ◌-ℤ◌
update_guard total old (pos n) t o r g = ground arith
update_guard total old (negsuc n) t o r g = ground arith

-- A variant that NewTrafficVariant returns: its weight is the one asked for and in range.
pub new_traffic_variant-ok :
    (id : Uuid) (now : Time) (config version : Uuid) (name : String) (weight : ℤ)
    (v : TrafficVariant)
    → new_traffic_variant id now config version name weight ≡ ok v
    → (out_of_range weight ≡ false)
      × (v.weight ≡ to_ℕ weight)
      × (v.traffic_config_id ≡ config)
      × (v.variant_name ≡ name)
      × (v.status ≡ VariantStatus.pending)
      × (v.id ≡ id)
unfolding new_traffic_variant
new_traffic_variant-ok id now config version name weight v h = ground arith

pub weight_set-ok :
    (now : Time) (weight : ℤ) (v v' : TrafficVariant)
    → weight_set now weight v ≡ ok v'
    → (out_of_range weight ≡ false)
      × (v'.weight ≡ to_ℕ weight)
      × (v'.id ≡ v.id)
      × (v'.variant_name ≡ v.variant_name)
unfolding weight_set set_weight
weight_set-ok now weight v v' h = ground arith

-- The row that AddVariant stores carries at most the weight asked for, and none if it is pending.
pub added_row :
    (now : Time) (weight : ℤ) (v : TrafficVariant)
    → v.weight ≡ to_ℕ weight
    → v.status ≡ VariantStatus.pending
    → out_of_range weight ≡ false
    → let v' = if ltb_ℤ (pos 0) weight then activate now v else v in
      (is_active v'.status ≡ false → v'.weight ≡ 0)
      × (active_weight v' ≤ to_ℕ weight)
      × (v'.traffic_config_id ≡ v.traffic_config_id)
unfolding activate
added_row now weight v w p r = ground arith

-- So does the row that UpdateVariant and BulkUpdateWeights store.
pub settled_row :
    (now : Time) (weight : ℤ) (v : TrafficVariant)
    → v.weight ≡ to_ℕ weight
    → out_of_range weight ≡ false
    → (is_active (settle now weight v).status ≡ false → (settle now weight v).weight ≡ 0)
      × (active_weight (settle now weight v) ≤ to_ℕ weight)
      × ((settle now weight v).id ≡ v.id)
unfolding activate settle
settled_row now weight v w r = ground arith
