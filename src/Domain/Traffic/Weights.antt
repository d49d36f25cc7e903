-- ===== src/Domain/Traffic/Weights.antt =====
-- What the sums over variants in internal/core/domain/traffic.go amount to.
use model_registry_service.Base.{◌<◌, ◌≡◌, refl, List, [], ◌∷◌, All, arith, keep}
use model_registry_service.Domain.Traffic.{
  TrafficVariant, TrafficConfig, VariantStatus, sum_active, total_weight, serves_traffic,
  get_active_variants,
}

sum_active-keep : (vs : List TrafficVariant) → sum_active (keep serves_traffic vs) ≡ sum_active vs
unfolding sum_active
sum_active-keep [] = refl
sum_active-keep (v ∷ vs) = ground (arith, sum_active-keep vs)

serving_keep :
    (vs : List TrafficVariant)
    → All (λ v. (v.status ≡ VariantStatus.active) × (0 < v.weight)) (keep serves_traffic vs)
serving_keep [] = tt
serving_keep (v ∷ vs) = ground (arith, serving_keep vs)

-- Every variant that GetActiveVariants returns is active with a weight above zero, and their
-- weights add up to TotalWeight: what the filter drops adds nothing.
pub total_weight-get_active_variants :
    (c : TrafficConfig)
    → (sum_active (get_active_variants c) ≡ total_weight c)
      × All (λ v. (v.status ≡ VariantStatus.active) × (0 < v.weight)) (get_active_variants c)
unfolding total_weight get_active_variants
total_weight-get_active_variants c = (sum_active-keep c.variants, serving_keep c.variants)
