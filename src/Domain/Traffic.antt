-- ===== src/Domain/Traffic.antt =====
-- internal/core/domain/traffic.go: traffic configurations and their variants.
-- The identifiers of uuid.UUID are numbers, 0 the nil one; what uuid.New and time.Now return is
-- an argument. A stored weight is a number, as it is written only behind the checks for 0 to 100.
pub mod Weights
use model_registry_service.Base.{
  ℕ, ◌+◌, String, Bool, true, false, ◌&&◌, ◌||◌, Option, none, some, List, [], ◌∷◌, ltb, ◌==◌,
  if◌then◌else◌, str_eq, keep, ℤ, pos, ltb_ℤ, to_ℕ,
}
use model_registry_service.Domain.Result.{
  Result, ok, err, Error, missing_project_id, invalid_inference_service_id, invalid_variant_name,
  invalid_traffic_weight, weight_sum_exceeds_100,
}

abbrev pub Uuid : Type 0
Uuid = ℕ

abbrev pub nil_uuid : Uuid
nil_uuid = 0

abbrev pub Time : Type 0
Time = ℕ

-- TrafficStrategy is a string that the domain does not check.
abbrev pub TrafficStrategy : Type 0
TrafficStrategy = String

pub data VariantStatus : Type 0 where
  pending active promoting draining inactive : VariantStatus

abbrev pub is_active : VariantStatus → Bool
is_active active = true
is_active _ = false

pub record TrafficVariant : Type 0 where
  pub id : Uuid
  pub created_at : Time
  pub updated_at : Time
  pub traffic_config_id : Uuid
  pub variant_name : String
  pub model_version_id : Uuid
  pub weight : ℕ
  pub kserve_isvc_name : String
  pub kserve_revision : String
  pub status : VariantStatus

pub record TrafficConfig : Type 0 where
  pub id : Uuid
  pub created_at : Time
  pub updated_at : Time
  pub project_id : Uuid
  pub inference_service_id : Uuid
  pub strategy : TrafficStrategy
  pub ai_gateway_route_name : String
  pub status : String
  pub variants : List TrafficVariant

-- NewTrafficConfig
unfoldable pub new_traffic_config :
    Uuid → Time → Uuid → Uuid → TrafficStrategy → Result TrafficConfig
new_traffic_config id now project_id isvc_id strategy =
    if project_id == nil_uuid
    then err missing_project_id
    else if isvc_id == nil_uuid
    then err invalid_inference_service_id
    else ok (record {
      id = id;
      created_at = now;
      updated_at = now;
      project_id = project_id;
      inference_service_id = isvc_id;
      strategy = strategy;
      ai_gateway_route_name = "";
      status = "active";
      variants = [];
    })

-- `weight < 0 || weight > 100`
abbrev pub out_of_range : ℤ → Bool
out_of_range weight = ltb_ℤ weight (pos 0) || ltb_ℤ (pos 100) weight

-- NewTrafficVariant
unfoldable pub new_traffic_variant : Uuid → Time → Uuid → Uuid → String → ℤ → Result TrafficVariant
new_traffic_variant id now config_id version_id name weight =
    if str_eq name ""
    then err invalid_variant_name
    else if out_of_range weight
    then err invalid_traffic_weight
    else ok (record {
      id = id;
      created_at = now;
      updated_at = now;
      traffic_config_id = config_id;
      variant_name = name;
      model_version_id = version_id;
      weight = to_ℕ weight;
      kserve_isvc_name = "";
      kserve_revision = "";
      status = pending;
    })

-- SetWeight: the variant afterwards, and the error.
unfoldable pub set_weight : Time → ℤ → TrafficVariant → TrafficVariant × Option Error
set_weight now weight v =
    if out_of_range weight
    then (v, some invalid_traffic_weight)
    else (record v { weight = to_ℕ weight; updated_at = now }, none)

-- Activate
unfoldable pub activate : Time → TrafficVariant → TrafficVariant
activate now v = record v { status = active; updated_at = now }

-- Deactivate
unfoldable pub deactivate : Time → TrafficVariant → TrafficVariant
deactivate now v = record v { status = inactive; weight = 0; updated_at = now }

unfoldable pub find_variant : String → List TrafficVariant → Option TrafficVariant
find_variant name [] = none
find_variant name (v ∷ vs) = if str_eq v.variant_name name then some v else find_variant name vs

-- GetVariant
unfoldable pub get_variant : TrafficConfig → String → Option TrafficVariant
unfolding find_variant
get_variant c name = find_variant name c.variants

-- HasVariant
unfoldable pub has_variant : TrafficConfig → String → Bool
unfolding get_variant
has_variant c name = elim (get_variant c name) [ none ↦ false | some _ ↦ true ]

-- The test of the loop in GetActiveVariants.
abbrev pub serves_traffic : TrafficVariant → Bool
serves_traffic v = is_active v.status && ltb 0 v.weight

-- GetActiveVariants
unfoldable pub get_active_variants : TrafficConfig → List TrafficVariant
get_active_variants c = keep serves_traffic c.variants

-- What one variant adds to the loop of TotalWeight.
abbrev pub active_weight : TrafficVariant → ℕ
active_weight v = if is_active v.status then v.weight else 0

unfoldable pub sum_active : List TrafficVariant → ℕ
sum_active [] = 0
sum_active (v ∷ vs) = active_weight v + sum_active vs

-- TotalWeight. Its terms are at most 100, so that the sum does not wrap.
unfoldable pub total_weight : TrafficConfig → ℕ
unfolding sum_active
total_weight c = sum_active c.variants

-- ValidateWeights
unfoldable pub validate_weights : TrafficConfig → Option Error
unfolding total_weight
validate_weights c = if ltb 100 (total_weight c) then some weight_sum_exceeds_100 else none
