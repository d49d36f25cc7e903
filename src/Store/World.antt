-- ===== src/Store/World.antt =====
-- State and errors of a service call. The tables are those of migrations/*.sql that the services
-- read and write; uuid.New, time.Now, the database's failures and the clients of Kubernetes are an
-- oracle, which answers by the number of the question.
use model_registry_service.Base.{
  ℕ, ◌+◌, String, Bool, Option, none, some, List, [], ◌∷◌, ◌++◌, if◌then◌else◌,
}
use model_registry_service.Domain.Result.{Error, Result, ok, err, panic, connection_failure}
use model_registry_service.Domain.Traffic.{Uuid, Time, TrafficVariant, TrafficConfig}
use model_registry_service.Domain.Serving.{InferenceService, ServingEnvironment, ServeModel}
use model_registry_service.Domain.Registry.{ModelVersion, RegisteredModel}

-- ports/output.WeightedBackend, as the traffic service fills it in.
pub record WeightedBackend : Type 0 where
  pub name : String
  pub weight : ℕ
  pub variant_tag : String

-- ports/output.AIGatewayRoute
pub record AiGatewayRoute : Type 0 where
  pub name : String
  pub namespace : String
  pub model_name : String
  pub backends : List WeightedBackend
  pub label : Uuid

-- ports/output.KServeDeployment
pub record KserveDeployment : Type 0 where
  pub external_id : String
  pub url : String

-- ports/output.KServeStatus
pub record KserveStatus : Type 0 where
  pub url : String
  pub ready : Bool
  pub error : String

-- A call that was made to the cluster, whether it succeeded or not.
pub data Call : Type 0 where
  kserve_deploy : String → InferenceService → ModelVersion → Call
  kserve_undeploy : String → String → Call
  create_route : AiGatewayRoute → Call
  delete_route : String → String → Call
  update_weights : String → String → List WeightedBackend → Call

-- What a client answers.
pub data Reply (A : Type 0) : Type 0 where
  done : A → Reply A
  refused : Error → Reply A

-- What the code under this repository does not decide.
pub record Oracle : Type 0 where
  pub uuid : ℕ → Uuid
  pub now : ℕ → Time
  pub uuid_prefix : Uuid → String
  pub uuid_text : Uuid → String
  pub database_fails : ℕ → Bool
  pub kserve_available : Bool
  pub kserve_deploys : ℕ → Reply KserveDeployment
  pub kserve_undeploys : ℕ → Reply (Unit {0})
  pub kserve_status : ℕ → Reply KserveStatus
  pub gateway_available : Bool
  pub gateway_answers : ℕ → Reply (Unit {0})

pub record World : Type 0 where
  pub configs : List TrafficConfig
  pub variants : List TrafficVariant
  pub environments : List ServingEnvironment
  pub services : List InferenceService
  pub serve_models : List ServeModel
  pub versions : List ModelVersion
  pub models : List RegisteredModel
  pub calls : List Call
  pub ticks : ℕ

abbrev pub M : Type 0 → Type 0
M A = World → Result A × World

module _ {A : Type 0} where
  abbrev pub pure : A → M A
  pure a w = (ok a, w)

  abbrev pub raise : Error → M A
  raise e w = (err e, w)

  abbrev pub lift : Result A → M A
  lift r w = (r, w)

  abbrev pub gets : (World → A) → M A
  gets f w = (ok (f w), w)

  -- The use of a pointer that may be nil.
  abbrev pub deref : Option A → M A
  deref none w = (panic, w)
  deref (some a) w = (ok a, w)

  -- A pointer that the code has tested for nil.
  abbrev pub or_raise : Error → Option A → M A
  or_raise e none w = (err e, w)
  or_raise e (some a) w = (ok a, w)

abbrev pub modify : (World → World) → M (Unit {0})
modify f w = (ok tt, f w)

abbrev pub raise_if : Bool → Error → M (Unit {0})
raise_if c e w = (if c then err e else ok tt, w)

module _ {A B : Type 0} where
  abbrev pub continue : Result A → (A → M B) → M B
  continue (ok a) f w = f a w
  continue (err e) f w = (err e, w)
  continue panic f w = (panic, w)

  infixl 5 ◌>>=◌
  unfoldable pub ◌>>=◌ : M A → (A → M B) → M B
  ◌>>=◌ m f w = let (r, w') = m w in continue r f w'

infixl 5 ◌>>◌
abbrev pub ◌>>◌ : {B : Type 0} → M (Unit {0}) → M B → M B
m >> k = m >>= λ _. k

abbrev pub to_option : {A : Type 0} → Result A → Result (Option A)
to_option (ok a) = ok (some a)
to_option (err e) = ok none
to_option panic = panic

-- `x, _ := call`: a nil pointer where the call failed.
unfoldable pub attempt : {A : Type 0} → M A → M (Option A)
attempt m w = let (r, w') = m w in (to_option r, w')

-- A call whose error is dropped or only logged.
unfoldable pub ignore : {A : Type 0} → M A → M (Unit {0})
unfolding attempt ◌>>=◌
ignore m = attempt m >>= λ _. pure tt

-- The error of a call, wrapped by `fmt.Errorf("text: %w", err)`.
abbrev pub wrap : {A : Type 0} → String → Result A → Result A
wrap text (ok a) = ok a
wrap text (err e) = err (Error.wrapped text e)
wrap text panic = panic

unfoldable pub wrapping : {A : Type 0} → String → M A → M A
wrapping text m w = let (r, w') = m w in (wrap text r, w')

-- The number of this question to the oracle.
unfoldable pub tick : M ℕ
tick w = (ok w.ticks, record w { ticks = w.ticks + 1 })

abbrev pub from_reply : {A : Type 0} → Reply A → Result A
from_reply (Reply.done a) = ok a
from_reply (Reply.refused e) = err e

unfoldable pub log_call : Call → M (Unit {0})
log_call c w = (ok tt, record w { calls = w.calls ++ c ∷ [] })

module _ (E : Oracle) where
  unfoldable pub new_uuid : M Uuid
  unfolding tick ◌>>=◌
  new_uuid = do k ← tick; pure (E.uuid k)

  unfoldable pub time_now : M Time
  unfolding tick ◌>>=◌
  time_now = do k ← tick; pure (E.now k)

  -- A statement reaches the database, or the driver reports an error.
  unfoldable pub reach_database : M (Unit {0})
  unfolding tick ◌>>=◌
  reach_database = do k ← tick; raise_if (E.database_fails k) connection_failure
