-- ===== src/Http/Gin.antt =====
-- What the handlers of internal/adapters/primary/http share: the project of a request, the binding of
-- its body, and how a call of a service becomes a response.
use model_registry_service.Base.{
  ℕ, String, Bool, not, ◌&&◌, ◌||◌, Option, none, some, if◌then◌else◌, str_eq, ℤ, pos, ltb_ℤ, ◌==◌,
}
use model_registry_service.Domain.Result.{Error, Result, ok, err, panic, missing_project_id, text}
use model_registry_service.Domain.Traffic.{Uuid, nil_uuid}
use model_registry_service.Cluster.Server.{Act}
use model_registry_service.Http.Errors.{status_of, shown}

-- google/uuid and gin, as far as the handlers see them: uuid.Parse, and the text of the error when a
-- body does not meet the tags of its struct.
pub record Gin : Type 0 where
  pub parse_uuid : String → Option Uuid
  pub refusal : String

-- A body: the struct that the decoder filled, or the text of its error.
pub data Sent (A : Type 0) : Type 0 where
  decoded : A → Sent A
  undecodable : String → Sent A

-- A response: gin.H{"error": text}, a value, or a bare status.
pub data Body (A : Type 0) : Type 0 where
  failure : String → Body A
  value : A → Body A
  empty : Body A

pub record Response (A : Type 0) : Type 0 where
  pub status : ℕ
  pub body : Body A

-- The tags `required` and `min=0,max=100` on an int, and `required` on a UUID and a string.
abbrev pub required_int : ℤ → Bool
required_int n = ltb_ℤ n (pos 0) || ltb_ℤ (pos 0) n

abbrev pub percentage : ℤ → Bool
percentage n = not (ltb_ℤ n (pos 0)) && not (ltb_ℤ (pos 100) n)

abbrev pub required_uuid : Uuid → Bool
required_uuid id = not (id == nil_uuid)

abbrev pub required_text : String → Bool
required_text s = not (str_eq s "")

module _ {A : Type 0} where
  abbrev pub bad_request : String → Response A
  bad_request message = record { status = 400; body = Body.failure message }

  -- mapDomainError
  unfoldable pub map_domain_error : Error → Response A
  map_domain_error e = record { status = status_of e; body = Body.failure (shown e) }

  -- gin.Recovery, around every handler.
  abbrev pub recovered : Response A
  recovered = record { status = 500; body = Body.empty }

  -- What a handler sends when the service has answered.
  abbrev pub answered : {B : Type 0} → (B → Response A) → Result B → Response A
  answered f (ok b) = f b
  answered f (err e) = map_domain_error e
  answered f panic = recovered

module _ {S A : Type 0} where
  -- The last steps of a handler: the call of the service and the response.
  unfoldable pub respond : {B : Type 0} → (B → Response A) → Act S B → S → Response A × S
  respond f m s = let (r, s') = m s in (answered f r, s')

  -- uuid.Parse of a parameter of the path, with the response where it fails.
  abbrev pub parsed : Response A → Option Uuid → (Uuid → S → Response A × S) → S → Response A × S
  parsed otherwise none k s = (otherwise, s)
  parsed otherwise (some id) k s = k id s

  -- getProjectID, and the response where it fails.
  unfoldable pub in_project : Gin → String → (Uuid → S → Response A × S) → S → Response A × S
  in_project g header k =
      parsed (bad_request (text missing_project_id))
        (if str_eq header "" then none else g.parse_uuid header) k

  -- ShouldBindJSON, and the response where it fails.
  unfoldable pub bound :
      {B : Type 0} → Gin → (B → Bool) → Sent B → (B → S → Response A × S) → S → Response A × S
  bound g valid (Sent.undecodable message) k s = (bad_request message, s)
  bound g valid (Sent.decoded b) k s = if valid b then k b s else (bad_request g.refusal, s)
