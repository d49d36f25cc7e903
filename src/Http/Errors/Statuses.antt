-- ===== src/Http/Errors/Statuses.antt =====
-- What a client learns of an error.
use model_registry_service.Base.{ℕ, String, arith, ◌≡◌, refl, ◌⊎◌, inl, inr, ◌≢◌}
use model_registry_service.Domain.Result.{Error, text, cause}
use model_registry_service.Http.Errors.{Kind, kind, code, said, status_of, shown}
use model_registry_service.Http.Gin.{Body, Response, map_domain_error}

-- The response that says nothing of the error.
abbrev pub opaque_response : {A : Type 0} → Response A
opaque_response = record { status = 500; body = Body.failure "internal server error" }

-- The response that shows it.
abbrev pub open_response : {A : Type 0} → ℕ → Error → Response A
open_response status e = record { status = status; body = Body.failure (text e) }

abbrev pub response_of : {A : Type 0} → Kind → Error → Response A
response_of k e = record { status = code k; body = Body.failure (said k (text e)) }

by_kind :
    {A : Type 0} (k : Kind) (e : Error)
    → (response_of {A = A} k e ≡ opaque_response)
      ⊎ ((response_of {A = A} k e ≡ open_response (code k) e) × (code k ≢ 500))
by_kind Kind.not_found e = inr (refl, omega arith)
by_kind Kind.conflict e = inr (refl, omega arith)
by_kind Kind.invalid e = inr (refl, omega arith)
by_kind Kind.unavailable e = inr (refl, omega arith)
by_kind Kind.internal e = inl refl

-- The response to an error is either 500 with a text that does not depend on the error, or another
-- status with the text of the error; and wrapping an error changes no status.
pub map_domain_error-hides :
    {A : Type 0} (e : Error) (s : String)
    → ((map_domain_error {A = A} e ≡ opaque_response)
        ⊎ ((map_domain_error {A = A} e ≡ open_response (status_of e) e) × (status_of e ≢ 500)))
      × ((map_domain_error {A = A} (Error.wrapped s e)).status
          ≡ (map_domain_error {A = A} e).status)
unfolding map_domain_error status_of shown cause
map_domain_error-hides e s = (by_kind (kind (cause e)) e, refl)
