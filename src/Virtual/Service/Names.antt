-- ===== src/Virtual/Service/Names.antt =====
-- The backends of a virtual model have different names, and what the statements do to that.
use model_registry_service.Base.{
  String, ◌≡◌, refl, ◌∙◌, ap, Bool, true, false, ◌&&◌, ◌||◌, List, [], ◌∷◌, ◌++◌, ◌==◌, str_eq,
  str_eq_iff, keep, arith, Bool-cases, inl, inr,
}
use model_registry_service.Domain.Traffic.{Uuid, Time}
use model_registry_service.Domain.Virtual.{VirtualModelBackend, named_backend}
use model_registry_service.Virtual.Tables.{
  update_backends, insert_backend, by_priority, backends_of,
}
use model_registry_service.Virtual.Service.{is_some}

-- A row of the virtual model with that name.
abbrev pub is_used : Uuid → String → List VirtualModelBackend → Bool
is_used vm_id name [] = false
is_used vm_id name (r ∷ rs) =
    (r.virtual_model_id == vm_id && str_eq r.ai_service_backend_name name) || is_used vm_id name rs

-- No two rows of a virtual model name the same AIServiceBackend.
abbrev pub AreDistinct : List VirtualModelBackend → Type 0
AreDistinct [] = Unit
AreDistinct (b ∷ bs) =
    (is_used b.virtual_model_id b.ai_service_backend_name bs ≡ false) × AreDistinct bs

-- A row is another if it differs in the virtual model or in the name, whichever comes first.
is_used-append :
    (a b : VirtualModelBackend) (bs : List VirtualModelBackend)
    → is_used a.virtual_model_id a.ai_service_backend_name bs ≡ false
    → (a.virtual_model_id == b.virtual_model_id
        && str_eq a.ai_service_backend_name b.ai_service_backend_name)
      ≡ false
    → is_used a.virtual_model_id a.ai_service_backend_name (bs ++ b ∷ []) ≡ false
is_used-append a b [] h k = ground (
  arith,
  str_eq_iff a.ai_service_backend_name b.ai_service_backend_name,
  str_eq_iff b.ai_service_backend_name a.ai_service_backend_name,
)
is_used-append a b (x ∷ bs) h k = ground (arith, is_used-append a b bs)

pub AreDistinct-append :
    (b : VirtualModelBackend) (bs : List VirtualModelBackend)
    → AreDistinct bs
    → is_used b.virtual_model_id b.ai_service_backend_name bs ≡ false
    → AreDistinct (bs ++ b ∷ [])
AreDistinct-append b [] u h = (refl, tt)
AreDistinct-append b (x ∷ bs) u h =
    elim (Bool-cases (
      x.virtual_model_id == b.virtual_model_id
      && str_eq x.ai_service_backend_name b.ai_service_backend_name)) [
        | inl e ↦ absurd_true (rw e at h)
        | inr e ↦ (is_used-append x b bs u.0 e, AreDistinct-append b bs u.1 (rw e at h))
      ]
  where
    absurd_true : {A : Type 0} → true ≡ false → A
    absurd_true e = cc

is_used-keep :
    (p : VirtualModelBackend → Bool) (id : Uuid) (name : String) (bs : List VirtualModelBackend)
    → is_used id name bs ≡ false
    → is_used id name (keep p bs) ≡ false
is_used-keep p id name [] h = refl
is_used-keep p id name (x ∷ bs) h = ground (arith, is_used-keep p id name bs)

pub AreDistinct-keep :
    (p : VirtualModelBackend → Bool) (bs : List VirtualModelBackend)
    → AreDistinct bs
    → AreDistinct (keep p bs)
AreDistinct-keep p [] u = tt
AreDistinct-keep p (x ∷ bs) u = elim (Bool-cases (p x)) [
  | inl k ↦ rw k (
    is_used-keep p x.virtual_model_id x.ai_service_backend_name bs u.0,
    AreDistinct-keep p bs u.1,
  )
  | inr k ↦ rw k (AreDistinct-keep p bs u.1)
]

-- An UPDATE changes no name and no virtual model.
is_used-update :
    (now : Time) (b : VirtualModelBackend) (id : Uuid) (name : String)
    (bs : List VirtualModelBackend)
    → is_used id name (update_backends now b bs) ≡ is_used id name bs
unfolding update_backends
is_used-update now b id name [] = refl
is_used-update now b id name (x ∷ bs) = elim (Bool-cases (x.id == b.id)) [
  | inl e ↦ rw (e, is_used-update now b id name bs) refl
  | inr e ↦ rw (e, is_used-update now b id name bs) refl
]

pub AreDistinct-update :
    (now : Time) (b : VirtualModelBackend) (bs : List VirtualModelBackend)
    → AreDistinct bs
    → AreDistinct (update_backends now b bs)
unfolding update_backends
AreDistinct-update now b [] u = tt
AreDistinct-update now b (x ∷ bs) u = elim (Bool-cases (x.id == b.id)) [
  | inl e ↦ rw e (is_used-update now b _ _ bs ∙ u.0, AreDistinct-update now b bs u.1)
  | inr e ↦ rw e (is_used-update now b _ _ bs ∙ u.0, AreDistinct-update now b bs u.1)
]

-- What GetBackend finds in the backends of a virtual model.
named-insert :
    (name : String) (b : VirtualModelBackend) (xs : List VirtualModelBackend)
    → is_some (named_backend name (insert_backend b xs))
      ≡ (str_eq b.ai_service_backend_name name || is_some (named_backend name xs))
unfolding named_backend insert_backend
named-insert name b [] = ground arith
named-insert name b (x ∷ xs) = ground (arith, named-insert name b xs)

named-priority :
    (id : Uuid) (name : String) (bs : List VirtualModelBackend)
    → is_some (named_backend name (by_priority (keep (λ b. b.virtual_model_id == id) bs)))
      ≡ is_used id name bs
unfolding by_priority named_backend
named-priority id name [] = refl
named-priority id name (b ∷ bs) = elim (Bool-cases (b.virtual_model_id == id)) [
  | inl e ↦ rw e (
      named-insert name b (by_priority (keep (λ b. b.virtual_model_id == id) bs))
      ∙ ap (λ (x : Bool). str_eq b.ai_service_backend_name name || x) (named-priority id name bs))
  | inr e ↦ rw e (named-priority id name bs)
]

-- A name that AddBackend does not find is not used.
pub named-backends_of :
    (id : Uuid) (name : String) (bs : List VirtualModelBackend)
    → is_some (named_backend name (backends_of id bs)) ≡ is_used id name bs
unfolding backends_of
named-backends_of = named-priority
