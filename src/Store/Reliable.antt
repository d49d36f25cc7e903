-- ===== src/Store/Reliable.antt =====
-- Calls over a database that answers: with no failures left, a triple whose second postcondition
-- is empty says that the call returns a value.
pub mod Calls
use model_registry_service.Base.{
  ℕ, ◌≡◌, refl, sym, subst, Bool, true, false, Option, none, some, if◌then◌else◌,
}
use model_registry_service.Domain.Result.{Error, Result, ok, err, panic}
use model_registry_service.Store.World.{
  Oracle, World, M, gets, or_raise, deref, raise_if, ◌>>=◌, attempt, to_option, continue, pure,
}
use model_registry_service.Store.Hoare.{Post, Hoare}

abbrev pub Never : World → Type 0
Never _ = ⊥

-- Every statement reaches the database.
abbrev pub Answers : Oracle → Type 0
Answers E = (k : ℕ) → E.database_fails k ≡ false

attempted-Post :
    {A : Type 0} (F : World → Type 0) (Q : A → World → Type 0) (r : Result A) (w : World)
    → Post Q Never (r, w)
    → Post (λ o w. (a : A) × (o ≡ some a) × Q a w) F (to_option r, w)
attempted-Post F Q (ok a) w h = (a, refl, h)
attempted-Post F Q (err e) w h = absurd h
attempted-Post F Q panic w h = absurd h

success-Post :
    {A : Type 0} (Q : A → World → Type 0) (r : Result A) (w : World)
    → Post Q Never (r, w)
    → (a : A) × (r ≡ ok a) × Q a w
success-Post Q (ok a) w h = (a, refl, h)
success-Post Q (err e) w h = absurd h
success-Post Q panic w h = absurd h

module _ {P F : World → Type 0} where
  pub passes : (b : Bool) (e : Error) → b ≡ false → Hoare P (raise_if b e) (λ _. P) F
  passes true e h = record { at = λ w p. cc }
  passes false e h = record { at = λ w p. p }

  pub finds :
      {A B : Type 0} (f : A → M B) {R : B → World → Type 0} (e : Error) (o : Option A) (a : A)
      → o ≡ some a
      → Hoare P (f a) R F
      → Hoare P (or_raise e o >>= f) R F
  unfolding ◌>>=◌
  finds f e none a h k = cc
  finds f {R = R} e (some b) a h k =
      let same : b ≡ a = cc in
      record { at = λ w p. subst (λ x. Post R F (f x w)) (sym same) (k.at w p) }

  pub derefs :
      {A B : Type 0} (f : A → M B) {R : B → World → Type 0} (o : Option A) (a : A)
      → o ≡ some a
      → Hoare P (f a) R F
      → Hoare P (deref o >>= f) R F
  unfolding ◌>>=◌
  derefs f none a h k = cc
  derefs f {R = R} (some b) a h k =
      let same : b ≡ a = cc in
      record { at = λ w p. subst (λ x. Post R F (f x w)) (sym same) (k.at w p) }

  pub reads :
      {A B : Type 0} (k : A → M B) {R : B → World → Type 0} (f : World → A) (a : A)
      → ((w : World) → P w → f w ≡ a)
      → Hoare P (k a) R F
      → Hoare P (gets f >>= k) R F
  unfolding ◌>>=◌
  reads k {R = R} f a h t = record {
    at = λ w p. subst (λ x. Post R F (k x w)) (sym (h w p)) (t.at w p);
  }

  pub finds_last :
      {A : Type 0} (e : Error) (o : Option A) (a : A)
      → o ≡ some a
      → Hoare P (or_raise e o) (λ r w. P w × (r ≡ a)) F
  finds_last e none a h = cc
  finds_last e (some b) a h = let same : b ≡ a = cc in record { at = λ w p. (p, same) }

  -- `x, _ := call` of a call that succeeds.
  pub attempts :
      {A : Type 0} {Q : A → World → Type 0} {m : M A}
      → Hoare P m Q Never
      → Hoare P (attempt m) (λ o w. (a : A) × (o ≡ some a) × Q a w) F
  unfolding attempt
  attempts {Q = Q} {m = m} h = record { at = λ w p. attempted-Post F Q (m w).0 (m w).1 (h.at w p) }

module _ {A : Type 0} {P : World → Type 0} {Q : A → World → Type 0} {m : M A} where
  -- A call that never fails returns a value.
  pub succeeds : Hoare P m Q Never → (w : World) → P w → (a : A) × ((m w).0 ≡ ok a) × Q a (m w).1
  succeeds h w p = success-Post Q (m w).0 (m w).1 (h.at w p)

-- To go on from what holds for some index.
pub from_some :
    {I A : Type 0} (P : I → World → Type 0) {F : World → Type 0} {m : M A} {R : A → World → Type 0}
    → ((i : I) → Hoare (P i) m R F)
    → Hoare (λ w. (i : I) × P i w) m R F
from_some P h = record { at = λ w (i, p). (h i).at w p }

-- A call that may return an error, but never panics.
module _ {P R : World → Type 0} where
  pub Calm-pure :
      {A : Type 0} (a : A) → ((w : World) → P w → R w) → Hoare P (attempt (pure a)) (λ _. R) Never
  unfolding attempt
  Calm-pure a h = record { at = h }

  pub Calm-if :
      {A : Type 0} (b : Bool) (m n : M A)
      → Hoare P (attempt m) (λ _. R) Never
      → Hoare P (attempt n) (λ _. R) Never
      → Hoare P (attempt (if b then m else n)) (λ _. R) Never
  Calm-if true m n h k = h
  Calm-if false m n h k = k

calm-Post :
    {A B : Type 0} (R : World → Type 0) (Q : A → World → Type 0) (f : A → M B) (r : Result A)
    (w : World)
    → Post Q Never (r, w)
    → ((a : A) → Hoare (Q a) (attempt (f a)) (λ _. R) Never)
    → Post (λ _. R) Never (let (r', w') = continue r f w in (to_option r', w'))
unfolding attempt
calm-Post R Q f (ok a) w h k = (k a).at w h
calm-Post R Q f (err e) w h k = absurd h
calm-Post R Q f panic w h k = absurd h

module _ {A B : Type 0} {P R : World → Type 0} {Q : A → World → Type 0} where
  -- Its first step succeeds.
  pub Calm-bind :
      {m : M A} (f : A → M B)
      → Hoare P m Q Never
      → ((a : A) → Hoare (Q a) (attempt (f a)) (λ _. R) Never)
      → Hoare P (attempt (m >>= f)) (λ _. R) Never
  unfolding ◌>>=◌ attempt
  Calm-bind {m} f h k = record { at = λ w p. calm-Post R Q f (m w).0 (m w).1 (h.at w p) k }
