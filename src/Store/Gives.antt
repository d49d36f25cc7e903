-- ===== src/Store/Gives.antt =====
-- What holds of the value that a service call returns, whatever the state it starts from.
use model_registry_service.Base.{
  String, ◌≡◌, refl, subst, Bool, true, false, Option, none, some, if◌then◌else◌,
}
use model_registry_service.Domain.Result.{Error, Result, ok, err, panic}
use model_registry_service.Store.World.{
  World, M, pure, raise, lift, deref, or_raise, continue, ◌>>=◌, wrapping, wrap,
}

module _ {A : Type 0} where
  pub record Gives (m : M A) (C : A → Type 0) : Type 0 where
    pub at : (w : World) (a : A) → (m w).0 ≡ ok a → C a

  pub Gives-any : (m : M A) → Gives m (λ _. Unit)
  Gives-any m = record { at = λ w a e. tt }

  pub Gives-pure : {C : A → Type 0} (a : A) → C a → Gives (pure a) C
  Gives-pure {C} a c = record { at = λ w b e. subst_ok C a b e c }
    where
      subst_ok : (C : A → Type 0) (a b : A) → ok a ≡ ok b → C a → C b
      subst_ok C a b e c = let p : a ≡ b = cc in subst C p c

  pub Gives-raise : {C : A → Type 0} (e : Error) → Gives (raise e) C
  Gives-raise e = record { at = λ w b p. cc }

  pub Gives-lift : {C : A → Type 0} (r : Result A) → ((a : A) → r ≡ ok a → C a) → Gives (lift r) C
  Gives-lift r h = record { at = λ w. h }

  pub Gives-or_raise :
      {C : A → Type 0} (e : Error) (o : Option A)
      → ((a : A) → o ≡ some a → C a)
      → Gives (or_raise e o) C
  Gives-or_raise e none h = record { at = λ w b p. cc }
  Gives-or_raise e (some a) h = Gives-pure a (h a refl)

  pub Gives-deref :
      {C : A → Type 0} (o : Option A) → ((a : A) → o ≡ some a → C a) → Gives (deref o) C
  Gives-deref none h = record { at = λ w b p. cc }
  Gives-deref (some a) h = Gives-pure a (h a refl)

  wrap_ok : (text : String) (r : Result A) (a : A) → wrap text r ≡ ok a → r ≡ ok a
  wrap_ok text (ok b) a h = h
  wrap_ok text (err e) a h = cc
  wrap_ok text panic a h = cc

  pub Gives-wrapping :
      {C : A → Type 0} {m : M A} (text : String) → Gives m C → Gives (wrapping text m) C
  unfolding wrapping
  Gives-wrapping {m = m} text h = record { at = λ w a e. h.at w a (wrap_ok text (m w).0 a e) }

  pub Gives-weaken : {C D : A → Type 0} {m : M A} → ((a : A) → C a → D a) → Gives m C → Gives m D
  Gives-weaken k h = record { at = λ w a e. k a (h.at w a e) }

  pub Gives-if :
      {C : A → Type 0} (b : Bool) {m n : M A} → Gives m C → Gives n C → Gives (if b then m else n) C
  Gives-if true h k = h
  Gives-if false h k = k

module _ {A B : Type 0} {C : A → Type 0} {D : B → Type 0} where
  continue_gives :
      (r : Result A) (f : A → M B) (w : World)
      → ((a : A) → r ≡ ok a → C a)
      → ((a : A) → C a → Gives (f a) D)
      → (b : B) → (continue r f w).0 ≡ ok b
      → D b
  continue_gives (ok a) f w h k b e = (k a (h a refl)).at w b e
  continue_gives (err x) f w h k b e = cc
  continue_gives panic f w h k b e = cc

  pub Gives-bind :
      {m : M A} {f : A → M B} → Gives m C → ((a : A) → C a → Gives (f a) D) → Gives (m >>= f) D
  unfolding ◌>>=◌
  Gives-bind {m} {f} h k = record { at = λ w. continue_gives (m w).0 f (m w).1 (h.at w) k }

-- A step of which nothing is used.
pub Gives-step :
    {A B : Type 0} {D : B → Type 0} (m : M A) {f : A → M B}
    → ((a : A) → Gives (f a) D)
    → Gives (m >>= f) D
Gives-step m k = Gives-bind (Gives-any m) (λ a _. k a)
