-- ===== src/Store/Hoare.antt =====
-- Triples for service calls: what holds when the call returns a value, and what holds when it
-- returns an error or panics.
use model_registry_service.Base.{
  String, ◌≡◌, ◌≢◌, refl, subst, Bool, true, false, Option, none, some, if◌then◌else◌,
}
use model_registry_service.Domain.Result.{Error, Result, ok, err, panic}
use model_registry_service.Store.World.{
  World, M, pure, raise, lift, deref, or_raise, raise_if, continue, ◌>>=◌, attempt, ignore,
  wrapping, wrap, to_option,
}
use model_registry_service.Store.Silent.{SameTables, Silent}

ok-injective : {A : Type 0} {a b : A} → ok a ≡ ok b → a ≡ b
ok-injective e = cc

module _ {A : Type 0} where
  abbrev pub Post : (A → World → Type 0) → (World → Type 0) → Result A × World → Type 0
  Post Q F (ok a, w) = Q a w
  Post Q F (err e, w) = F w
  Post Q F (panic, w) = F w

  pub record Hoare (P : World → Type 0) (m : M A) (Q : A → World → Type 0) (F : World → Type 0)
      : Type 0 where
    pub at : (w : World) → P w → Post Q F (m w)

module _ {A B : Type 0} {F : World → Type 0} where
  continue-Post :
      (Q : A → World → Type 0) (R : B → World → Type 0) (r : Result A) (f : A → M B) (w : World)
      → Post Q F (r, w)
      → ((a : A) → Hoare (Q a) (f a) R F)
      → Post R F (continue r f w)
  continue-Post Q R (ok a) f w h k = (k a).at w h
  continue-Post Q R (err e) f w h k = h
  continue-Post Q R panic f w h k = h

module _ {A B : Type 0} {P F : World → Type 0} {Q : A → World → Type 0}
    {R : B → World → Type 0} where
  pub Hoare-bind :
      {m : M A} {f : A → M B}
      → Hoare P m Q F
      → ((a : A) → Hoare (Q a) (f a) R F)
      → Hoare P (m >>= f) R F
  unfolding ◌>>=◌
  Hoare-bind {m} {f} h k = record {
    at = λ w p. let (r, w') = m w in continue-Post Q R r f w' (h.at w p) k;
  }

-- The predicate looks only at the tables that the services write.
pub record IsStable (P : World → Type 0) : Type 0 where
  pub at : {w' w : World} → SameTables w' w → P w → P w'

Post-of_both :
    {A : Type 0} (P F : World → Type 0) (r : Result A) (w : World)
    → P w
    → (P w → F w)
    → Post (λ _. P) F (r, w)
Post-of_both P F (ok a) w p h = p
Post-of_both P F (err e) w p h = h p
Post-of_both P F panic w p h = h p

module _ {A : Type 0} {P F : World → Type 0} where
  -- A silent call keeps what is stable.
  pub Hoare-silent :
      {m : M A} → IsStable P → ((w : World) → P w → F w) → Silent m → Hoare P m (λ _. P) F
  Hoare-silent {m} s weak h = record {
    at = λ w p. Post-of_both P F (m w).0 (m w).1 (s.at (h.at w) p) (weak (m w).1);
  }

  pub Hoare-pure :
      {Q : A → World → Type 0} (a : A) → ((w : World) → P w → Q a w) → Hoare P (pure a) Q F
  Hoare-pure a h = record { at = h }

  pub Hoare-raise :
      {Q : A → World → Type 0} (e : Error) → ((w : World) → P w → F w) → Hoare P (raise e) Q F
  Hoare-raise e h = record { at = h }

  -- What does not depend on the world may be taken out of the precondition.
  pub Hoare-fact :
      {Q : A → World → Type 0} {C : Type 0} {m : M A}
      → (C → Hoare P m Q F)
      → Hoare (λ w. P w × C) m Q F
  Hoare-fact h = record { at = λ w p. (h p.1).at w p.0 }

module _ {B : Type 0} {P F : World → Type 0} {R : B → World → Type 0}
    (weak : (w : World) → P w → F w) where
  pub Hoare-or_raise :
      {A : Type 0} {f : A → M B} (e : Error) (o : Option A)
      → ((a : A) → o ≡ some a → Hoare P (f a) R F)
      → Hoare P (or_raise e o >>= f) R F
  unfolding ◌>>=◌
  Hoare-or_raise e none h = record { at = weak }
  Hoare-or_raise e (some a) h = record { at = (h a refl).at }

  pub Hoare-deref :
      {A : Type 0} {f : A → M B} (o : Option A)
      → ((a : A) → o ≡ some a → Hoare P (f a) R F)
      → Hoare P (deref o >>= f) R F
  unfolding ◌>>=◌
  Hoare-deref none h = record { at = weak }
  Hoare-deref (some a) h = record { at = (h a refl).at }

  pub Hoare-lift :
      {A : Type 0} {f : A → M B} (r : Result A)
      → ((a : A) → r ≡ ok a → Hoare P (f a) R F)
      → Hoare P (lift r >>= f) R F
  unfolding ◌>>=◌
  Hoare-lift (ok a) h = record { at = (h a refl).at }
  Hoare-lift (err e) h = record { at = weak }
  Hoare-lift panic h = record { at = weak }

  pub Hoare-if :
      (b : Bool) {m n : M B}
      → (b ≡ true → Hoare P m R F)
      → (b ≡ false → Hoare P n R F)
      → Hoare P (if b then m else n) R F
  Hoare-if true h k = h refl
  Hoare-if false h k = k refl

  -- After the guard its condition is known to fail.
  pub Hoare-raise_if :
      {m : M B} (b : Bool) (e : Error)
      → (b ≡ false → Hoare P m R F)
      → Hoare P (raise_if b e >>= λ _. m) R F
  unfolding ◌>>=◌
  Hoare-raise_if true e h = record { at = weak }
  Hoare-raise_if false e h = record { at = (h refl).at }

-- A lookup at the end of a call, with what holds of every value that it finds.
pub Hoare-or_raise_last :
    {A : Type 0} {P F : World → Type 0} (C : A → Type 0) (weak : (w : World) → P w → F w)
    (e : Error) (o : Option A)
    → ((a : A) → o ≡ some a → C a)
    → Hoare P (or_raise e o) (λ a w. P w × C a) F
Hoare-or_raise_last C weak e none h = record { at = weak }
Hoare-or_raise_last C weak e (some a) h = record { at = λ w p. (p, h a refl) }

-- A guard at the end of a call.
pub Hoare-raise_if_last :
    {P F : World → Type 0} (weak : (w : World) → P w → F w) (b : Bool) (e : Error)
    → Hoare P (raise_if b e) (λ _ w. P w × (b ≡ false)) F
Hoare-raise_if_last weak true e = record { at = weak }
Hoare-raise_if_last weak false e = record { at = λ w p. (p, refl) }

never_ok-Post :
    {A : Type 0} (F : World → Type 0) (r : Result A) (w : World)
    → Post (λ _ _. ⊥) F (r, w)
    → ((a : A) → r ≢ ok a) × F w
never_ok-Post F (ok a) w p = absurd p
never_ok-Post F (err e) w p = (λ a q. cc, p)
never_ok-Post F panic w p = (λ a q. cc, p)

-- A call whose success is impossible fails, with what holds of failures.
pub never_ok :
    {A : Type 0} {P F : World → Type 0} {m : M A}
    → Hoare P m (λ _ _. ⊥) F
    → (w : World) → P w
    → ((a : A) → (m w).0 ≢ ok a) × F (m w).1
never_ok {F = F} {m = m} h w p = never_ok-Post F (m w).0 (m w).1 (h.at w p)

keeps-Post :
    {A : Type 0} (F : World → Type 0) (r : Result A) (w : World) → Post (λ _. F) F (r, w) → F w
keeps-Post F (ok a) w p = p
keeps-Post F (err e) w p = p
keeps-Post F panic w p = p

-- What holds on every branch holds afterwards.
pub keeps :
    {A : Type 0} {P F : World → Type 0} {m : M A}
    → Hoare P m (λ _. F) F
    → (w : World) → P w
    → F (m w).1
keeps {F = F} {m = m} h w p = keeps-Post F (m w).0 (m w).1 (h.at w p)

ok-Post :
    {A : Type 0} (Q : A → World → Type 0) (F : World → Type 0) (r : Result A) (w : World)
    → Post Q F (r, w)
    → (a : A) → r ≡ ok a
    → Q a w
ok-Post Q F (ok b) w p a e = subst (λ c. Q c w) (ok-injective e) p
ok-Post Q F (err x) w p a e = cc
ok-Post Q F panic w p a e = cc

-- What holds of a value that was returned.
pub returned :
    {A : Type 0} {P F : World → Type 0} {Q : A → World → Type 0} {m : M A}
    → Hoare P m Q F
    → (w : World) → P w
    → (a : A) → (m w).0 ≡ ok a
    → Q a (m w).1
returned {F = F} {Q = Q} {m = m} h w p a e = ok-Post Q F (m w).0 (m w).1 (h.at w p) a e

attempt-Post :
    {A : Type 0} (F Q : World → Type 0) (r : Result A) (w : World)
    → Post (λ _. Q) Q (r, w)
    → (Q w → F w)
    → Post (λ _. Q) F (to_option r, w)
attempt-Post F Q (ok a) w p h = p
attempt-Post F Q (err e) w p h = p
attempt-Post F Q panic w p h = h p

-- A call whose error is dropped.
pub Hoare-ignore :
    {A : Type 0} {P F Q : World → Type 0} {m : M A}
    → ((w : World) → Q w → F w)
    → Hoare P m (λ _. Q) Q
    → Hoare P (ignore m) (λ _. Q) F
unfolding ignore
Hoare-ignore {F = F} {Q = Q} {m = m} weak h =
    Hoare-bind {Q = λ _. Q}
      (unfold attempt in
        record { at = λ w p. attempt-Post F Q (m w).0 (m w).1 (h.at w p) (weak (m w).1) })
      (λ _. record { at = λ w p. p })

Post-weaken :
    {A : Type 0} (F F' : World → Type 0) (Q Q' : A → World → Type 0) (r : Result A) (w : World)
    → ((a : A) → Q a w → Q' a w)
    → (F w → F' w)
    → Post Q F (r, w)
    → Post Q' F' (r, w)
Post-weaken F F' Q Q' (ok a) w h k p = h a p
Post-weaken F F' Q Q' (err e) w h k p = k p
Post-weaken F F' Q Q' panic w h k p = k p

pub Hoare-weaken :
    {A : Type 0} {P F P' F' : World → Type 0} {Q Q' : A → World → Type 0} {m : M A}
    → ((w : World) → P' w → P w)
    → ((a : A) (w : World) → Q a w → Q' a w)
    → ((w : World) → F w → F' w)
    → Hoare P m Q F
    → Hoare P' m Q' F'
Hoare-weaken {F = F} {F' = F'} {Q = Q} {Q' = Q'} {m = m} pre h k t = record {
  at = λ w p.
      Post-weaken F F' Q Q' (m w).0 (m w).1 (λ a. h a (m w).1) (k (m w).1) (t.at w (pre w p));
}

wrap-Post :
    {A : Type 0} (F : World → Type 0) (Q : A → World → Type 0) (text : String) (r : Result A)
    (w : World)
    → Post Q F (r, w)
    → Post Q F (wrap text r, w)
wrap-Post F Q text (ok a) w p = p
wrap-Post F Q text (err e) w p = p
wrap-Post F Q text panic w p = p

pub Hoare-wrapping :
    {A : Type 0} {P F : World → Type 0} {Q : A → World → Type 0} {m : M A} (text : String)
    → Hoare P m Q F
    → Hoare P (wrapping text m) Q F
unfolding wrapping
Hoare-wrapping {F = F} {Q = Q} {m = m} text h = record {
  at = λ w p. wrap-Post F Q text (m w).0 (m w).1 (h.at w p);
}
