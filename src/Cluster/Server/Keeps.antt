-- ===== src/Cluster/Server/Keeps.antt =====
-- What a call leaves as it was, whether it returns, fails or panics.
use model_registry_service.Base.{
  String, ◌≡◌, refl, Bool, true, false, Option, none, some, if◌then◌else◌,
}
use model_registry_service.Domain.Result.{Error, Result, ok, err, panic}
use model_registry_service.Cluster.Server.{
  Act, continue, ◌>>=◌, ◌>>◌, wrapping, ignore, raise_if, or_raise, gets, modify, lift,
}

pub record Keeps {S A : Type 0} (P : S → Type 0) (m : Act S A) : Type 0 where
  pub keeps : (s : S) → P s → P (m s).1

module _ {S : Type 0} {P : S → Type 0} where
  continue-After :
      {A B : Type 0} (r : Result A) (f : A → Act S B) (s : S)
      → P s
      → ((a : A) → Keeps P (f a))
      → P (continue r f s).1
  continue-After (ok a) f s h k = (k a).keeps s h
  continue-After (err e) f s h k = h
  continue-After panic f s h k = h

  pub Keeps-bind :
      {A B : Type 0} {m : Act S A} {f : A → Act S B}
      → Keeps P m
      → ((a : A) → Keeps P (f a))
      → Keeps P (m >>= f)
  unfolding ◌>>=◌
  Keeps-bind {m = m} {f = f} first rest = record {
    keeps = λ s h. continue-After (m s).0 f (m s).1 (first.keeps s h) rest;
  }

  pub Keeps-wrapping :
      {A : Type 0} {m : Act S A} (text : String) → Keeps P m → Keeps P (wrapping text m)
  unfolding wrapping
  Keeps-wrapping text h = record { keeps = h.keeps }

  pub Keeps-ignore : {A : Type 0} {m : Act S A} → Keeps P m → Keeps P (ignore m)
  unfolding ignore
  Keeps-ignore h = record { keeps = h.keeps }

  pub Keeps-if :
      {A : Type 0} (b : Bool) {m n : Act S A} → Keeps P m → Keeps P n → Keeps P (if b then m else n)
  Keeps-if true h k = h
  Keeps-if false h k = k

  pub Keeps-pure : {A : Type 0} {r : Result A} → Keeps P (lift r)
  Keeps-pure = record { keeps = λ s h. h }

  pub Keeps-raise_if : (b : Bool) (e : Error) → Keeps P (raise_if b e)
  Keeps-raise_if b e = record { keeps = λ s h. h }

  pub Keeps-or_raise : {A : Type 0} (o : Option A) (e : Error) → Keeps P (or_raise e o)
  Keeps-or_raise none e = record { keeps = λ s h. h }
  Keeps-or_raise (some a) e = record { keeps = λ s h. h }

module _ {S : Type 0} (P : S → Type 0) where
  -- A test whose outcome the rest relies on.
  pub check-After :
      {B : Type 0} (b : Bool) (e : Error) (k : Act S B) (s : S)
      → P s
      → (b ≡ false → P (k s).1)
      → P ((raise_if b e >> k) s).1
  unfolding ◌>>=◌
  check-After true e k s h rest = h
  check-After false e k s h rest = rest refl

  pub found-After :
      {A B : Type 0} (o : Option A) (e : Error) (f : A → Act S B) (s : S)
      → P s
      → ((a : A) → P (f a s).1)
      → P ((or_raise e o >>= f) s).1
  unfolding ◌>>=◌
  found-After none e f s h rest = h
  found-After (some a) e f s h rest = rest a

  -- What is read of the state is the state's.
  pub gets-After :
      {A B : Type 0} (g : S → A) (f : A → Act S B) (s : S)
      → P (f (g s) s).1
      → P ((gets g >>= f) s).1
  unfolding ◌>>=◌
  gets-After g f s h = h

  pub modify-After :
      {B : Type 0} (g : S → S) (k : Act S B) (s : S) → P (k (g s)).1 → P ((modify g >> k) s).1
  unfolding ◌>>=◌
  modify-After g k s h = h
