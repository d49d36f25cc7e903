-- ===== src/Base/Text.antt =====
-- Go's strings: concatenation, and `%d` of `fmt.Sprintf`.
use Prim.Native.Nat.{ℕ, zero, suc, ◌/◌, ◌%◌}
use Prim.Native.String.{String}
use Prim.Native.String
use Prim.Native.String.append
use mathlib.Core.Path.{◌≡◌, refl, sym, subst}
use mathlib.Core.Bool.{Bool, true, false, ◌||◌}
use text.Mathlib.Text.{starts_with}
use model_registry_service.Base.Tests.{ltb, if◌then◌else◌}

infixl 65 ◌<>◌
abbrev pub ◌<>◌ : String → String → String
s <> t = String.◌++◌ s t

digit : ℕ → String
digit zero = "0"
digit (suc zero) = "1"
digit (suc (suc zero)) = "2"
digit (suc (suc (suc zero))) = "3"
digit (suc (suc (suc (suc zero)))) = "4"
digit (suc (suc (suc (suc (suc zero))))) = "5"
digit (suc (suc (suc (suc (suc (suc zero)))))) = "6"
digit (suc (suc (suc (suc (suc (suc (suc zero))))))) = "7"
digit (suc (suc (suc (suc (suc (suc (suc (suc zero)))))))) = "8"
digit _ = "9"

-- The digits of `n`, at most as many as the fuel.
digits : ℕ → ℕ → String
unfolding digit
digits zero n = ""
digits (suc fuel) n =
    let rest = digits fuel (n / 10) in if ltb n 10 then digit n else rest <> digit (n % 10)

-- `%d` of a number below 2 ^ 63, which has at most 19 digits.
unfoldable pub decimal : ℕ → String
unfolding digits
decimal = digits 19

decimal_sample : decimal 1770842160 ≡ "1770842160"
unfolding decimal
decimal_sample = refl

or_true : (b : Bool) → (b || true) ≡ true
or_true true = refl
or_true false = refl

-- strings.Contains
unfoldable pub contains : String → String → Bool
contains String.[] t = starts_with "" t
contains (String.◌∷◌ c s) t = starts_with (String.◌∷◌ c s) t || contains s t

-- A text contains what its end contains.
pub contains-append : (s s' t : String) → contains s' t ≡ true → contains (s <> s') t ≡ true
unfolding contains
contains-append String.[] s' t h =
    subst (λ (x : String). contains x t ≡ true) (sym (λ i. append.nil s' i)) h
contains-append (String.◌∷◌ c s) s' t h =
    subst (λ (x : String). contains x t ≡ true) (sym (λ i. append.cons c s s' i))
      (rw (contains-append s s' t h) (or_true _))

contains_sample : contains "pods \"a\" not found" "not found" ≡ true
unfolding contains
contains_sample = refl
