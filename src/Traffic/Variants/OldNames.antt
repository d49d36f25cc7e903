-- ===== src/Traffic/Variants/OldNames.antt =====
-- The names that PromoteVariant gives to the stable variant.
use text.Mathlib.TextLemmas.{head-eq_of_cons-eq}
use Prim.Native.Char.{Char, code}
use Prim.Native.String.append
use model_registry_service.Base.{
  String, ◌≡◌, ◌≢◌, refl, sym, ◌∙◌, ap, false, List, [], ◌∷◌, arith, Bool-cases, inl, inr, str_eq,
  str_eq_iff, ◌<>◌,
}
use model_registry_service.Domain.Traffic.{Uuid, Time, TrafficVariant}
use model_registry_service.Store.Variants.{clashes, overwrite, update_rows}

abbrev letter_o : Char
letter_o = "o"

abbrev letter_s : Char
letter_s = "s"

pub begins_with_o : (s : String) → str_eq ("old-stable-" <> s) "stable" ≡ false
begins_with_o s = elim (Bool-cases (str_eq ("old-stable-" <> s) "stable")) [
  | inr e ↦ e
  | inl e ↦ absurd (wrong_letter ((str_eq_iff ("old-stable-" <> s) "stable").0 e))
]
  where
    wrong_letter : "old-stable-" <> s ≡ "stable" → ⊥
    wrong_letter h =
        let heads : letter_o ≡ letter_s =
          head-eq_of_cons-eq (sym (λ i. append.cons letter_o "ld-stable-" s i) ∙ h) in
        let codes : code letter_o ≡ code letter_s = ap code heads in omega (arith, codes)

-- A name with another first letter is not that of a retired stable variant.
pub not_old_name :
    (c : Char) (rest s : String)
    → code c ≢ 111
    → str_eq (String.◌∷◌ c rest) ("old-stable-" <> s) ≡ false
not_old_name c rest s other = elim (Bool-cases (str_eq (String.◌∷◌ c rest) ("old-stable-" <> s))) [
  | inr e ↦ e
  | inl e ↦ absurd (other (ap code (heads ((str_eq_iff _ _).0 e))))
]
  where
    heads : String.◌∷◌ c rest ≡ "old-stable-" <> s → c ≡ letter_o
    heads h = head-eq_of_cons-eq (h ∙ (λ i. append.cons letter_o "ld-stable-" s i))

-- No row has the name "stable" any more, once the row that had it has been renamed.
pub renamed_away :
    (self config : Uuid) (now : Time) (x : TrafficVariant) (rows : List TrafficVariant)
    → clashes x.id config "stable" rows ≡ false
    → str_eq x.variant_name "stable" ≡ false
    → clashes self config "stable" (update_rows now x rows) ≡ false
unfolding clashes update_rows overwrite
renamed_away self config now x [] h k = refl
renamed_away self config now x (r ∷ rows) h k = ground (arith, renamed_away self config now x rows)
