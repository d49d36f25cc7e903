-- ===== src/Registry/Slug.antt =====
-- generateSlug of internal/core/services/registered-model.go. A text is a list of characters, whose
-- length and slices count the bytes of its UTF-8, as in Go.
pub mod Shape
use Prim.Native.Char.{Char, char, code, nul, IsScalar}
use Prim.Native.String.{[], ◌∷◌, ◌++◌, len, slice}
use Prim.Native.Nat.{compare, Ordering}
use model_registry_service.Base.{
  ℕ, ◌+◌, String, ◌≡◌, refl, Bool, true, false, ◌&&◌, ◌||◌, ltb, leb, ◌==◌, if◌then◌else◌,
}

abbrev pub below_surrogates : (n : ℕ) → compare n 55296 ≡ Ordering.lt → IsScalar n
below_surrogates n e = rw e tt

abbrev pub rune_from : (n : ℕ) (o : Ordering) → compare n 55296 ≡ o → Char
rune_from n Ordering.lt e = char n (below_surrogates n e)
rune_from n _ e = char 65533 tt

-- string(ch) for a number below the surrogates, and U+FFFD elsewhere: the code makes only letters.
unfoldable pub rune : ℕ → Char
rune n = rune_from n (compare n 55296) refl

abbrev pub is_kept : ℕ → Bool
is_kept n = (leb 97 n && leb n 122) || (leb 48 n && leb n 57) || n == 45

abbrev pub is_upper : ℕ → Bool
is_upper n = leb 65 n && leb n 90

-- What the loop appends for a character.
unfoldable pub slug_of : Char → String
slug_of c =
    let n = code c in
    if is_kept n
    then c ∷ []
    else if is_upper n
    then rune (n + 32) ∷ []
    else if n == 32 || n == 95
    then "-"
    else ""

unfoldable pub slug_chars : String → String
slug_chars [] = ""
slug_chars (c ∷ s) = slug_of c ++ slug_chars s

-- generateSlug
unfoldable pub generate_slug : String → String
generate_slug name =
    let slug = slug_chars name in if ltb 60 (len slug) then slice slug 0 60 else slug

generate_slug_sample : generate_slug "My Model_v2 (été)" ≡ "my-model-v2-t"
unfolding generate_slug slug_chars slug_of rune
generate_slug_sample = refl
