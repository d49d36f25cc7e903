-- ===== src/Registry/Slug/Shape.antt =====
-- The shape of a slug.
use Prim.Native.Char.{Char, code, len_utf8, len_utf8_def, width}
use Prim.Native.String.{[], ◌∷◌, ◌++◌, len, slice, fits}
use Prim.Native.Nat.{compare, Ordering}
use model_registry_service.Base.{
  ℕ, ◌+◌, ◌-◌, ◌≤◌, ◌<◌, String, ◌≡◌, refl, sym, ap, ◌∙◌, subst, true, false, ◌||◌, ltb, ◌==◌,
  if◌then◌else◌, arith, Bool-cases, inl, inr,
}
use Prim.Native.String.append
use Prim.Native.String.len
use Prim.Native.String.slice
use model_registry_service.Registry.Slug.{
  rune, rune_from, is_kept, is_upper, slug_of, slug_chars, generate_slug,
}

-- Only small letters, digits and dashes.
abbrev pub IsSlug : String → Type 0
IsSlug [] = Unit
IsSlug (c ∷ s) = (is_kept (code c) ≡ true) × IsSlug s

code-rune_from :
    (n : ℕ) (o : Ordering) (e : compare n 55296 ≡ o) → n < 55296 → code (rune_from n o e) ≡ n
code-rune_from n Ordering.lt e h = refl
code-rune_from n Ordering.eq e h = ground arith
code-rune_from n Ordering.gt e h = ground arith

code-rune : (n : ℕ) → n < 55296 → code (rune n) ≡ n
unfolding rune
code-rune n h = code-rune_from n (compare n 55296) refl h

kept_below : (n : ℕ) → is_kept n ≡ true → n < 123
kept_below n h = ground arith

narrow : (n : ℕ) → n < 128 → width (compare n 128) (compare n 2048) (compare n 65536) ≡ 1
narrow n h = ground arith

kept_width : (c : Char) → is_kept (code c) ≡ true → len_utf8 c ≡ 1
kept_width c h = (λ i. len_utf8_def c i) ∙ narrow (code c) (omega (arith, kept_below (code c) h))

upper_kept : (n : ℕ) → is_upper n ≡ true → (is_kept (n + 32) ≡ true) × (n + 32 < 55296)
upper_kept n h = ground arith

lowered : (c : Char) → is_upper (code c) ≡ true → is_kept (code (rune (code c + 32))) ≡ true
lowered c h =
    let (kept, small) = upper_kept (code c) h in
    subst (λ n. is_kept n ≡ true) (sym (code-rune (code c + 32) small)) kept

IsSlug-slug_of : (c : Char) → IsSlug (slug_of c)
unfolding slug_of
IsSlug-slug_of c = elim (Bool-cases (is_kept (code c))) [
  | inl k ↦ rw k (k, tt)
  | inr k ↦ elim (Bool-cases (is_upper (code c))) [
    | inl u ↦ rw (k, u) (lowered c u, tt)
    | inr u ↦ elim (Bool-cases (code c == 32 || code c == 95)) [
      | inl d ↦ rw (k, u, d) (refl, tt)
      | inr d ↦ rw (k, u, d) tt
    ]
  ]
]

IsSlug-append : (s t : String) → IsSlug s → IsSlug t → IsSlug (s ++ t)
IsSlug-append [] t h k = subst IsSlug (sym (λ i. append.nil t i)) k
IsSlug-append (c ∷ s) t h k =
    subst IsSlug (sym (λ i. append.cons c s t i)) (h.0, IsSlug-append s t h.1 k)

IsSlug-slug_chars : (s : String) → IsSlug (slug_chars s)
unfolding slug_chars
IsSlug-slug_chars [] = tt
IsSlug-slug_chars (c ∷ s) =
    IsSlug-append (slug_of c) (slug_chars s) (IsSlug-slug_of c) (IsSlug-slug_chars s)

slug_of-kept : (c : Char) → is_kept (code c) ≡ true → slug_of c ≡ c ∷ []
unfolding slug_of
slug_of-kept c k = rw k refl

-- A slug is its own slug, character by character.
slug_chars-IsSlug : (s : String) → IsSlug s → slug_chars s ≡ s
unfolding slug_chars
slug_chars-IsSlug [] h = refl
slug_chars-IsSlug (c ∷ s) h =
    ap (λ t. t ++ slug_chars s) (slug_of-kept c h.0)
    ∙ (λ i. append.cons c [] (slug_chars s) i)
    ∙ ap (λ t. c ∷ t) ((λ i. append.nil (slug_chars s) i) ∙ slug_chars-IsSlug s h.1)

longer : (c : Char) (s : String) (b : ℕ) → is_kept (code c) ≡ true → 1 + len s ≤ b → len (c ∷ s) ≤ b
longer c s b k h =
    subst (λ n. n ≤ b) (sym ((λ i. len.cons c s i) ∙ ap (λ n. n + len s) (kept_width c k))) h

Fits : String → ℕ → Type 0
Fits s b = IsSlug s × (len s ≤ b)

room_lt : (n b : ℕ) → compare 1 b ≡ Ordering.lt → n ≤ b - 1 → 1 + n ≤ b
room_lt n b e h = ground arith

room_eq : (n b : ℕ) → compare 1 b ≡ Ordering.eq → n ≤ b - 1 → 1 + n ≤ b
room_eq n b e h = ground arith

Fits-fits :
    (c : Char) (s : String) (b : ℕ) (o : Ordering)
    → compare 1 b ≡ o
    → is_kept (code c) ≡ true
    → Fits s (b - 1)
    → Fits (fits o c s) b
unfolding Fits
Fits-fits c s b Ordering.lt e k h = ((k, h.0), longer c s b k (room_lt (len s) b e h.1))
Fits-fits c s b Ordering.eq e k h = ((k, h.0), longer c s b k (room_eq (len s) b e h.1))
Fits-fits c s b Ordering.gt e k h = (tt, omega arith)

Fits-slice : (s : String) (b : ℕ) → IsSlug s → Fits (slice s 0 b) b
unfolding Fits
Fits-slice [] b h = subst (λ t. Fits t b) (sym (λ i. slice.nil 0 b i)) (tt, omega arith)
Fits-slice (c ∷ s) b h =
    let one = kept_width c h.0 in
    subst (λ t. Fits t b)
      (sym
        ((λ i. slice.cons-zero c s b i) ∙ ap (λ n. fits (compare n b) c (slice s 0 (b - n))) one))
      (Fits-fits c (slice s 0 (b - 1)) b (compare 1 b) refl h.0 (Fits-slice s (b - 1) h.1))

cut_short :
    (s : String)
    → IsSlug s
    → let s' = if ltb 60 (len s) then slice s 0 60 else s in IsSlug s' × (len s' ≤ 60)
unfolding Fits
cut_short s h = elim (Bool-cases (ltb 60 (len s))) [
  | inl l ↦ rw l (Fits-slice s 60 h)
  | inr l ↦ rw l (h, ground arith)
]

within : (n : ℕ) → n ≤ 60 → ltb 60 n ≡ false
within n h = ground arith

own_slug : (s : String) → IsSlug s → len s ≤ 60 → generate_slug s ≡ s
unfolding generate_slug
own_slug s h l = rw (slug_chars-IsSlug s h, within (len s) l) refl

-- Whatever the name of a model, its slug consists of small letters, digits and dashes, takes at
-- most 60 bytes, and is its own slug.
pub generate_slug-IsSlug :
    (name : String)
    → IsSlug (generate_slug name)
      × (len (generate_slug name) ≤ 60)
      × (generate_slug (generate_slug name) ≡ generate_slug name)
unfolding generate_slug
generate_slug-IsSlug name =
    let (shape, short) = cut_short (slug_chars name) (IsSlug-slug_chars name) in
    (shape, short, own_slug (generate_slug name) shape short)
