-- ===== src/Traffic/Variants/Idle.antt =====
-- Variants without weight, and what an UPDATE does to them.
use model_registry_service.Base.{
  ℕ, ◌≡◌, ◌≢◌, sym, ◌∙◌, true, false, List, [], ◌∷◌, ◌==◌, arith, All, Bool-cases, inl, inr,
}
use model_registry_service.Domain.Traffic.{Time, TrafficVariant}
use model_registry_service.Store.Variants.{overwrite, update_rows}

pub equal : (a b : ℕ) → (a == b) ≡ true → a ≡ b
equal a b h = ground arith

pub differ : (a b : ℕ) → (a == b) ≡ false → a ≢ b
differ a b h = ground arith

-- The rows under the identifier of `v` carry no weight.
abbrev pub IsIdle : TrafficVariant → List TrafficVariant → Type 0
IsIdle v = All (λ r. r.id ≡ v.id → r.weight ≡ 0)

pub IsIdle-rewritten :
    (now : Time) (x v : TrafficVariant) (rows : List TrafficVariant)
    → x.id ≡ v.id
    → x.weight ≡ 0
    → IsIdle v (update_rows now x rows)
unfolding update_rows overwrite
IsIdle-rewritten now x v [] same h = tt
IsIdle-rewritten now x v (r ∷ rows) same h = elim (Bool-cases (r.id == x.id)) [
  | inl e ↦ rw e (λ _. h, IsIdle-rewritten now x v rows same h)
  | inr e ↦
      rw e (λ k. absurd (differ r.id x.id e (k ∙ sym same)), IsIdle-rewritten now x v rows same h)
]

pub IsIdle-update_rows :
    (now : Time) (x v : TrafficVariant) (rows : List TrafficVariant)
    → x.weight ≡ 0
    → IsIdle v rows
    → IsIdle v (update_rows now x rows)
unfolding update_rows overwrite
IsIdle-update_rows now x v [] h k = tt
IsIdle-update_rows now x v (r ∷ rows) h k = elim (Bool-cases (r.id == x.id)) [
  | inl e ↦ rw e (λ _. h, IsIdle-update_rows now x v rows h k.1)
  | inr e ↦ rw e (k.0, IsIdle-update_rows now x v rows h k.1)
]

pub IsIdle-elsewhere :
    (now : Time) (x v : TrafficVariant) (rows : List TrafficVariant)
    → v.id ≢ x.id
    → IsIdle v rows
    → IsIdle v (update_rows now x rows)
unfolding update_rows overwrite
IsIdle-elsewhere now x v [] h k = tt
IsIdle-elsewhere now x v (r ∷ rows) h k = elim (Bool-cases (r.id == x.id)) [
  | inl e ↦ rw e (λ s. absurd (h (sym s ∙ equal r.id x.id e)), IsIdle-elsewhere now x v rows h k.1)
  | inr e ↦ rw e (k.0, IsIdle-elsewhere now x v rows h k.1)
]
