-- ===== src/Virtual/Tables/Order.antt =====
-- The query for the backends of a virtual model gives its rows, by priority.
use mathlib.Core.List.{Perm}
use mathlib.Core.List.Perm
use model_registry_service.Base.{
  ◌≡◌, Bool, true, false, List, [], ◌∷◌, ◌==◌, arith, keep, All, All-keep, All-imp, Bool-cases, inl,
  inr, ltb_ℤ,
}
use model_registry_service.Domain.Traffic.{Uuid}
use model_registry_service.Domain.Virtual.{VirtualModelBackend}
use model_registry_service.Virtual.Tables.{comes_first, insert_backend, by_priority, backends_of}

-- No later backend has a smaller priority.
abbrev pub NotBefore : VirtualModelBackend → VirtualModelBackend → Type 0
NotBefore b x = ltb_ℤ x.priority b.priority ≡ false

abbrev pub InOrder : List VirtualModelBackend → Type 0
InOrder [] = Unit
InOrder (b ∷ bs) = All (NotBefore b) bs × InOrder bs

first-NotBefore : (b x : VirtualModelBackend) → comes_first b x ≡ true → NotBefore b x
first-NotBefore b x h = ground arith

second-NotBefore : (b x : VirtualModelBackend) → comes_first b x ≡ false → NotBefore x b
second-NotBefore b x h = ground arith

NotBefore-trans : (a b c : VirtualModelBackend) → NotBefore a b → NotBefore b c → NotBefore a c
NotBefore-trans a b c h k = ground arith

insert_backend-perm :
    (b : VirtualModelBackend) (xs : List VirtualModelBackend) → Perm (insert_backend b xs) (b ∷ xs)
unfolding insert_backend
insert_backend-perm b [] = Perm.rfl
insert_backend-perm b (x ∷ xs) = elim (Bool-cases (comes_first b x)) [
  | inl e ↦ rw e Perm.rfl
  | inr e ↦ rw e (Perm.trans (Perm.cons x (insert_backend-perm b xs)) (Perm.swap b x xs))
]

insert_backend-All :
    (P : VirtualModelBackend → Type 0) (b : VirtualModelBackend) (xs : List VirtualModelBackend)
    → P b
    → All P xs
    → All P (insert_backend b xs)
unfolding insert_backend
insert_backend-All P b [] p h = (p, tt)
insert_backend-All P b (x ∷ xs) p h = elim (Bool-cases (comes_first b x)) [
  | inl e ↦ rw e (p, h)
  | inr e ↦ rw e (h.0, insert_backend-All P b xs p h.1)
]

insert_backend-InOrder :
    (b : VirtualModelBackend) (xs : List VirtualModelBackend)
    → InOrder xs
    → InOrder (insert_backend b xs)
unfolding insert_backend
insert_backend-InOrder b [] h = (tt, tt)
insert_backend-InOrder b (x ∷ xs) h = elim (Bool-cases (comes_first b x)) [
  | inl e ↦
      let first : NotBefore b x = first-NotBefore b x e in
      rw e
        ((first, All-imp (NotBefore x) (NotBefore b) (λ y. NotBefore-trans b x y first) xs h.0), h)
  | inr e ↦ rw e (
    insert_backend-All (NotBefore x) b xs (second-NotBefore b x e) h.0,
    insert_backend-InOrder b xs h.1,
  )
]

by_priority-perm : (bs : List VirtualModelBackend) → Perm (by_priority bs) bs
unfolding by_priority
by_priority-perm [] = Perm.rfl
by_priority-perm (b ∷ bs) =
    Perm.trans (insert_backend-perm b (by_priority bs)) (Perm.cons b (by_priority-perm bs))

by_priority-InOrder : (bs : List VirtualModelBackend) → InOrder (by_priority bs)
unfolding by_priority
by_priority-InOrder [] = tt
by_priority-InOrder (b ∷ bs) = insert_backend-InOrder b (by_priority bs) (by_priority-InOrder bs)

pub InOrder-keep :
    (p : VirtualModelBackend → Bool) (bs : List VirtualModelBackend)
    → InOrder bs
    → InOrder (keep p bs)
InOrder-keep p [] h = tt
InOrder-keep p (b ∷ bs) h = elim (Bool-cases (p b)) [
  | inl e ↦ rw e (All-keep (NotBefore b) p bs h.0, InOrder-keep p bs h.1)
  | inr e ↦ rw e (InOrder-keep p bs h.1)
]

pub backends_of-perm :
    (id : Uuid) (rows : List VirtualModelBackend)
    → Perm (backends_of id rows) (keep (λ b. b.virtual_model_id == id) rows)
unfolding backends_of
backends_of-perm id rows = by_priority-perm _

pub backends_of-InOrder :
    (id : Uuid) (rows : List VirtualModelBackend) → InOrder (backends_of id rows)
unfolding backends_of
backends_of-InOrder id rows = by_priority-InOrder (keep (λ b. b.virtual_model_id == id) rows)
