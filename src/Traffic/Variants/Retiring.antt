-- ===== src/Traffic/Variants/Retiring.antt =====
-- The loop of PromoteVariant over a database that answers: it retires every other variant, and
-- leaves the names, the promoted variant and the stable one as they were.
use model_registry_service.Base.{
  ℕ, ◌≡◌, ◌≢◌, refl, sym, ◌∙◌, ap, Bool, true, false, not, ◌&&◌, some, List, [], ◌∷◌, ◌==◌, arith,
  if◌then◌else◌, All, Bool-cases, inl, inr, ◌<>◌, decimal,
}
use model_registry_service.Domain.Traffic.{Time, TrafficVariant, deactivate}
use model_registry_service.Store.World.{Oracle, World, ignore, pure}
use model_registry_service.Store.Silent.{At}
use model_registry_service.Store.Hoare.{Hoare, Hoare-bind, Hoare-pure, Hoare-fact}
use model_registry_service.Store.Reliable.{Answers, Never, attempts, from_some}
use model_registry_service.Store.Reliable.Calls.{clock, variant_update-Fits}
use model_registry_service.Store.Variants.{row_by_id, clashes, lacks_text, overwrite, update_rows}
use model_registry_service.Store.Variants.Rows.{Has}
use model_registry_service.Store.Variants.Writes.{Fits}
use model_registry_service.Store.Variants.Lookup.{
  row_by_id-update_rows_self, row_by_id-update_rows_ne,
}
use model_registry_service.Traffic.Canary.Success.{clashes-update_rows}
use model_registry_service.Traffic.Variants.Idle.{
  equal, differ, IsIdle, IsIdle-rewritten, IsIdle-update_rows,
}
use model_registry_service.Traffic.Variants.{retire, retire_others}

-- The rows under the identifier of `v` have its name.
abbrev pub IsNamed : TrafficVariant → List TrafficVariant → Type 0
IsNamed v = All (λ r. r.id ≡ v.id → r.variant_name ≡ v.variant_name)

IsNamed-update_rows :
    (now : Time) (x y v : TrafficVariant) (rows : List TrafficVariant)
    → x.id ≡ y.id
    → x.variant_name ≡ y.variant_name
    → IsNamed y rows
    → IsNamed v rows
    → IsNamed v (update_rows now x rows)
unfolding update_rows overwrite
IsNamed-update_rows now x y v [] i n h k = tt
IsNamed-update_rows now x y v (r ∷ rows) i n h k = elim (Bool-cases (r.id == x.id)) [
  | inl e ↦ rw e (
    λ same. n ∙ sym (h.0 (equal r.id x.id e ∙ i)) ∙ k.0 same,
    IsNamed-update_rows now x y v rows i n h.1 k.1,
  )
  | inr e ↦ rw e (k.0, IsNamed-update_rows now x y v rows i n h.1 k.1)
]

IsNamed-same :
    (x y : TrafficVariant) (rows : List TrafficVariant)
    → x.id ≡ y.id
    → x.variant_name ≡ y.variant_name
    → IsNamed y rows
    → IsNamed x rows
IsNamed-same x y [] i n h = tt
IsNamed-same x y (r ∷ rows) i n h = (λ e. h.0 (e ∙ i) ∙ sym n, IsNamed-same x y rows i n h.1)

-- A row under the identifier of `v`, of the same configuration.
abbrev pub IsFound : TrafficVariant → List TrafficVariant → Type 0
IsFound v rows =
    (row : TrafficVariant) × (row_by_id v.id rows ≡ some row)
    × (row.traffic_config_id ≡ v.traffic_config_id)

IsFound-after :
    (now : Time) (x v : TrafficVariant) (rows : List TrafficVariant)
    → IsFound v rows
    → IsFound v (update_rows now x rows)
unfolding overwrite
IsFound-after now x v rows (row, h, c) = elim (Bool-cases (v.id == x.id)) [
  | inl e ↦
      let same : v.id ≡ x.id = equal v.id x.id e in
      (
        overwrite now x row,
        ap (λ i. row_by_id i (update_rows now x rows)) same
            ∙ row_by_id-update_rows_self now x row rows (ap (λ i. row_by_id i rows) (sym same) ∙ h),
        c,
      )
  | inr e ↦ (row, row_by_id-update_rows_ne v.id now x rows (differ v.id x.id e) ∙ h, c)
]

module _ (E : Oracle) (before : List TrafficVariant) (variant stable : TrafficVariant) where
  -- What the loop keeps of the table, which was `before`.
  pub record Ready (rows : List TrafficVariant) : Type 0 where
    pub named : (v : TrafficVariant) → Has v before → IsNamed v rows
    pub fresh :
        (v : TrafficVariant)
        → Has v before
        → clashes v.id v.traffic_config_id v.variant_name rows ≡ false
    pub found : (v : TrafficVariant) → Has v before → IsFound v rows
    pub variant_row : row_by_id variant.id rows ≡ some variant
    pub stable_row : row_by_id stable.id rows ≡ some stable
    pub free :
        (n : ℕ)
        → clashes stable.id stable.traffic_config_id ("old-stable-" <> decimal n) rows ≡ false

  -- A row that is rewritten under its name, neither of the two.
  rewritten :
      (now : Time) (x y : TrafficVariant) (rows : List TrafficVariant)
      → x.id ≡ y.id
      → x.variant_name ≡ y.variant_name
      → Has y before
      → variant.id ≢ x.id
      → stable.id ≢ x.id
      → Ready rows
      → Ready (update_rows now x rows)
  rewritten now x y rows i n has nv ns r =
      let own : IsNamed x rows = IsNamed-same x y rows i n (r.named y has) in
      record {
        named = λ v h. IsNamed-update_rows now x y v rows i n (r.named y has) (r.named v h);
        fresh = λ v h.
            clashes-update_rows v.id v.traffic_config_id v.variant_name now x rows own
            ∙ r.fresh v h;
        found = λ v h. IsFound-after now x v rows (r.found v h);
        variant_row = row_by_id-update_rows_ne variant.id now x rows nv ∙ r.variant_row;
        stable_row = row_by_id-update_rows_ne stable.id now x rows ns ∙ r.stable_row;
        free =
            λ m. clashes-update_rows stable.id stable.traffic_config_id _ now x rows own ∙ r.free m;
      }

apart : (a b c : ℕ) → (not (a == b) && not (a == c)) ≡ true → (b ≢ a) × (c ≢ a)
apart a b c h = ground arith

met : (a b c : ℕ) → (not (a == b) && not (a == c)) ≡ false → a ≢ b → a ≢ c → ⊥
met a b c h k l = ground arith

module _ (E : Oracle) (up : Answers E) (t : World) (variant stable : TrafficVariant)
    (texts : (v : TrafficVariant) → Has v t.variants → lacks_text v ≡ false) where
  -- The table is as Ready says, and `P` holds of its rows.
  abbrev pub InLoop : (List TrafficVariant → Type 0) → World → Type 0
  InLoop P w =
      (rows : List TrafficVariant) × (At (record t { variants = rows }) w
        × (Ready E t.variants variant stable rows × P rows))

  retired-Fits :
      (now : Time) (v row : TrafficVariant) (rows : List TrafficVariant)
      → Has v t.variants
      → row.traffic_config_id ≡ v.traffic_config_id
      → Ready E t.variants variant stable rows
      → Fits E row.traffic_config_id (deactivate now v) rows
  unfolding deactivate
  retired-Fits now v row rows has c r = record {
    texts = texts v has;
    weight = refl;
    name = ap (λ i. clashes v.id i v.variant_name rows) c ∙ r.fresh v has;
  }

  retire-InLoop :
      (P Q : List TrafficVariant → Type 0) (v : TrafficVariant)
      → ((at now : Time) (rows : List TrafficVariant)
          → P rows
          → Q (update_rows at (deactivate now v) rows))
      → Has v t.variants
      → variant.id ≢ v.id
      → stable.id ≢ v.id
      → Hoare (InLoop P) (retire E v) (λ _. InLoop Q) Never
  unfolding retire deactivate ignore
  retire-InLoop P Q v leads has nv ns = from_some _ λ rows. Hoare-fact λ (r, holds).
      let (row, found, config) = r.found v has in
      Hoare-bind (clock E up (record t { variants = rows })) λ now.
        Hoare-bind
          (attempts (
            variant_update-Fits E up (record t { variants = rows }) (deactivate now v) row found
              (retired-Fits now v row rows has config r)))
          λ o. Hoare-pure _ (λ w (a, e, (t1, s)). (
            update_rows t1 (deactivate now v) rows,
            (
              s,
              (
                rewritten E t.variants variant stable t1 (deactivate now v) v rows refl refl has nv
                    ns r,
                leads t1 now rows holds,
              ),
            ),
          ))

  -- The body of the loop.
  step-InLoop :
      (P Q : List TrafficVariant → Type 0) (v : TrafficVariant)
      → ((at now : Time) (rows : List TrafficVariant)
          → P rows
          → Q (update_rows at (deactivate now v) rows))
      → Has v t.variants
      → (b : Bool) → (not (v.id == variant.id) && not (v.id == stable.id)) ≡ b
      → (b ≡ false → (rows : List TrafficVariant) → P rows → Q rows)
      → Hoare (InLoop P) (if b then retire E v else pure tt) (λ _. InLoop Q) Never
  step-InLoop P Q v leads has true e skips =
      let (nv, ns) = apart v.id variant.id stable.id e in retire-InLoop P Q v leads has nv ns
  step-InLoop P Q v leads has false e skips =
      Hoare-pure tt (λ w (rows, s). (rows, (s.0, (s.1.0, skips refl rows s.1.1))))

  -- What every retirement keeps, the loop keeps.
  pub retire_others-InLoop :
      (P : List TrafficVariant → Type 0)
      → ((v : TrafficVariant) (at now : Time) (rows : List TrafficVariant)
          → P rows
          → P (update_rows at (deactivate now v) rows))
      → (vs : List TrafficVariant) → ((v : TrafficVariant) → Has v vs → Has v t.variants)
      → Hoare (InLoop P) (retire_others E variant stable vs) (λ _. InLoop P) Never
  unfolding retire_others
  retire_others-InLoop P keeps [] h = Hoare-pure tt (λ w s. s)
  retire_others-InLoop P keeps (v ∷ vs) h =
      Hoare-bind (step-InLoop P P v (keeps v) (h v (inl refl)) _ refl (λ _ rows k. k))
        λ _. retire_others-InLoop P keeps vs (λ x m. h x (inr m))

  -- The loop leaves each variant in its list, but the two, without weight.
  pub retire_others-IsIdle :
      (x : TrafficVariant) (vs : List TrafficVariant)
      → Has x vs
      → x.id ≢ variant.id
      → x.id ≢ stable.id
      → ((v : TrafficVariant) → Has v vs → Has v t.variants)
      → Hoare
          (InLoop (λ _. Unit))
          (retire_others E variant stable vs)
          (λ _. InLoop (IsIdle x))
          Never
  unfolding retire_others deactivate
  retire_others-IsIdle x [] has nv ns h = absurd has
  retire_others-IsIdle x (v ∷ vs) (inl same) nv ns h =
      let ids : v.id ≡ x.id = ap (λ (y : TrafficVariant). y.id) same in
      Hoare-bind
        (step-InLoop (λ _. Unit) (IsIdle x) v
          (λ at now rows _. IsIdle-rewritten at (deactivate now v) x rows ids refl) (h v (inl refl))
          _ refl
          (λ e rows _.
            absurd
              (met v.id variant.id stable.id e (λ k. nv (sym ids ∙ k)) (λ k. ns (sym ids ∙ k)))))
        λ _.
          retire_others-InLoop (IsIdle x)
            (λ y at now rows k. IsIdle-update_rows at (deactivate now y) x rows refl k) vs
            (λ y m. h y (inr m))
  retire_others-IsIdle x (v ∷ vs) (inr m) nv ns h =
      Hoare-bind
        (step-InLoop (λ _. Unit) (λ _. Unit) v (λ _ _ _ _. tt) (h v (inl refl)) _ refl
          (λ _ _ _. tt))
        λ _. retire_others-IsIdle x vs m nv ns (λ y k. h y (inr k))
