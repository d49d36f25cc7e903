-- ===== src/Store/Variants/Lookup.antt =====
-- Rows found by their identifier after a row was rewritten.
use model_registry_service.Base.{◌≡◌, ◌≢◌, refl, sym, ◌∙◌, ap, some, List, [], ◌∷◌, arith}
use model_registry_service.Domain.Traffic.{Uuid, Time, TrafficVariant}
use model_registry_service.Store.World.{Oracle, World, M}
use model_registry_service.Store.Hoare.{Hoare}
use model_registry_service.Store.Variants.{row_by_id, overwrite, update_rows}
use model_registry_service.Store.Variants.Writes.{VariantsAre, Updated}

pub row_by_id-update_rows_self :
    (now : Time) (v row : TrafficVariant) (rows : List TrafficVariant)
    → row_by_id v.id rows ≡ some row
    → row_by_id v.id (update_rows now v rows) ≡ some (overwrite now v row)
unfolding row_by_id update_rows
row_by_id-update_rows_self now v row [] h = cc
row_by_id-update_rows_self now v row (r ∷ rows) h =
    ground (arith, row_by_id-update_rows_self now v row rows)

pub row_by_id-update_rows_ne :
    (id : Uuid) (now : Time) (v : TrafficVariant) (rows : List TrafficVariant)
    → id ≢ v.id
    → row_by_id id (update_rows now v rows) ≡ row_by_id id rows
unfolding row_by_id update_rows
row_by_id-update_rows_ne id now v [] h = refl
row_by_id-update_rows_ne id now v (r ∷ rows) h =
    ground (arith, row_by_id-update_rows_ne id now v rows h)

-- To go on after an UPDATE from the table that it left.
pub Hoare-Updated :
    {B : Type 0} {E : Oracle} {m : M B} {R : B → World → Type 0} {F : World → Type 0}
    (v : TrafficVariant) (rows : List TrafficVariant)
    → ((now : Time) (row : TrafficVariant)
        → row_by_id v.id rows ≡ some row
        → Hoare (VariantsAre (update_rows now v rows)) m R F)
    → Hoare (Updated E v rows) m R F
Hoare-Updated v rows h = record { at = λ w d. (h d.now d.row d.found).at w d.table }

-- To go on from whatever table the precondition is about.
pub Hoare-from :
    {B : Type 0} (P : List TrafficVariant → Type 0) {m : M B} {R : B → World → Type 0}
    {F : World → Type 0}
    → ((rows : List TrafficVariant) → P rows → Hoare (VariantsAre rows) m R F)
    → Hoare (λ w. P w.variants) m R F
Hoare-from P h = record { at = λ w q. (h w.variants q).at w refl }

-- Two rows rewritten one after the other, and what became of every row.
pub two_updates :
    (t1 t2 : Time) (a b ra rb : TrafficVariant) (rows : List TrafficVariant)
    → a.id ≢ b.id
    → row_by_id a.id rows ≡ some ra
    → row_by_id b.id rows ≡ some rb
    → let rows' = update_rows t2 b (update_rows t1 a rows) in
      (row_by_id a.id rows' ≡ some (overwrite t1 a ra))
      × (row_by_id b.id rows' ≡ some (overwrite t2 b rb))
      × ((other : Uuid)
          → other ≢ a.id
          → other ≢ b.id
          → row_by_id other rows' ≡ row_by_id other rows)
two_updates t1 t2 a b ra rb rows ne ha hb = (
  row_by_id-update_rows_ne a.id t2 b (update_rows t1 a rows) ne
      ∙ row_by_id-update_rows_self t1 a ra rows ha,
  row_by_id-update_rows_self t2 b rb (update_rows t1 a rows)
      (row_by_id-update_rows_ne b.id t1 a rows (λ e. ne (sym e)) ∙ hb),
  λ other na nb.
      row_by_id-update_rows_ne other t2 b (update_rows t1 a rows) nb
      ∙ row_by_id-update_rows_ne other t1 a rows na,
)

pub row_at : (rows : List TrafficVariant) {a b : Uuid} → a ≡ b → row_by_id a rows ≡ row_by_id b rows
row_at rows e = ap (λ (i : Uuid). row_by_id i rows) e
