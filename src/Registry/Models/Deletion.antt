-- ===== src/Registry/Models/Deletion.antt =====
-- What RegisteredModelService.Delete removes.
use model_registry_service.Base.{
  ℕ, ◌≡◌, ◌≢◌, refl, true, false, not, ◌&&◌, Bool, Option, none, some, map, List, [], ◌∷◌, ◌==◌,
  keep, arith, All, Bool-cases, inl, inr,
}
use model_registry_service.Domain.Traffic.{Uuid}
use model_registry_service.Domain.Registry.{RegisteredModel, ModelVersion, ModelState}
use model_registry_service.Store.World.{Oracle, World}
use model_registry_service.Store.Silent.{SameTables-refl, At}
use model_registry_service.Store.Hoare.{Post, Hoare, Hoare-bind, Hoare-fact, Hoare-wrapping}
use model_registry_service.Store.Reliable.{Answers, Never, passes, finds, reads}
use model_registry_service.Store.Reliable.Calls.{reaches, model_get_by_id-found}
use model_registry_service.Store.Serving.{model_row}
use model_registry_service.Store.Registry.{is_referenced, orphaned, model_delete}
use model_registry_service.Registry.Models.{is_archived, delete_model}

-- The row without the model as its parent.
abbrev pub orphaned_row : Uuid → Option RegisteredModel → Option RegisteredModel
orphaned_row id none = none
orphaned_row id (some r) = some (orphaned id r)

-- Neither the model nor a version of it is left, and the other models are what they were, but that it
-- is no longer the parent of any.
pub record IsDeleted (p id : Uuid) (before after : World) : Type 0 where
  pub model : model_row p id after.models ≡ none
  pub versions : All (λ v. v.registered_model_id ≢ id) after.versions
  pub others :
      (q other : Uuid)
      → other ≢ id
      → model_row q other after.models ≡ orphaned_row id (model_row q other before.models)
  pub untouched :
      (after.configs ≡ before.configs)
      × (after.variants ≡ before.variants)
      × (after.environments ≡ before.environments)
      × (after.services ≡ before.services)
      × (after.serve_models ≡ before.serve_models)
  pub kept : after.versions ≡ keep (λ v. not (v.registered_model_id == id)) before.versions

unfoldable pub others_of : Uuid → Uuid → List RegisteredModel → List RegisteredModel
others_of p id rows = map (orphaned id) (keep (λ m. not (m.id == id && m.project_id == p)) rows)

pub model_row-gone :
    (p id : Uuid) (rows : List RegisteredModel) → model_row p id (others_of p id rows) ≡ none
unfolding model_row others_of
model_row-gone p id [] = refl
model_row-gone p id (r ∷ rows) = elim (Bool-cases (r.id == id && r.project_id == p)) [
  | inl e ↦ rw e (model_row-gone p id rows)
  | inr e ↦ rw e (rw e (model_row-gone p id rows))
]

elsewhere : (a b c : ℕ) (x y : Bool) → (a == b && x) ≡ true → c ≢ b → (a == c && y) ≡ false
elsewhere a b c x y h ne = ground arith

pub model_row-others :
    (p id q other : Uuid) (rows : List RegisteredModel)
    → other ≢ id
    → model_row q other (others_of p id rows) ≡ orphaned_row id (model_row q other rows)
unfolding model_row others_of
model_row-others p id q other [] h = refl
model_row-others p id q other (r ∷ rows) h = elim (Bool-cases (r.id == id && r.project_id == p)) [
  | inl e ↦
      rw (e, elsewhere r.id id other (r.project_id == p) (r.project_id == q) e h)
        (model_row-others p id q other rows h)
  | inr e ↦ elim (Bool-cases (r.id == other && r.project_id == q)) [
    | inl k ↦ rw (e, k) refl
    | inr k ↦ rw (e, k) (model_row-others p id q other rows h)
  ]
]

differ : (a b : ℕ) → (a == b) ≡ false → a ≢ b
differ a b h = ground arith

versions_gone :
    (id : Uuid) (rows : List ModelVersion)
    → All (λ v. v.registered_model_id ≢ id) (keep (λ v. not (v.registered_model_id == id)) rows)
versions_gone id [] = tt
versions_gone id (v ∷ vs) = elim (Bool-cases (v.registered_model_id == id)) [
  | inl e ↦ rw e (versions_gone id vs)
  | inr e ↦ rw e (differ v.registered_model_id id e, versions_gone id vs)
]

is_referenced-SameTables :
    (id : Uuid) (t w : World) → At t w → is_referenced id w ≡ is_referenced id t
unfolding is_referenced
is_referenced-SameTables id t w s = cc (s.services, s.versions, s.serve_models, s.variants)

archived_passes : (s s' : ModelState) → s ≡ s' → is_archived s' ≡ true → not (is_archived s) ≡ false
archived_passes s s' e a = cc

module _ (E : Oracle) (up : Answers E) (t : World) where
  delete_model_lem :
      (p id : Uuid) (m : RegisteredModel)
      → model_row p id t.models ≡ some m
      → is_archived m.state ≡ true
      → is_referenced id t ≡ false
      → Hoare (At t) (delete_model E p id) (λ _. IsDeleted p id t) Never
  unfolding delete_model model_delete others_of
  delete_model_lem p id m found archived free =
      Hoare-bind (model_get_by_id-found E up t p id m found) λ r. Hoare-fact λ state.
        Hoare-bind
          (passes (not (is_archived r.state)) _ (archived_passes r.state m.state state archived))
          λ _. Hoare-bind (reaches E up t _) λ _.
            reads _ _ t.models (λ w s. s.models)
              (finds _ _ _ m found (
                reads _ _ (is_referenced id t) (λ w s. is_referenced-SameTables id t w s)
                  (Hoare-bind (Hoare-wrapping _ (passes (is_referenced id t) _ free)) λ _.
                    reads _ _ t.versions (λ w s. s.versions)
                      (record {
                        at = λ w s. record {
                          model = model_row-gone p id t.models;
                          versions = versions_gone id t.versions;
                          others = λ q other ne. model_row-others p id q other t.models ne;
                          untouched =
                              (s.configs, s.variants, s.environments, s.services, s.serve_models);
                          kept = refl;
                        };
                      }))))

-- If the database answers, Delete of an archived model that no service, serve model or variant refers to
-- succeeds, whatever the status of its versions: neither the model nor any version of it is left,
-- ready ones included, and every other row of the modelled tables is what it was, except that
-- a model whose parent it was has none now.
pub delete_model-IsDeleted :
    (E : Oracle) (p id : Uuid) (m : RegisteredModel) (w : World)
    → Answers E
    → model_row p id w.models ≡ some m
    → is_archived m.state ≡ true
    → is_referenced id w ≡ false
    → Post (λ _. IsDeleted p id w) Never (delete_model E p id w)
delete_model-IsDeleted E p id m w up found archived free =
    (delete_model_lem E up w p id m found archived free).at w (SameTables-refl w)
