-- ===== src/Registry/Models/Changes.antt =====
-- What Create, Update and Delete may do to the table of models.
use model_registry_service.Base.{
  ◌≡◌, ◌≢◌, refl, sym, ◌∙◌, ap, true, false, not, ◌&&◌, Option, none, some, List, [], ◌∷◌, ◌++◌,
  ◌==◌, str_eq, arith, inl, inr, Bool-cases,
}
use model_registry_service.Domain.Traffic.{Uuid, Time}
use model_registry_service.Domain.Serving.{or_else}
use model_registry_service.Domain.Registry.{RegisteredModel, ModelState}
use model_registry_service.Store.Serving.{model_row}
use model_registry_service.Store.Registry.{model_overwrite, update_models}
use model_registry_service.Registry.Slug.{generate_slug}
use model_registry_service.Registry.Models.Deletion.{orphaned_row}
use model_registry_service.Registry.Models.{ModelRequest, ModelChanges, is_archived}

-- The other rows are as they were.
abbrev pub SameOthers : Uuid → List RegisteredModel → List RegisteredModel → Type 0
SameOthers id rows rows' =
    (q other : Uuid) → other ≢ id → model_row q other rows' ≡ model_row q other rows

-- One live row more, with the name asked for and the slug that is made of it.
pub record IsCreated (req : ModelRequest) (rows rows' : List RegisteredModel) : Type 0 where
  pub row : RegisteredModel
  pub table : rows' ≡ rows ++ row ∷ []
  pub named : str_eq row.name "" ≡ false
  pub name : row.name ≡ req.name
  pub slug : row.slug ≡ generate_slug req.name
  pub project : row.project_id ≡ req.project_id
  pub state : row.state ≡ ModelState.live
  pub parent : row.parent_model_id ≡ req.parent_model_id

-- The row has the values of the map, and keeps its own where there is none; its slug stays.
pub record IsChanged (p id : Uuid) (c : ModelChanges) (rows rows' : List RegisteredModel)
    : Type 0 where
  pub before : RegisteredModel
  pub after : RegisteredModel
  pub found : model_row p id rows ≡ some before
  pub found_after : model_row p id rows' ≡ some after
  pub slug : after.slug ≡ before.slug
  pub name : after.name ≡ or_else c.name before.name
  pub description : after.description ≡ or_else c.description before.description
  pub model_type : after.model_type ≡ or_else c.model_type before.model_type
  pub model_size : after.model_size ≡ or_else c.model_size before.model_size
  pub state : after.state ≡ or_else c.state before.state
  pub deployment : after.deployment_status ≡ or_else c.deployment_status before.deployment_status
  pub others : SameOthers id rows rows'

-- The row was archived, and is gone.
pub record IsRemoved (p id : Uuid) (rows rows' : List RegisteredModel) : Type 0 where
  pub row : RegisteredModel
  pub found : model_row p id rows ≡ some row
  pub archived : is_archived row.state ≡ true
  pub gone : model_row p id rows' ≡ none
  pub others :
      (q other : Uuid)
      → other ≢ id
      → model_row q other rows' ≡ orphaned_row id (model_row q other rows)

-- The model that GetByID makes of a row.
pub record IsFrom (p id : Uuid) (rows : List RegisteredModel) (m : RegisteredModel) : Type 0 where
  pub row : RegisteredModel
  pub found : model_row p id rows ≡ some row
  pub same_id : m.id ≡ id
  pub name : m.name ≡ row.name
  pub description : m.description ≡ row.description
  pub model_type : m.model_type ≡ row.model_type
  pub model_size : m.model_size ≡ row.model_size
  pub state : m.state ≡ row.state
  pub deployment : m.deployment_status ≡ row.deployment_status

pub is_archived-of :
    (s s' : ModelState) → s ≡ s' → not (is_archived s) ≡ false → is_archived s' ≡ true
is_archived-of s s' e h = elim (Bool-cases (is_archived s)) [
  | inl k ↦ ap is_archived (sym e) ∙ k
  | inr k ↦ cc
]

pub row_id :
    (p id : Uuid) (rows : List RegisteredModel) (r : RegisteredModel)
    → model_row p id rows ≡ some r
    → r.id ≡ id
unfolding model_row
row_id p id [] r h = cc
row_id p id (x ∷ rows) r h = ground (arith, row_id p id rows r)

pub update-found :
    (now : Time) (p id : Uuid) (m : RegisteredModel) (rows : List RegisteredModel)
    (r : RegisteredModel)
    → m.id ≡ id
    → model_row p id rows ≡ some r
    → model_row p id (update_models now p m rows) ≡ some (model_overwrite now m r)
unfolding model_row update_models model_overwrite
update-found now p id m [] r same h = cc
update-found now p id m (x ∷ rows) r same h = elim (Bool-cases (x.id == id && x.project_id == p)) [
  | inl e ↦ let x_is_r : some x ≡ some r = rw e at h in rw (same, e) (rw e (ap over x_is_r))
  | inr e ↦ rw (same, e) (rw e (update-found now p id m rows r same (rw e at h)))
]
  where
    over : Option RegisteredModel → Option RegisteredModel
    over none = none
    over (some y) = some (model_overwrite now m y)

pub update-others :
    (now : Time) (p id : Uuid) (m : RegisteredModel) (rows : List RegisteredModel)
    → m.id ≡ id
    → SameOthers id rows (update_models now p m rows)
unfolding model_row update_models model_overwrite
update-others now p id m [] same q other ne = refl
update-others now p id m (x ∷ rows) same q other ne =
    ground (arith, update-others now p id m rows same q other ne)
