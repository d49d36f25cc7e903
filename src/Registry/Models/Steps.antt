-- ===== src/Registry/Models/Steps.antt =====
-- What a request on registered models does to their table, on every branch.
use model_registry_service.Base.{◌≡◌, refl, sym, ◌∙◌, ap, subst, not, List, str_eq, ◌⊎◌, inl, inr}
use model_registry_service.Domain.Result.{Result, ok, err, panic}
use model_registry_service.Domain.Traffic.{Uuid}
use model_registry_service.Domain.Serving.{or_else}
use model_registry_service.Domain.Registry.{RegisteredModel}
use model_registry_service.Store.World.{Oracle, World, M}
use model_registry_service.Store.Silent.{
  Silent, Silent-gets, Silent-raise_if, Silent-reach_database, Silent-time_now, Silent-new_uuid,
}
use model_registry_service.Store.Reads.{Silent-model_get_by_id}
use model_registry_service.Store.Hoare.{
  Hoare, Hoare-bind, Hoare-fact, Hoare-pure, Hoare-silent, Hoare-raise_if, Hoare-or_raise,
  Hoare-wrapping, Post,
}
use model_registry_service.Store.Reliable.{reads}
use model_registry_service.Store.Serving.{model_row, model_get_by_id, load_version_meta}
use model_registry_service.Store.Registry.{
  model_overwrite, model_create, model_update, model_delete,
}
use model_registry_service.Registry.Models.{
  ModelRequest, ModelChanges, is_archived, new_model, change_model, create_model, update_model,
  delete_model,
}
use model_registry_service.Registry.Models.Deletion.{others_of, model_row-gone, model_row-others}
use model_registry_service.Registry.Models.Changes.{
  IsCreated, IsChanged, IsRemoved, IsFrom, is_archived-of, row_id, update-found, update-others,
}

pub data Request : Type 0 where
  create : ModelRequest → Request
  update : Uuid → Uuid → ModelChanges → Request
  delete : Uuid → Uuid → Request

-- A call without the value that it returns.
abbrev done : {A : Type 0} → Result A × World → Result (Unit {0}) × World
done (ok a, w) = (ok tt, w)
done (err e, w) = (err e, w)
done (panic, w) = (panic, w)

-- Whether a request succeeded, and what it leaves behind.
unfoldable pub handle : Oracle → Request → World → Result (Unit {0}) × World
handle E (Request.create req) w = done (create_model E req w)
handle E (Request.update p id changes) w = done (update_model E p id changes w)
handle E (Request.delete p id) w = done (delete_model E p id w)

abbrev pub IsStep : Request → List RegisteredModel → List RegisteredModel → Type 0
IsStep (Request.create req) rows rows' = IsCreated req rows rows'
IsStep (Request.update p id c) rows rows' = IsChanged p id c rows rows'
IsStep (Request.delete p id) rows rows' = IsRemoved p id rows rows'

module _ (E : Oracle) (r : Request) (rows : List RegisteredModel) where
  abbrev Same : World → Type 0
  Same w = w.models ≡ rows

  abbrev Stepped : World → Type 0
  Stepped w = (w.models ≡ rows) ⊎ IsStep r rows w.models

  abbrev Step : World → Type 0
  Step w = IsStep r rows w.models

  weak : (w : World) → Same w → Stepped w
  weak w h = inl h

  looking : {A : Type 0} {m : M A} → Silent m → Hoare Same m (λ _. Same) Stepped
  looking = Hoare-silent (record { at = λ s p. s.models ∙ p }) weak

  -- What follows a write.
  ending : {A : Type 0} {m : M A} → Silent m → Hoare Step m (λ _. Step) Stepped
  ending =
      Hoare-silent (record { at = λ s h. subst (IsStep r rows) (sym s.models) h }) (λ w h. inr h)

  get_lem :
      (p id : Uuid)
      → Hoare Same (model_get_by_id E p id) (λ m w. Same w × IsFrom p id rows m) Stepped
  unfolding model_get_by_id load_version_meta
  get_lem p id = Hoare-bind (Hoare-wrapping _ (looking (Silent-reach_database E))) λ _.
      reads _ _ rows (λ w s. s)
        (Hoare-or_raise weak _ (model_row p id rows) λ row found.
          Hoare-bind (looking (Silent-gets _)) λ versions.
            Hoare-bind (Hoare-wrapping _ (looking (Silent-reach_database E))) λ _.
              Hoare-bind (looking (Silent-gets _)) λ latest.
                Hoare-bind (Hoare-wrapping _ (looking (Silent-reach_database E))) λ _.
                  Hoare-pure _ (λ w s. (
                    s,
                    record {
                      row = row;
                      found = found;
                      same_id = row_id p id rows row found;
                      name = refl;
                      description = refl;
                      model_type = refl;
                      model_size = refl;
                      state = refl;
                      deployment = refl;
                    },
                  )))

module _ (E : Oracle) (rows : List RegisteredModel) where
  create_lem :
      (req : ModelRequest)
      → Hoare
          (Same E (Request.create req) rows)
          (create_model E req)
          (λ _. Step E (Request.create req) rows)
          (Stepped E (Request.create req) rows)
  unfolding create_model model_create new_model
  create_lem req =
      let r : Request = Request.create req in
      Hoare-raise_if (weak E r rows) (str_eq req.name "") _ λ named.
        Hoare-bind (looking E r rows (Silent-time_now E)) λ now.
          Hoare-bind (looking E r rows (Silent-new_uuid E)) λ id.
            Hoare-bind
              (Hoare-bind (Hoare-wrapping _ (looking E r rows (Silent-reach_database E))) λ _.
                reads _ _ rows (λ w s. s)
                  (Hoare-bind (looking E r rows (Silent-raise_if _ _)) λ _.
                    Hoare-bind (Hoare-wrapping _ (looking E r rows (Silent-raise_if _ _))) λ _.
                      record {
                        at = λ w s. (record {
                          row = new_model id now req;
                          table = refl;
                          named = named;
                          name = refl;
                          slug = refl;
                          project = refl;
                          state = refl;
                          parent = refl;
                        });
                      }))
              λ _. ending E r rows (Silent-model_get_by_id E req.project_id id)

  update_lem :
      (p id : Uuid) (c : ModelChanges)
      → Hoare
          (Same E (Request.update p id c) rows)
          (update_model E p id c)
          (λ _. Step E (Request.update p id c) rows)
          (Stepped E (Request.update p id c) rows)
  unfolding update_model model_update change_model model_overwrite
  update_lem p id c =
      let r : Request = Request.update p id c in
      Hoare-bind (get_lem E r rows p id) λ m. Hoare-fact λ from.
        let m' : RegisteredModel = change_model c m in
        Hoare-bind
          (Hoare-bind (Hoare-wrapping _ (looking E r rows (Silent-reach_database E))) λ _.
            reads _ _ rows (λ w s. s)
              (Hoare-or_raise (weak E r rows) _ (model_row p m'.id rows) λ row _.
                Hoare-bind (looking E r rows (Silent-raise_if _ _)) λ _.
                  Hoare-bind (looking E r rows (Silent-time_now E)) λ now. record {
                    at = λ w s. (record {
                      before = from.row;
                      after = model_overwrite now m' from.row;
                      found = from.found;
                      found_after = update-found now p id m' rows from.row from.same_id from.found;
                      slug = refl;
                      name = ap (or_else c.name) from.name;
                      description = ap (or_else c.description) from.description;
                      model_type = ap (or_else c.model_type) from.model_type;
                      model_size = ap (or_else c.model_size) from.model_size;
                      state = ap (or_else c.state) from.state;
                      deployment = ap (or_else c.deployment_status) from.deployment;
                      others = update-others now p id m' rows from.same_id;
                    });
                  }))
          λ _. ending E r rows (Silent-model_get_by_id E p id)

  delete_lem :
      (p id : Uuid)
      → Hoare
          (Same E (Request.delete p id) rows)
          (delete_model E p id)
          (λ _. Step E (Request.delete p id) rows)
          (Stepped E (Request.delete p id) rows)
  unfolding delete_model model_delete others_of
  delete_lem p id =
      let r : Request = Request.delete p id in
      Hoare-bind (get_lem E r rows p id) λ m. Hoare-fact λ from.
        Hoare-raise_if (weak E r rows) (not (is_archived m.state)) _ λ archived.
          Hoare-bind (Hoare-wrapping _ (looking E r rows (Silent-reach_database E))) λ _.
            reads _ _ rows (λ w s. s)
              (Hoare-or_raise (weak E r rows) _ (model_row p id rows) λ row _.
                Hoare-bind (looking E r rows (Silent-gets _)) λ referenced.
                  Hoare-bind (Hoare-wrapping _ (looking E r rows (Silent-raise_if _ _))) λ _.
                    Hoare-bind (looking E r rows (Silent-gets _)) λ versions. record {
                      at = λ w s. (record {
                        row = from.row;
                        found = from.found;
                        archived = is_archived-of m.state from.row.state from.state archived;
                        gone = model_row-gone p id rows;
                        others = λ q other ne. model_row-others p id q other rows ne;
                      });
                    })

done-Post :
    {A : Type 0} (Q F : World → Type 0) (x : Result A × World)
    → Post (λ _. Q) F x
    → Post (λ _. Q) F (done x)
done-Post Q F (ok a, w) h = h
done-Post Q F (err e, w) h = h
done-Post Q F (panic, w) h = h

-- A request to create, change or delete a model that succeeds takes one step in the table of models:
-- Create adds one live model, with the name asked for, which is not empty, and the slug that
-- generateSlug makes of it; Update gives the model that the identifier and the project name the
-- values of the request, or leaves its own, and never changes its slug; Delete removes such a model
-- only if it was archived. No other row changes in the last two, except that a removed model is no
-- longer the parent of any. A request that fails has taken that
-- step or left the table as it was.
pub handle-IsStep :
    (E : Oracle) (r : Request) (w : World)
    → Post
        (λ _ w'. IsStep r w.models w'.models)
        (λ w'. (w'.models ≡ w.models) ⊎ IsStep r w.models w'.models)
        (handle E r w)
unfolding handle
handle-IsStep E (Request.create req) w =
    done-Post _ _ (create_model E req w) ((create_lem E w.models req).at w refl)
handle-IsStep E (Request.update p id c) w =
    done-Post _ _ (update_model E p id c w) ((update_lem E w.models p id c).at w refl)
handle-IsStep E (Request.delete p id) w =
    done-Post _ _ (delete_model E p id w) ((delete_lem E w.models p id).at w refl)
