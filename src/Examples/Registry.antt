-- ===== src/Examples/Registry.antt =====
-- Requests on registered models, and the theorems about them on these tables.
use Prim.Native.String.{len}
use model_registry_service.Base.{◌≤◌, ◌≡◌, refl, false, none, some, ◌⊎◌, [], ◌∷◌}
use model_registry_service.Domain.Registry.{RegisteredModel, ModelState}
use model_registry_service.Store.World.{World}
use model_registry_service.Store.Hoare.{Post}
use model_registry_service.Store.Reliable.{Never}
use model_registry_service.Store.Serving.{model_row}
use model_registry_service.Store.Registry.{is_referenced}
use model_registry_service.Registry.Slug.{generate_slug}
use model_registry_service.Registry.Slug.Shape.{IsSlug, generate_slug-IsSlug}
use model_registry_service.Registry.Models.{delete_model}
use model_registry_service.Registry.Models.Steps.{Request, handle, IsStep, handle-IsStep}
use model_registry_service.Registry.Models.Deletion.{IsDeleted, delete_model-IsDeleted}
use model_registry_service.Examples.{obliging, model, world}

generate_slug-IsSlug_example :
    IsSlug (generate_slug "My Model_v2")
    × (len (generate_slug "My Model_v2") ≤ 60)
    × (generate_slug (generate_slug "My Model_v2") ≡ generate_slug "My Model_v2")
generate_slug-IsSlug_example = generate_slug-IsSlug "My Model_v2"

-- A new name for the model of the example, which is archived.
abbrev renaming : Request
renaming = Request.update 1 20 (record {
  name = some "n";
  description = none;
  model_type = none;
  model_size = none;
  state = some ModelState.archived;
  deployment_status = none;
})

handle-IsStep_example :
    Post
      (λ _ w'. IsStep renaming (world []).models w'.models)
      (λ w'. (w'.models ≡ (world []).models) ⊎ IsStep renaming (world []).models w'.models)
      (handle obliging renaming (world []))
handle-IsStep_example = handle-IsStep obliging renaming (world [])

abbrev retired : RegisteredModel
retired = record model { state = ModelState.archived }

-- An archived model with a ready version.
abbrev with_retired : World
with_retired = record (world []) { models = retired ∷ []; services = []; configs = [] }

retired_found : model_row 1 20 with_retired.models ≡ some retired
unfolding model_row
retired_found = refl

retired_free : is_referenced 20 with_retired ≡ false
unfolding is_referenced
retired_free = refl

delete_model-IsDeleted_example :
    Post (λ _. IsDeleted 1 20 with_retired) Never (delete_model obliging 1 20 with_retired)
delete_model-IsDeleted_example =
    delete_model-IsDeleted obliging 1 20 retired with_retired (λ k. refl) retired_found refl
      retired_free
