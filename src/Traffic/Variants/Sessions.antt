-- ===== src/Traffic/Variants/Sessions.antt =====
-- Requests against the variants of configurations, one after the other.
use model_registry_service.Base.{String, refl, List, [], ◌∷◌, ℤ}
use model_registry_service.Domain.Traffic.{Uuid}
use model_registry_service.Store.World.{Oracle, World}
use model_registry_service.Store.Hoare.{keeps}
use model_registry_service.Traffic.Variants.{
  AddVariantRequest, add_variant, update_variant, delete_variant,
}
use model_registry_service.Traffic.Variants.Sound.{IsSound}
use model_registry_service.Traffic.Variants.Keeps.{
  add_variant_lem, update_variant_lem, delete_variant_lem,
}

pub data Request : Type 0 where
  add : AddVariantRequest → Request
  update : Uuid → Uuid → String → ℤ → Request
  delete : Uuid → Uuid → String → Request

-- What a request leaves behind, whether it succeeded, failed or panicked.
unfoldable pub handle : Oracle → Request → World → World
handle E (Request.add req) w = (add_variant E req w).1
handle E (Request.update p id name weight) w = (update_variant E p id name weight w).1
handle E (Request.delete p id name) w = (delete_variant E p id name w).1

unfoldable pub serve : Oracle → List Request → World → World
unfolding handle
serve E [] w = w
serve E (r ∷ rs) w = serve E rs (handle E r w)

pub handle-IsSound :
    (E : Oracle) (r : Request) (w : World) → IsSound w.variants → IsSound (handle E r w).variants
unfolding handle
handle-IsSound E (Request.add req) w s = keeps (add_variant_lem E w.variants s req) w refl
handle-IsSound E (Request.update p id name weight) w s =
    keeps (update_variant_lem E w.variants s p id name weight) w refl
handle-IsSound E (Request.delete p id name) w s =
    keeps (delete_variant_lem E w.variants s p id name) w refl

-- From a table in which identifiers are unique, a variant that is not active has no weight and the
-- active variants of each configuration share at most 100 percent, any requests to add, reweigh
-- and delete variants, in any order, with any signed weights, whatever the database and the
-- cluster answer, lead to such a table again.
pub serve-IsSound :
    (E : Oracle) (rs : List Request) (w : World)
    → IsSound w.variants
    → IsSound (serve E rs w).variants
unfolding serve
serve-IsSound E [] w s = s
serve-IsSound E (r ∷ rs) w s = serve-IsSound E rs (handle E r w) (handle-IsSound E r w s)
