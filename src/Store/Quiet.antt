-- ===== src/Store/Quiet.antt =====
-- Calls that neither write a table nor talk to the cluster.
use model_registry_service.Base.{String, ◌≡◌, refl, ◌∙◌, Bool, Option, none, some}
use model_registry_service.Domain.Result.{Error, Result, ok, err, panic}
use model_registry_service.Domain.Traffic.{Uuid}
use model_registry_service.Store.World.{
  World, Oracle, M, pure, gets, or_raise, raise_if, continue, ◌>>=◌, attempt, wrapping, tick,
  reach_database,
}
use model_registry_service.Store.Serving.{env_get_by_id, isvc_get_by_id}

-- The variants and the log of calls are the same.
pub record SameView (w' w : World) : Type 0 where
  pub calls : w'.calls ≡ w.calls
  pub variants : w'.variants ≡ w.variants

pub SameView-refl : (w : World) → SameView w w
SameView-refl w = record { calls = refl; variants = refl }

pub SameView-trans : {a b c : World} → SameView a b → SameView b c → SameView a c
SameView-trans p q = record { calls = p.calls ∙ q.calls; variants = p.variants ∙ q.variants }

pub record Quiet {A : Type 0} (m : M A) : Type 0 where
  pub at : (w : World) → SameView (m w).1 w

module _ {A : Type 0} where
  Quiet-pure : (a : A) → Quiet (pure a)
  Quiet-pure a = record { at = SameView-refl }

  Quiet-gets : (f : World → A) → Quiet (gets f)
  Quiet-gets f = record { at = SameView-refl }

  Quiet-or_raise : (e : Error) (o : Option A) → Quiet (or_raise e o)
  Quiet-or_raise e none = record { at = SameView-refl }
  Quiet-or_raise e (some a) = record { at = SameView-refl }

  pub Quiet-attempt : (m : M A) → Quiet m → Quiet (attempt m)
  unfolding attempt
  Quiet-attempt m h = record { at = h.at }

  Quiet-wrapping : (text : String) (m : M A) → Quiet m → Quiet (wrapping text m)
  unfolding wrapping
  Quiet-wrapping text m h = record { at = h.at }

Quiet-raise_if : (b : Bool) (e : Error) → Quiet (raise_if b e)
Quiet-raise_if b e = record { at = SameView-refl }

module _ {A B : Type 0} where
  continue-Quiet :
      (r : Result A) (f : A → M B) (w : World)
      → ((a : A) → Quiet (f a))
      → SameView (continue r f w).1 w
  continue-Quiet (ok a) f w h = (h a).at w
  continue-Quiet (err e) f w h = SameView-refl w
  continue-Quiet panic f w h = SameView-refl w

  Quiet-bind : (m : M A) (f : A → M B) → Quiet m → ((a : A) → Quiet (f a)) → Quiet (m >>= f)
  unfolding ◌>>=◌
  Quiet-bind m f h k = record {
    at = λ w. let (r, w') = m w in SameView-trans (continue-Quiet r f w' k) (h.at w);
  }

Quiet-tick : Quiet tick
unfolding tick
Quiet-tick = record { at = λ w. record { calls = refl; variants = refl } }

ruleset quiet_rules = (
  Quiet-pure, Quiet-gets, Quiet-or_raise, Quiet-attempt, Quiet-wrapping, Quiet-raise_if, Quiet-bind,
  Quiet-tick,
)

module _ (E : Oracle) where
  pub Quiet-reach_database : Quiet (reach_database E)
  unfolding reach_database
  Quiet-reach_database = search quiet_rules

  pub Quiet-isvc_get_by_id : (p id : Uuid) → Quiet (isvc_get_by_id E p id)
  unfolding isvc_get_by_id
  Quiet-isvc_get_by_id p id = search (quiet_rules, Quiet-reach_database)

  pub Quiet-env_get_by_id : (p id : Uuid) → Quiet (env_get_by_id E p id)
  unfolding env_get_by_id
  Quiet-env_get_by_id p id = search (quiet_rules, Quiet-reach_database)
