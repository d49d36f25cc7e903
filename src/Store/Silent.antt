-- ===== src/Store/Silent.antt =====
-- Calls that leave every table as it was: the reads, and the calls to the cluster.
use model_registry_service.Base.{
  String, ◌≡◌, refl, ◌∙◌, Bool, true, false, Option, none, some, if◌then◌else◌,
}
use model_registry_service.Domain.Result.{Error, Result, ok, err, panic}
use model_registry_service.Store.World.{
  World, Oracle, Call, M, pure, raise, lift, gets, deref, or_raise, raise_if, continue, ◌>>=◌,
  attempt, ignore, wrapping, tick, log_call, new_uuid, time_now, reach_database,
}

-- The tables that the services write are the same.
pub record SameTables (w' w : World) : Type 0 where
  pub configs : w'.configs ≡ w.configs
  pub variants : w'.variants ≡ w.variants
  pub services : w'.services ≡ w.services
  pub environments : w'.environments ≡ w.environments
  pub versions : w'.versions ≡ w.versions
  pub models : w'.models ≡ w.models
  pub serve_models : w'.serve_models ≡ w.serve_models

pub SameTables-refl : (w : World) → SameTables w w
SameTables-refl w = record {
  configs = refl;
  variants = refl;
  services = refl;
  serve_models = refl;
  environments = refl;
  versions = refl;
  models = refl;
}

pub SameTables-trans : {a b c : World} → SameTables a b → SameTables b c → SameTables a c
SameTables-trans p q = record {
  configs = p.configs ∙ q.configs;
  environments = p.environments ∙ q.environments;
  versions = p.versions ∙ q.versions;
  models = p.models ∙ q.models;
  variants = p.variants ∙ q.variants;
  services = p.services ∙ q.services;
  serve_models = p.serve_models ∙ q.serve_models;
}

pub record Silent {A : Type 0} (m : M A) : Type 0 where
  pub at : (w : World) → SameTables (m w).1 w

module _ {A : Type 0} where
  pub Silent-pure : (a : A) → Silent (pure a)
  Silent-pure a = record { at = SameTables-refl }

  pub Silent-raise : (e : Error) → Silent (raise {A = A} e)
  Silent-raise e = record { at = SameTables-refl }

  pub Silent-lift : (r : Result A) → Silent (lift r)
  Silent-lift r = record { at = SameTables-refl }

  pub Silent-gets : (f : World → A) → Silent (gets f)
  Silent-gets f = record { at = SameTables-refl }

  pub Silent-deref : (o : Option A) → Silent (deref o)
  Silent-deref none = record { at = SameTables-refl }
  Silent-deref (some a) = record { at = SameTables-refl }

  pub Silent-or_raise : (e : Error) (o : Option A) → Silent (or_raise e o)
  Silent-or_raise e none = record { at = SameTables-refl }
  Silent-or_raise e (some a) = record { at = SameTables-refl }

  pub Silent-attempt : (m : M A) → Silent m → Silent (attempt m)
  unfolding attempt
  Silent-attempt m h = record { at = h.at }

  pub Silent-wrapping : (text : String) (m : M A) → Silent m → Silent (wrapping text m)
  unfolding wrapping
  Silent-wrapping text m h = record { at = h.at }

  pub Silent-if : (b : Bool) (m n : M A) → Silent m → Silent n → Silent (if b then m else n)
  Silent-if true m n h k = h
  Silent-if false m n h k = k

pub Silent-raise_if : (b : Bool) (e : Error) → Silent (raise_if b e)
Silent-raise_if b e = record { at = SameTables-refl }

module _ {A B : Type 0} where
  continue-Silent :
      (r : Result A) (f : A → M B) (w : World)
      → ((a : A) → Silent (f a))
      → SameTables (continue r f w).1 w
  continue-Silent (ok a) f w h = (h a).at w
  continue-Silent (err e) f w h = SameTables-refl w
  continue-Silent panic f w h = SameTables-refl w

  pub Silent-bind : (m : M A) (f : A → M B) → Silent m → ((a : A) → Silent (f a)) → Silent (m >>= f)
  unfolding ◌>>=◌
  Silent-bind m f h k = record {
    at = λ w. let (r, w') = m w in SameTables-trans (continue-Silent r f w' k) (h.at w);
  }

pub Silent-ignore : {A : Type 0} (m : M A) → Silent m → Silent (ignore m)
unfolding ignore
Silent-ignore m h = Silent-bind (attempt m) _ (Silent-attempt m h) (λ _. Silent-pure tt)

pub Silent-tick : Silent tick
unfolding tick
Silent-tick = record {
  at = λ w. record {
    configs = refl;
    variants = refl;
    services = refl;
    serve_models = refl;
    environments = refl;
    versions = refl;
    models = refl;
  };
}

pub Silent-log_call : (c : Call) → Silent (log_call c)
unfolding log_call
Silent-log_call c = record {
  at = λ w. record {
    configs = refl;
    variants = refl;
    services = refl;
    serve_models = refl;
    environments = refl;
    versions = refl;
    models = refl;
  };
}

pub ruleset basic = (
  Silent-pure, Silent-raise, Silent-lift, Silent-gets, Silent-deref, Silent-or_raise,
  Silent-attempt, Silent-wrapping, Silent-if, Silent-raise_if, Silent-bind, Silent-ignore,
  Silent-tick, Silent-log_call,
)

module _ (E : Oracle) where
  pub Silent-new_uuid : Silent (new_uuid E)
  unfolding new_uuid
  Silent-new_uuid = search basic

  pub Silent-time_now : Silent (time_now E)
  unfolding time_now
  Silent-time_now = search basic

  pub Silent-reach_database : Silent (reach_database E)
  unfolding reach_database
  Silent-reach_database = search basic

pub ruleset silent_rules = (basic, Silent-new_uuid, Silent-time_now, Silent-reach_database)

-- The tables are those of a given world.
abbrev pub At : World → World → Type 0
At t w = SameTables w t
