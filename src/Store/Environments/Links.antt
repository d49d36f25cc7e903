-- ===== src/Store/Environments/Links.antt =====
-- Every inference service has an environment: what the statements do to that.
use model_registry_service.Base.{
  ◌≡◌, refl, sym, ◌∙◌, subst, Bool, true, false, not, ◌&&◌, ◌||◌, some, List, [], ◌∷◌, ◌++◌, ◌==◌,
  keep, arith, All, All-append, All-keep, All-imp,
}
use model_registry_service.Domain.Traffic.{Uuid, Time}
use model_registry_service.Domain.Serving.{ServingEnvironment, InferenceService}
use model_registry_service.Store.World.{Oracle, World, M}
use model_registry_service.Store.Silent.{Silent, Silent-reach_database, Silent-time_now}
use model_registry_service.Store.Hoare.{
  Hoare, Hoare-bind, IsStable, Hoare-silent, Hoare-raise_if, Hoare-or_raise, Hoare-wrapping,
}
use model_registry_service.Store.Reliable.{reads}
use model_registry_service.Store.Serving.{environment_row, isvc_row, isvc_clashes, isvc_create}
use model_registry_service.Store.Environments.{
  env_clashes, env_name_taken, update_envs, has_services, env_create, env_update, env_delete,
  isvc_delete,
}

unfoldable pub has_env : Uuid → List ServingEnvironment → Bool
has_env id [] = false
has_env id (e ∷ es) = e.id == id || has_env id es

abbrev pub HasHome : List ServingEnvironment → InferenceService → Type 0
HasHome es s = has_env s.serving_environment_id es ≡ true

abbrev pub AreLinked : List ServingEnvironment → List InferenceService → Type 0
AreLinked es ss = All (HasHome es) ss

abbrev pub Linked : World → Type 0
Linked w = AreLinked w.environments w.services

pub Linked-stable : IsStable Linked
Linked-stable = record {
  at = λ {w'} {w} s p.
      subst (λ es. AreLinked es w'.services) (sym s.environments)
        (subst (AreLinked w.environments) (sym s.services) p);
}

has_env-append :
    (id : Uuid) (es fs : List ServingEnvironment)
    → has_env id es ≡ true
    → has_env id (es ++ fs) ≡ true
unfolding has_env
has_env-append id [] fs h = cc
has_env-append id (e ∷ es) fs h = ground (arith, has_env-append id es fs)

has_env-update :
    (id : Uuid) (now : Time) (p : Uuid) (e : ServingEnvironment) (es : List ServingEnvironment)
    → has_env id (update_envs now p e es) ≡ has_env id es
unfolding has_env update_envs
has_env-update id now p e [] = refl
has_env-update id now p e (r ∷ es) = ground (arith, has_env-update id now p e es)

has_env-keep :
    (id other p : Uuid) (es : List ServingEnvironment)
    → (id == other) ≡ false
    → has_env id es ≡ true
    → has_env id (keep (λ e. not (e.id == other && e.project_id == p)) es) ≡ true
unfolding has_env
has_env-keep id other p [] ne h = cc
has_env-keep id other p (e ∷ es) ne h = ground (arith, has_env-keep id other p es ne)

pub environment_row-has_env :
    (p id : Uuid) (es : List ServingEnvironment) (e : ServingEnvironment)
    → environment_row p id es ≡ some e
    → has_env id es ≡ true
unfolding has_env environment_row
environment_row-has_env p id [] e h = cc
environment_row-has_env p id (r ∷ es) e h = ground (arith, environment_row-has_env p id es e)

AreLinked-keep_env :
    (id p : Uuid) (es : List ServingEnvironment) (ss : List InferenceService)
    → has_services id ss ≡ false
    → AreLinked es ss
    → AreLinked (keep (λ e. not (e.id == id && e.project_id == p)) es) ss
unfolding has_services
AreLinked-keep_env id p es [] free l = tt
AreLinked-keep_env id p es (s ∷ ss) free l =
    let parted : ((s.serving_environment_id == id) ≡ false) × (has_services id ss ≡ false) =
      neither _ _ free in
    (
      has_env-keep s.serving_environment_id id p es parted.0 l.0,
      AreLinked-keep_env id p es ss parted.1 l.1,
    )
  where
    neither : (a b : Bool) → (a || b) ≡ false → (a ≡ false) × (b ≡ false)
    neither a b h = ground arith

module _ (es : List ServingEnvironment) (ss : List InferenceService) (l : AreLinked es ss) where
  -- The two tables are these.
  abbrev Both : World → Type 0
  Both w = (w.environments ≡ es) × (w.services ≡ ss)

  weak : (w : World) → Both w → Linked w
  weak w b = subst (λ x. AreLinked x w.services) (sym b.0) (subst (AreLinked es) (sym b.1) l)

  looking : {A : Type 0} {m : M A} → Silent m → Hoare Both m (λ _. Both) Linked
  looking = Hoare-silent (record { at = λ s b. (s.environments ∙ b.0, s.services ∙ b.1) }) weak

  moved :
      (es' : List ServingEnvironment) (w : World)
      → Both w
      → AreLinked es' ss
      → AreLinked es' w.services
  moved es' w b h = subst (AreLinked es') (sym b.1) h

module _ (E : Oracle) where
  freeze :
      {A : Type 0} {m : M A}
      → ((es : List ServingEnvironment) (ss : List InferenceService) (l : AreLinked es ss)
          → Hoare (Both es ss l) m (λ _. Linked) Linked)
      → Hoare Linked m (λ _. Linked) Linked
  freeze h = record { at = λ w p. (h w.environments w.services p).at w (refl, refl) }

  pub env_create-Linked :
      (e : ServingEnvironment) → Hoare Linked (env_create E e) (λ _. Linked) Linked
  unfolding env_create
  env_create-Linked e = freeze λ es ss l.
      Hoare-bind (Hoare-wrapping _ (looking es ss l (Silent-reach_database E))) λ _.
        reads _ _ es (λ w b. b.0)
          (Hoare-raise_if (weak es ss l) (env_clashes e es) _ λ free. record {
            at = λ w b. moved es ss l _ w b (
                All-imp (HasHome es) (HasHome (es ++ e ∷ []))
                  (λ s h. has_env-append s.serving_environment_id es (e ∷ []) h) ss l);
          })

  pub env_update-Linked :
      (p : Uuid) (e : ServingEnvironment) → Hoare Linked (env_update E p e) (λ _. Linked) Linked
  unfolding env_update
  env_update-Linked p e = freeze λ es ss l.
      Hoare-bind (Hoare-wrapping _ (looking es ss l (Silent-reach_database E))) λ _.
        reads _ _ es (λ w b. b.0)
          (Hoare-or_raise (weak es ss l) _ (environment_row p e.id es) λ row found.
            Hoare-raise_if (weak es ss l) (env_name_taken e.id p e.name es) _ λ free.
              Hoare-bind (looking es ss l (Silent-time_now E)) λ now. record {
                at = λ w b. moved es ss l _ w b (
                    All-imp (HasHome es) (HasHome (update_envs now p e es))
                      (λ s h. has_env-update s.serving_environment_id now p e es ∙ h) ss l);
              })

  pub env_delete-Linked : (p id : Uuid) → Hoare Linked (env_delete E p id) (λ _. Linked) Linked
  unfolding env_delete
  env_delete-Linked p id = freeze λ es ss l.
      Hoare-bind (Hoare-wrapping _ (looking es ss l (Silent-reach_database E))) λ _.
        reads _ _ es (λ w b. b.0)
          (Hoare-or_raise (weak es ss l) _ (environment_row p id es) λ row found.
            reads _ _ ss (λ w b. b.1)
              (Hoare-raise_if (weak es ss l) (has_services id ss) _ λ free. record {
                at = λ w b. moved es ss l _ w b (AreLinked-keep_env id p es ss free l);
              }))

  pub isvc_delete-Linked : (p id : Uuid) → Hoare Linked (isvc_delete E p id) (λ _. Linked) Linked
  unfolding isvc_delete
  isvc_delete-Linked p id = freeze λ es ss l.
      Hoare-bind (Hoare-wrapping _ (looking es ss l (Silent-reach_database E))) λ _.
        reads _ _ ss (λ w b. b.1)
          (Hoare-or_raise (weak es ss l) _ (isvc_row p id ss) λ row found. record {
            at = λ w b.
                subst (λ x. AreLinked x (keep (λ s. not (s.id == id && s.project_id == p)) ss))
                  (sym b.0)
                  (All-keep (HasHome es) (λ s. not (s.id == id && s.project_id == p)) ss l);
          })

  pub isvc_create-Linked :
      (s : InferenceService)
      → Hoare
          (λ w. Linked w × (has_env s.serving_environment_id w.environments ≡ true))
          (isvc_create E s)
          (λ _. Linked)
          Linked
  unfolding isvc_create
  isvc_create-Linked s = record {
    at = λ w p. (inserted w.environments w.services p.0 p.1).at w (refl, refl);
  }
    where
      inserted :
          (es : List ServingEnvironment) (ss : List InferenceService) (l : AreLinked es ss)
          → has_env s.serving_environment_id es ≡ true
          → Hoare (Both es ss l) (isvc_create E s) (λ _. Linked) Linked
      inserted es ss l home =
          Hoare-bind (Hoare-wrapping _ (looking es ss l (Silent-reach_database E))) λ _.
            reads _ _ ss (λ w b. b.1)
              (Hoare-raise_if (weak es ss l) (isvc_clashes s ss) _ λ free. record {
                at = λ w b.
                    subst (λ x. AreLinked x (ss ++ s ∷ [])) (sym b.0)
                      (All-append (HasHome es) ss (s ∷ []) l (home, tt));
              })
