-- ===== src/Traffic/Variants/Stable.antt =====
-- DeleteVariant and the variant named "stable".
use model_registry_service.Base.{
  ℕ, String, ◌≡◌, ◌≢◌, refl, sym, ◌∙◌, ap, subst, inl, inr, Bool, true, false, not, some, List, [],
  ◌∷◌, ◌==◌, keep, arith, str_eq, str_eq_iff, Bool-cases,
}
use model_registry_service.Domain.Traffic.{Uuid, TrafficVariant, TrafficConfig, get_variant}
use model_registry_service.Store.World.{Oracle, World, M}
use model_registry_service.Store.Silent.{Silent, Silent-ignore}
use model_registry_service.Store.Hoare.{
  Hoare, IsStable, Hoare-bind, Hoare-silent, Hoare-weaken, Hoare-fact, Hoare-or_raise,
  Hoare-raise_if, keeps,
}
use model_registry_service.Store.Variants.{rows_of}
use model_registry_service.Store.Variants.Rows.{Has, HasUniqueIds, Has-rows_of, ids_differ}
use model_registry_service.Store.Variants.Writes.{
  VariantsAre, VariantsAre-stable, Deleted, variant_delete_lem,
}
use model_registry_service.Traffic.Route.Silent.{
  Silent-get_config, Silent-sync_ai_gateway_route, Silent-undeploy_variant,
}
use model_registry_service.Traffic.Route.Config.{get_config_lem}
use model_registry_service.Traffic.Variants.{delete_variant}
use model_registry_service.Traffic.Variants.Sound.{get_variant-Has}

Has-kept :
    (p : TrafficVariant → Bool) (r : TrafficVariant) (rows : List TrafficVariant)
    → Has r rows
    → p r ≡ true
    → Has r (keep p rows)
Has-kept p r [] h e = absurd h
Has-kept p r (x ∷ xs) h e = elim (Bool-cases (p x)) [
  | inl t ↦ rw t (elim h [ inl q ↦ inl q | inr m ↦ inr (Has-kept p r xs m e) ])
  | inr f ↦ rw f (elim h [ inl q ↦ absurd_true (ap p q) f e | inr m ↦ Has-kept p r xs m e ])
]
  where
    absurd_true : p x ≡ p r → p x ≡ false → p r ≡ true → Has r (keep p xs)
    absurd_true q f e = cc

not_same : (a b : ℕ) → a ≢ b → not (a == b) ≡ true
not_same a b h = ground arith

module _ (E : Oracle) (rows : List TrafficVariant) (u : HasUniqueIds rows) (r : TrafficVariant)
    (is_row : Has r rows) (named : r.variant_name ≡ "stable") where
  abbrev Kept : World → Type 0
  Kept w = Has r w.variants

  Kept-stable : IsStable Kept
  Kept-stable = record { at = λ s p. subst (Has r) (sym s.variants) p }

  weak : (w : World) → VariantsAre rows w → Kept w
  weak w p = subst (Has r) (sym p) is_row

  after : {A : Type 0} {m : M A} → Silent m → Hoare Kept m (λ _. Kept) Kept
  after h = Hoare-silent Kept-stable (λ w p. p) h

  deleted_other :
      (w : World) (name : String) (id : Uuid) (c : TrafficConfig) (v : TrafficVariant)
      → c.variants ≡ rows_of id rows
      → str_eq name "stable" ≡ false
      → get_variant c name ≡ some v
      → Deleted v.id rows w
      → Kept w
  deleted_other w name id c v loaded other found d =
      let (listed, v_name) = get_variant-Has c name v found in
      let (v_row, _) = Has-rows_of v id rows (subst (Has v) loaded listed) in
      let differ : r.variant_name ≢ v.variant_name =
        λ e. cc (other, (str_eq_iff name "stable").1 (sym v_name ∙ sym e ∙ named)) in
      subst (Has r) (sym d.table)
        (Has-kept _ r rows is_row (not_same r.id v.id (ids_differ rows r v u is_row v_row differ)))

  delete_variant_keeps :
      (p id : Uuid) (name : String)
      → Hoare (VariantsAre rows) (delete_variant E p id name) (λ _. Kept) Kept
  unfolding delete_variant
  delete_variant_keeps p id name =
      Hoare-bind (Hoare-weaken (λ w h. h) (λ _ w h. h) weak (get_config_lem E rows p id)) λ c.
        Hoare-fact λ loaded. Hoare-raise_if weak (str_eq name "stable") _ λ other.
          Hoare-or_raise weak _ (get_variant c name) λ v found.
            Hoare-bind
              (Hoare-silent (VariantsAre-stable rows) weak (Silent-undeploy_variant E p c v))
              λ _.
                Hoare-bind
                  (Hoare-weaken (λ w h. h)
                    (λ _ w d. deleted_other w name id c v loaded.1 other found d) weak
                    (variant_delete_lem E rows v.id))
                  λ _.
                    Hoare-bind (after (Silent-ignore _ (Silent-sync_ai_gateway_route E c)))
                      λ _. after (Silent-get_config E p id)

-- If identifiers are unique, DeleteVariant, asked to delete any name from any configuration, never
-- removes a row that is named "stable", of this configuration or of another, whether it succeeds,
-- fails or panics.
pub delete_variant_keeps_stable :
    (E : Oracle) (project_id config_id : Uuid) (name : String) (w : World) (r : TrafficVariant)
    → HasUniqueIds w.variants
    → Has r w.variants
    → r.variant_name ≡ "stable"
    → Has r (delete_variant E project_id config_id name w).1.variants
delete_variant_keeps_stable E p id name w r u h n =
    keeps (delete_variant_keeps E w.variants u r h n p id name) w refl
