-- ===== src/Cluster/Gateway/Routes/RoundTrip.antt =====
-- What aigateway/client.go reads back of a route that it wrote.
use model_registry_service.Base.{
  String, ◌≡◌, refl, sym, ap, ◌∙◌, Bool, true, false, Option, none, some, List, [], ◌∷◌, map, pos,
  ℤ, ltb_ℤ, if◌then◌else◌, arith, str_eq_iff, Bool-cases, inl, inr,
}
use model_registry_service.Cluster.Json.{
  Value, text, int, arr, obj, GoMap, slice, items, object, get, put, put_if, as_text, as_slice,
  wire, wire_option, wire_map,
}
use model_registry_service.Cluster.Server.{Unstructured, IsUnstructured, Delivers, walk}
use model_registry_service.Cluster.Server.Reads.{as_slice-wire, slice_of_map, slice_of_key}
use model_registry_service.Cluster.Gateway.{
  WeightedBackend, AiGatewayRoute, Settings, is_set, managed, get_name-manifest,
  get_labels-manifest, spec-manifest,
}
use model_registry_service.Cluster.Gateway.Routes.{
  backend_ref, build_route, route_spec, route_rule, parse_refs, parse_ref, parse_route,
  parse_model_name, route_matches, parse_rule, override_set, override_value,
}

-- What a route keeps of a backend: a priority below zero and an empty name to override count as
-- none, and the tag of the variant is not written.
unfoldable pub recorded : WeightedBackend → WeightedBackend
recorded b = record b {
  priority = if ltb_ℤ (pos 0) b.priority then b.priority else pos 0;
  variant_tag = "";
  model_name_override = if override_set b.model_name_override then b.model_name_override else none;
}

wire-backend_ref : (b : WeightedBackend) → wire (backend_ref b) ≡ backend_ref b
unfolding backend_ref wire put object
wire-backend_ref b = ground arith

-- The entries of a backendRef, whichever tests let the optional ones in.
parse_ref_entries :
    (x y z : Bool) (name ns : String) (weight priority : ℤ) (v : Value)
    → parse_ref (
        put_if z "modelNameOverride" v (
          put_if y "priority" (int priority) (
            put_if x "namespace"
              (text ns)
              (object (("name", text name) ∷ ("weight", int weight) ∷ [])))))
      ≡ record {
        name = name;
        namespace = if x then ns else "";
        weight = weight;
        priority = if y then priority else pos 0;
        variant_tag = "";
        model_name_override = if z then as_text (some v) else none;
      }
unfolding parse_ref put get object
parse_ref_entries true true true name ns weight priority v = refl
parse_ref_entries true true false name ns weight priority v = refl
parse_ref_entries true false true name ns weight priority v = refl
parse_ref_entries true false false name ns weight priority v = refl
parse_ref_entries false true true name ns weight priority v = refl
parse_ref_entries false true false name ns weight priority v = refl
parse_ref_entries false false true name ns weight priority v = refl
parse_ref_entries false false false name ns weight priority v = refl

if_set : (s : String) → (if is_set s then s else "") ≡ s
if_set s = ground (arith, str_eq_iff s "")

empty_text : (s : String) → is_set s ≡ false → s ≡ ""
empty_text s e = ground (arith, str_eq_iff s "")

if_override :
    (o : Option String)
    → (if override_set o then as_text (some (override_value o)) else none)
      ≡ (if override_set o then o else none)
if_override none = refl
if_override (some s) = refl

parse_refs-backend_ref :
    (b : WeightedBackend) (vs : List Value)
    → parse_refs (backend_ref b ∷ vs) ≡ recorded b ∷ parse_refs vs
unfolding parse_refs backend_ref recorded
parse_refs-backend_ref b vs =
    rw
      (
        parse_ref_entries (is_set b.namespace) (ltb_ℤ (pos 0) b.priority)
            (override_set b.model_name_override) b.name b.namespace b.weight b.priority
            (override_value b.model_name_override),
        if_set b.namespace,
        if_override b.model_name_override,
      )
      refl

pub parse_refs-recorded :
    (bs : List WeightedBackend) → parse_refs (map wire (map backend_ref bs)) ≡ map recorded bs
unfolding parse_refs
parse_refs-recorded [] = refl
parse_refs-recorded (b ∷ bs) =
    rw (wire-backend_ref b) (parse_refs-backend_ref b (map wire (map backend_ref bs)))
    ∙ ap (λ (rs : List WeightedBackend). recorded b ∷ rs) (parse_refs-recorded bs)

-- What a route keeps of a route that was written: no limit of rates and no costs.
unfoldable pub recorded_route : String → AiGatewayRoute → AiGatewayRoute
unfolding recorded
recorded_route namespace route = record {
  name = route.name;
  namespace = namespace;
  model_name = route.model_name;
  backends = map recorded route.backends;
  rate_limit = none;
  labels = some (managed route.labels);
  llm_request_costs = [];
}

get_rules :
    (c : Settings) (route : AiGatewayRoute)
    → get "rules" (route_spec c route) ≡ some (arr (slice (obj (route_rule route) ∷ [])))
unfolding route_spec get object put
get_rules c route = ground arith

get_refs :
    (route : AiGatewayRoute)
    → get "backendRefs" (route_rule route) ≡ some (arr (slice (map backend_ref route.backends)))
unfolding route_rule get object put
get_refs route = ground arith

get_matches :
    (route : AiGatewayRoute)
    → get "matches" (route_rule route) ≡ (
        if is_set route.model_name
        then some (arr (slice (route_matches route.model_name)))
        else none)
unfolding route_rule route_matches put object get
get_matches route = elim (Bool-cases (is_set route.model_name)) [
  | inl e ↦ rw e refl
  | inr e ↦ rw e refl
]

module _ {u : Unstructured} (laws : IsUnstructured u) (c : Settings) (route : AiGatewayRoute) where
  rules_read :
      (got : GoMap)
      → Delivers u (build_route c route) got
      → u.nested_slice got ("spec" ∷ "rules" ∷ []) ≡ some (obj (wire_map (route_rule route)) ∷ [])
  unfolding wire build_route
  rules_read got sent =
      slice_of_key laws got (route_spec c route) (spec-manifest laws _ _ _ _ _ got sent) "rules"
      ∙ ap (λ (v : Option Value). as_slice (wire_option v)) (get_rules c route)
      ∙ as_slice-wire (obj (route_rule route) ∷ [])

  refs_read :
      u.nested_slice (wire_map (route_rule route)) ("backendRefs" ∷ [])
      ≡ some (map wire (map backend_ref route.backends))
  refs_read =
      slice_of_map laws (route_rule route) "backendRefs"
      ∙ ap (λ (v : Option Value). as_slice (wire_option v)) (get_refs route)
      ∙ as_slice-wire (map backend_ref route.backends)

  name_read : parse_model_name u (wire_map (route_rule route)) ≡ route.model_name
  unfolding parse_model_name
  name_read =
      rw (slice_of_map laws (route_rule route) "matches", get_matches route)
        (elim (Bool-cases (is_set route.model_name)) [
          | inl e ↦ rw e (
              unfold route_matches in
              rw e (
                unfold wire in
                unfold slice in
                unfold items in
                unfold object in
                rw (laws.slice_at _ ("headers" ∷ [])) (unfold walk in unfold get in refl)))
          | inr e ↦ rw e (unfold items in sym (empty_text route.model_name e))
        ])

  pub parse_route-build_route :
      (got : GoMap)
      → Delivers u (build_route c route) got
      → parse_route u got ≡ recorded_route (u.get_namespace got) route
  unfolding parse_route recorded_route parse_rule
  parse_route-build_route got sent =
      rw
        (
          rules_read got sent,
          refs_read,
          name_read,
          parse_refs-recorded route.backends,
          sent.name,
          sent.labels,
        )
        (unfold build_route in
          rw (get_name-manifest laws _ _ _ _ _, get_labels-manifest laws _ _ _ _ _) refl)
