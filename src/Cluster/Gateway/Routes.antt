-- ===== src/Cluster/Gateway/Routes.antt =====
-- Routes in aigateway/client.go: buildAIGatewayRouteCR, parseAIGatewayRoute, parseRouteStatus, and
-- the operations on routes.
pub mod RoundTrip
pub mod Weights
use model_registry_service.Base.{
  String, Bool, true, false, not, ◌&&◌, Option, none, some, List, [], ◌∷◌, ◌++◌, map, pos, ltb_ℤ,
  if◌then◌else◌, str_eq,
}
use model_registry_service.Cluster.Json.{
  Value, text, int, arr, obj, GoMap, slice, object, get, put_if, as_text, as_int, as_map, or_zero,
}
use model_registry_service.Cluster.Server.{
  Unstructured, Dynamic, Act, pure, ◌>>=◌, wrapping, ai_gateway_route,
}
use model_registry_service.Cluster.Gateway.{
  LlmRequestCost, WeightedBackend, AiGatewayRoute, AiGatewayRouteStatus, Settings, namespace_or,
  is_set, is_empty, manifest,
}

abbrev pub override_set : Option String → Bool
override_set none = false
override_set (some s) = is_set s

abbrev pub override_value : Option String → Value
override_value none = text ""
override_value (some s) = text s

-- One backendRef.
unfoldable pub backend_ref : WeightedBackend → Value
backend_ref b =
    let m0 = object (("name", text b.name) ∷ ("weight", int b.weight) ∷ []) in
    let m1 = put_if (is_set b.namespace) "namespace" (text b.namespace) m0 in
    let m2 = put_if (ltb_ℤ (pos 0) b.priority) "priority" (int b.priority) m1 in
    obj (
      put_if (override_set b.model_name_override) "modelNameOverride"
        (override_value b.model_name_override) m2)

-- The match rule on the x-ai-eg-model header.
unfoldable pub route_matches : String → List Value
route_matches model_name =
    if is_set model_name
    then obj (
        object (
          (
            "headers",
            arr (
                slice (
                  obj (
                    object (
                      ("type", text "Exact")
                      ∷ ("name", text "x-ai-eg-model")
                      ∷ ("value", text model_name)
                      ∷ []))
                  ∷ [])),
          )
          ∷ []))
      ∷ []
    else []

unfoldable pub cost_map : LlmRequestCost → Value
cost_map cost = obj (
    put_if (is_set cost.cel) "cel" (text cost.cel)
      (object (("metadataKey", text cost.metadata_key) ∷ ("type", text cost.kind) ∷ [])))

unfoldable pub route_rule : AiGatewayRoute → GoMap
unfolding backend_ref route_matches
route_rule route =
    put_if (not (is_empty (route_matches route.model_name))) "matches"
      (arr (slice (route_matches route.model_name)))
      (object (("backendRefs", arr (slice (map backend_ref route.backends))) ∷ []))

unfoldable pub route_spec : Settings → AiGatewayRoute → GoMap
unfolding route_rule cost_map
route_spec c route =
    put_if (not (is_empty route.llm_request_costs)) "llmRequestCosts"
      (arr (slice (map cost_map route.llm_request_costs)))
      (object (
        (
          "parentRefs",
          arr (
              slice (
                obj (
                  object
                    (("name", text c.gateway_name) ∷ ("namespace", text c.gateway_namespace) ∷ []))
                ∷ [])),
        )
        ∷ ("rules", arr (slice (obj (route_rule route) ∷ [])))
        ∷ []))

-- buildAIGatewayRouteCR
unfoldable pub build_route : Settings → AiGatewayRoute → GoMap
unfolding route_spec
build_route c route =
    manifest "aigateway.envoyproxy.io/v1alpha1" "AIGatewayRoute" route.name route.labels
      (route_spec c route)

-- The first element of a slice, as a map.
abbrev first_map : List Value → Option GoMap
first_map [] = none
first_map (v ∷ vs) = as_map (some v)

unfoldable pub parse_ref : GoMap → WeightedBackend
parse_ref m = record {
  name = or_zero "" (as_text (get "name" m));
  namespace = or_zero "" (as_text (get "namespace" m));
  weight = or_zero (pos 0) (as_int (get "weight" m));
  priority = or_zero (pos 0) (as_int (get "priority" m));
  variant_tag = "";
  model_name_override = as_text (get "modelNameOverride" m);
}

-- The loop over backendRefs, which skips what is no map.
unfoldable pub parse_refs : List Value → List WeightedBackend
unfolding parse_ref
parse_refs [] = []
parse_refs (Value.obj m ∷ vs) = parse_ref m ∷ parse_refs vs
parse_refs (_ ∷ vs) = parse_refs vs

abbrev read_header : Option GoMap → String
read_header none = ""
read_header (some header) =
    if str_eq (or_zero "" (as_text (get "name" header))) "x-ai-eg-model"
    then or_zero "" (as_text (get "value" header))
    else ""

-- The loop over the conditions, from the status so far.
unfoldable pub read_conditions : List Value → AiGatewayRouteStatus → AiGatewayRouteStatus
read_conditions [] status = status
read_conditions (Value.obj m ∷ vs) status =
    let accepted =
      str_eq (or_zero "" (as_text (get "type" m))) "Accepted"
      && str_eq (or_zero "" (as_text (get "status" m))) "True" in
    read_conditions vs (record {
      ready = if accepted then true else status.ready;
      conditions = elim (as_text (get "message" m)) [
        | none ↦ status.conditions
        | some msg ↦ status.conditions ++ msg ∷ []
      ];
    })
read_conditions (_ ∷ vs) status = read_conditions vs status

module _ (u : Unstructured) where
  -- x, _, _ := NestedSlice(m, key)
  abbrev slice_or_nil : GoMap → List String → List Value
  slice_or_nil m p = or_zero [] (u.nested_slice m p)

  abbrev match_header : Option GoMap → Option GoMap
  match_header none = none
  match_header (some match) = first_map (slice_or_nil match ("headers" ∷ []))

  unfoldable pub parse_model_name : GoMap → String
  parse_model_name rule =
      read_header (match_header (first_map (slice_or_nil rule ("matches" ∷ []))))

  unfoldable pub parse_rule : AiGatewayRoute → Option GoMap → AiGatewayRoute
  unfolding parse_refs parse_model_name
  parse_rule route none = route
  parse_rule route (some rule) = record route {
    backends = parse_refs (slice_or_nil rule ("backendRefs" ∷ []));
    model_name = parse_model_name rule;
  }

  -- parseAIGatewayRoute
  unfoldable pub parse_route : GoMap → AiGatewayRoute
  unfolding parse_rule
  parse_route o =
      parse_rule
        (record {
          name = u.get_name o;
          namespace = u.get_namespace o;
          model_name = "";
          backends = [];
          rate_limit = none;
          labels = u.get_labels o;
          llm_request_costs = [];
        })
        (first_map (slice_or_nil o ("spec" ∷ "rules" ∷ [])))

  -- parseRouteStatus
  unfoldable pub parse_route_status : GoMap → AiGatewayRouteStatus
  unfolding read_conditions
  parse_route_status o =
      read_conditions (slice_or_nil o ("status" ∷ "conditions" ∷ []))
        (record { ready = false; conditions = [] })

module _ (u : Unstructured) (d : Dynamic) (c : Settings) where
  -- CreateRoute
  unfoldable pub create_route : AiGatewayRoute → Act d.State (Unit {0})
  create_route route = do
    created ← wrapping "create aigatewayroute" (
        d.create ai_gateway_route (namespace_or c.default_ns route.namespace) (build_route c route))
    pure tt

  -- UpdateRoute
  unfoldable pub update_route : AiGatewayRoute → Act d.State (Unit {0})
  update_route route = do
    let namespace = namespace_or c.default_ns route.namespace
    existing ← wrapping "get aigatewayroute" (d.read ai_gateway_route namespace route.name)
    let o = u.set_resource_version (u.get_resource_version existing) (build_route c route)
    updated ← wrapping "update aigatewayroute" (d.update ai_gateway_route namespace o)
    pure tt

  -- DeleteRoute
  unfoldable pub delete_route : String → String → Act d.State (Unit {0})
  delete_route namespace name =
      wrapping "delete aigatewayroute"
        (d.delete ai_gateway_route (namespace_or c.default_ns namespace) name)

  -- GetRoute
  unfoldable pub get_route : String → String → Act d.State AiGatewayRoute
  get_route namespace name = do
    o ←
        wrapping "get aigatewayroute"
          (d.read ai_gateway_route (namespace_or c.default_ns namespace) name)
    pure (parse_route u o)

  -- GetRouteStatus
  unfoldable pub get_route_status : String → String → Act d.State AiGatewayRouteStatus
  get_route_status namespace name = do
    o ←
        wrapping "get aigatewayroute"
          (d.read ai_gateway_route (namespace_or c.default_ns namespace) name)
    pure (parse_route_status u o)

  -- UpdateTrafficWeights
  unfoldable pub update_traffic_weights :
      String → String → List WeightedBackend → Act d.State (Unit {0})
  unfolding get_route update_route
  update_traffic_weights namespace route_name backends = do
    route ← get_route namespace route_name
    update_route (record route { backends = backends })
