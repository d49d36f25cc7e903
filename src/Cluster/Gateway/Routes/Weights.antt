-- ===== src/Cluster/Gateway/Routes/Weights.antt =====
-- UpdateTrafficWeights of aigateway/client.go, through the server.
use model_registry_service.Base.{
  String, ◌≡◌, refl, sym, ap, ◌∙◌, subst, Option, none, some, List, [], ◌∷◌, arith, str_eq_iff,
}
use model_registry_service.Domain.Result.{ok}
use model_registry_service.Cluster.Json.{GoMap, get, object, get-wire_map, wire_option}
use model_registry_service.Cluster.Server.{
  Unstructured, IsUnstructured, Dynamic, IsServer, Delivers, ai_gateway_route, at, walk, ◌>>=◌,
  wrapping,
}
use model_registry_service.Cluster.Server.Reads.{Delivers-version}
use model_registry_service.Cluster.Gateway.{
  WeightedBackend, AiGatewayRoute, Settings, namespace_or, get_name-manifest, spec-manifest,
}
use model_registry_service.Cluster.Gateway.Routes.{
  build_route, parse_route, update_traffic_weights, get_route, update_route, parse_rule, route_spec,
}
use model_registry_service.Cluster.Gateway.Routes.RoundTrip.{
  recorded_route, parse_route-build_route,
}

namespace_again : (d ns : String) → namespace_or d (namespace_or d ns) ≡ namespace_or d ns
namespace_again d ns = ground (arith, str_eq_iff ns "", str_eq_iff d "")

module _ (u : Unstructured) where
  parse_rule-name :
      (route : AiGatewayRoute) (rule : Option GoMap) → (parse_rule u route rule).name ≡ route.name
  unfolding parse_rule
  parse_rule-name route none = refl
  parse_rule-name route (some rule) = refl

  parse_rule-namespace :
      (route : AiGatewayRoute) (rule : Option GoMap)
      → (parse_rule u route rule).namespace ≡ route.namespace
  unfolding parse_rule
  parse_rule-namespace route none = refl
  parse_rule-namespace route (some rule) = refl

  parse_route-name : (o : GoMap) → (parse_route u o).name ≡ u.get_name o
  unfolding parse_route
  parse_route-name o = parse_rule-name _ _

  parse_route-namespace : (o : GoMap) → (parse_route u o).namespace ≡ u.get_namespace o
  unfolding parse_route
  parse_route-namespace o = parse_rule-namespace _ _

  parse_rule-costs :
      (route : AiGatewayRoute) (rule : Option GoMap)
      → (parse_rule u route rule).llm_request_costs ≡ route.llm_request_costs
  unfolding parse_rule
  parse_rule-costs route none = refl
  parse_rule-costs route (some rule) = refl

  parse_route-costs : (o : GoMap) → (parse_route u o).llm_request_costs ≡ []
  unfolding parse_route
  parse_route-costs o = parse_rule-costs _ _

no_costs :
    (c : Settings) (route : AiGatewayRoute)
    → route.llm_request_costs ≡ []
    → get "llmRequestCosts" (route_spec c route) ≡ none
unfolding route_spec get object
no_costs c route e = rw e refl

-- UpdateRoute, if the server answers.
update_route-sends :
    (u : Unstructured) (d : Dynamic) (c : Settings) (route : AiGatewayRoute) {s s' s'' : d.State}
    {existing answer : GoMap}
    → d.read ai_gateway_route (namespace_or c.default_ns route.namespace) route.name s
      ≡ (ok existing, s')
    → d.update ai_gateway_route
        (namespace_or c.default_ns route.namespace)
        (u.set_resource_version (u.get_resource_version existing) (build_route c route))
        s'
      ≡ (ok answer, s'')
    → update_route u d c route s ≡ (ok tt, s'')
unfolding update_route ◌>>=◌ wrapping
update_route-sends u d c route first second = rw (first, second) refl

-- The route and the object that UpdateTrafficWeights sends.
abbrev pub reweighed : Unstructured → GoMap → List WeightedBackend → AiGatewayRoute
reweighed u old backends = record (parse_route u old) { backends = backends }

abbrev pub resent : Unstructured → Settings → GoMap → GoMap → List WeightedBackend → GoMap
resent u c old existing backends =
    u.set_resource_version (u.get_resource_version existing)
      (build_route c (reweighed u old backends))

module _ {u : Unstructured} (laws : IsUnstructured u) {d : Dynamic} (server : IsServer u d)
    (c : Settings) (ns name : String) (backends : List WeightedBackend) (old existing : GoMap)
    {s s1 s2 s3 s4 : d.State} {answer got : GoMap}
    (first : d.read ai_gateway_route (namespace_or c.default_ns ns) name s ≡ (ok old, s1))
    (second : d.read ai_gateway_route (namespace_or c.default_ns ns) name s1 ≡ (ok existing, s2))
    (accepted : d.update ai_gateway_route
        (namespace_or c.default_ns ns)
        (resent u c old existing backends)
        s2
      ≡ (ok answer, s3))
    (reread : d.read ai_gateway_route (namespace_or c.default_ns ns) name s3 ≡ (ok got, s4)) where
  abbrev moved : AiGatewayRoute
  moved = reweighed u old backends

  abbrev sent : GoMap
  sent = resent u c old existing backends

  name_kept : moved.name ≡ name
  name_kept = parse_route-name u old ∙ (server.read_named _ _ _ _ _ _ first).0

  place_kept : namespace_or c.default_ns moved.namespace ≡ namespace_or c.default_ns ns
  place_kept =
      ap (namespace_or c.default_ns)
        (parse_route-namespace u old ∙ (server.read_named _ _ _ _ _ _ first).1)
      ∙ namespace_again c.default_ns ns

  name_sent : u.get_name sent ≡ name
  unfolding build_route
  name_sent =
      (laws.version_only _ (build_route c moved)).name
      ∙ get_name-manifest laws _ _ _ _ _
      ∙ name_kept

  delivered : Delivers u (build_route c moved) got
  delivered =
      Delivers-version laws _ _ _
        (server.read_updated _ _ sent answer got s2 s3 s4 accepted (rw name_sent reread))

  route_pushed : update_route u d c moved s1 ≡ (ok tt, s3)
  route_pushed =
      update_route-sends u d c moved
        (subst
          (λ (n : String).
            d.read ai_gateway_route (namespace_or c.default_ns moved.namespace) n s1
            ≡ (ok existing, s2))
          (sym name_kept)
          (subst (λ (p : String). d.read ai_gateway_route p name s1 ≡ (ok existing, s2))
            (sym place_kept) second))
        (subst (λ (p : String). d.update ai_gateway_route p sent s2 ≡ (ok answer, s3))
          (sym place_kept) accepted)

  costs_lost : at ("spec" ∷ "llmRequestCosts" ∷ []) got ≡ none
  unfolding walk build_route
  costs_lost =
      ap (walk ("llmRequestCosts" ∷ []))
        (spec-manifest laws _ _ _ _ (route_spec c moved) got delivered)
      ∙ get-wire_map "llmRequestCosts" (route_spec c moved)
      ∙ ap wire_option (no_costs c moved (parse_route-costs u old))

  -- If the server answers the two reads, the update and the read behind it, UpdateTrafficWeights
  -- succeeds, and GetRoute then returns the route that was stored before with the given backends,
  -- as far as a route records them; the costs of the requests that the stored object may have had
  -- are gone.
  pub update_traffic_weights_rewrites :
      (update_traffic_weights u d c ns name backends s ≡ (ok tt, s3))
      × (get_route u d c ns name s3
          ≡ (ok (recorded_route (namespace_or c.default_ns ns) (reweighed u old backends)), s4))
      × (at ("spec" ∷ "llmRequestCosts" ∷ []) got ≡ none)
  unfolding update_traffic_weights get_route ◌>>=◌ wrapping
  update_traffic_weights_rewrites = (
    rw (first, route_pushed) refl,
    rw
        (
          reread,
          parse_route-build_route laws c moved got delivered,
          (server.read_named _ _ _ _ _ _ reread).1,
        )
        refl,
    costs_lost,
  )
