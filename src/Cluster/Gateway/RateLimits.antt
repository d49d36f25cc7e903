-- ===== src/Cluster/Gateway/RateLimits.antt =====
-- Limits of rates in aigateway/client.go: buildBackendTrafficPolicyCR and the operations on policies.
use model_registry_service.Base.{String, [], ◌∷◌}
use model_registry_service.Cluster.Json.{text, int, arr, obj, Value, GoMap, slice, object}
use model_registry_service.Cluster.Server.{
  Unstructured, Dynamic, Act, pure, ◌>>=◌, wrapping, backend_traffic_policy,
}
use model_registry_service.Cluster.Gateway.{Settings, RateLimitConfig, namespace_or}

-- A slice of one map.
abbrev one : GoMap → Value
one m = arr (slice (obj m ∷ []))

unfoldable pub rate_limit_rule : RateLimitConfig → GoMap
rate_limit_rule config = object (
    (
      "clientSelectors",
      one (
          object (
            (
              "headers",
              one (object (("name", text config.tenant_header) ∷ ("type", text "Distinct") ∷ [])),
            )
            ∷ [])),
    )
    ∷ (
      "limit",
      obj (
          object
            (("requests", int config.token_budget) ∷ ("unit", text config.budget_period) ∷ [])),
    )
    ∷ (
      "cost",
      obj (
          object (
            (
              "response",
              obj (
                  object (
                    ("from", text "Metadata")
                    ∷ (
                      "metadata",
                      obj (
                          object (
                            ("namespace", text "io.envoy.ai_gateway")
                            ∷ ("key", text "llm_total_tokens")
                            ∷ [])),
                    )
                    ∷ [])),
            )
            ∷ [])),
    )
    ∷ [])

-- buildBackendTrafficPolicyCR
unfoldable pub build_policy : Settings → String → RateLimitConfig → GoMap
unfolding rate_limit_rule
build_policy c namespace config = object (
    ("apiVersion", text "gateway.envoyproxy.io/v1alpha1")
    ∷ ("kind", text "BackendTrafficPolicy")
    ∷ (
      "metadata",
      obj (object (("name", text "tenant-rate-limit") ∷ ("namespace", text namespace) ∷ [])),
    )
    ∷ (
      "spec",
      obj (
          object (
            (
              "targetRefs",
              one (
                  object (
                    ("name", text c.gateway_name)
                    ∷ ("kind", text "Gateway")
                    ∷ ("group", text "gateway.networking.k8s.io")
                    ∷ [])),
            )
            ∷ (
              "rateLimit",
              obj (
                  object (
                    ("type", text "Global")
                    ∷ ("global", obj (object (("rules", one (rate_limit_rule config)) ∷ [])))
                    ∷ [])),
            )
            ∷ [])),
    )
    ∷ [])

module _ (u : Unstructured) (d : Dynamic) (c : Settings) where
  -- CreateRateLimitPolicy
  unfoldable pub create_rate_limit_policy : String → RateLimitConfig → Act d.State (Unit {0})
  create_rate_limit_policy ns config = do
    let namespace = namespace_or c.default_ns ns
    created ←
        wrapping "create backendtrafficpolicy"
          (d.create backend_traffic_policy namespace (build_policy c namespace config))
    pure tt

  -- UpdateRateLimitPolicy
  unfoldable pub update_rate_limit_policy : String → RateLimitConfig → Act d.State (Unit {0})
  update_rate_limit_policy ns config = do
    let namespace = namespace_or c.default_ns ns
    existing ←
        wrapping "get backendtrafficpolicy"
          (d.read backend_traffic_policy namespace "tenant-rate-limit")
    let o =
        u.set_resource_version (u.get_resource_version existing) (build_policy c namespace config)
    updated ← wrapping "update backendtrafficpolicy" (d.update backend_traffic_policy namespace o)
    pure tt
