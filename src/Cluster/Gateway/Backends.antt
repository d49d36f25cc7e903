-- ===== src/Cluster/Gateway/Backends.antt =====
-- Backends of the Envoy gateway: their type in ports/output/ai_gateway_client.go, and in
-- aigateway/client.go buildBackendCR, parseBackend and the operations on them.
pub mod RoundTrip
use model_registry_service.Base.{String, Option, none, some, List, [], ◌∷◌, ℤ, pos, map}
use model_registry_service.Base.Int.{int32}
use model_registry_service.Cluster.Json.{
  Value, text, int, arr, obj, GoMap, slice, object, get, as_text, as_int, as_map, or_zero,
}
use model_registry_service.Cluster.Server.{
  Labels, Unstructured, Dynamic, Act, pure, ◌>>=◌, wrapping, backend,
}
use model_registry_service.Cluster.Gateway.{Settings, namespace_or, manifest}

-- FQDNEndpoint
pub record FqdnEndpoint : Type 0 where
  pub hostname : String
  pub port : ℤ

-- IPEndpoint
pub record IpEndpoint : Type 0 where
  pub address : String
  pub port : ℤ

pub record BackendEndpoint : Type 0 where
  pub fqdn : Option FqdnEndpoint
  pub ip : Option IpEndpoint

pub record Backend : Type 0 where
  pub name : String
  pub namespace : String
  pub endpoints : List BackendEndpoint
  pub labels : Labels

-- int32(port)
abbrev pub as_port : Option ℤ → Option ℤ
as_port none = none
as_port (some n) = some (int32 n)

unfoldable pub fqdn_value : FqdnEndpoint → Value
fqdn_value e = obj (
    object
      (("fqdn", obj (object (("hostname", text e.hostname) ∷ ("port", int e.port) ∷ []))) ∷ []))

unfoldable pub ip_value : IpEndpoint → Value
ip_value e =
    obj
      (object (("ip", obj (object (("address", text e.address) ∷ ("port", int e.port) ∷ []))) ∷ []))

-- An endpoint of the loop, by what its pointers hold.
unfoldable pub put_endpoint : Option FqdnEndpoint → Option IpEndpoint → List Value → List Value
unfolding fqdn_value ip_value
put_endpoint (some f) ip vs = fqdn_value f ∷ vs
put_endpoint none (some i) vs = ip_value i ∷ vs
put_endpoint none none vs = vs

unfoldable pub endpoint_values : List BackendEndpoint → List Value
unfolding put_endpoint
endpoint_values [] = []
endpoint_values (e ∷ es) = put_endpoint e.fqdn e.ip (endpoint_values es)

-- buildBackendCR
unfoldable pub build_backend : Backend → GoMap
unfolding endpoint_values
build_backend b =
    manifest "gateway.envoyproxy.io/v1alpha1" "Backend" b.name b.labels
      (object (("endpoints", arr (slice (endpoint_values b.endpoints))) ∷ []))

unfoldable pub parse_fqdn : Option GoMap → Option FqdnEndpoint
parse_fqdn none = none
parse_fqdn (some m) = some (record {
  hostname = or_zero "" (as_text (get "hostname" m));
  port = or_zero (pos 0) (as_port (as_int (get "port" m)));
})

unfoldable pub parse_ip : Option GoMap → Option IpEndpoint
parse_ip none = none
parse_ip (some m) = some (record {
  address = or_zero "" (as_text (get "address" m));
  port = or_zero (pos 0) (as_port (as_int (get "port" m)));
})

unfoldable pub parse_endpoints : List Value → List BackendEndpoint
unfolding parse_fqdn parse_ip
parse_endpoints [] = []
parse_endpoints (Value.obj m ∷ vs) =
    record { fqdn = parse_fqdn (as_map (get "fqdn" m)); ip = parse_ip (as_map (get "ip" m)) }
    ∷ parse_endpoints vs
parse_endpoints (_ ∷ vs) = parse_endpoints vs

-- parseBackend
unfoldable pub parse_backend : Unstructured → GoMap → Backend
unfolding parse_endpoints
parse_backend u o = record {
  name = u.get_name o;
  namespace = u.get_namespace o;
  endpoints = parse_endpoints (or_zero [] (u.nested_slice o ("spec" ∷ "endpoints" ∷ [])));
  labels = u.get_labels o;
}

module _ (u : Unstructured) (d : Dynamic) (c : Settings) where
  -- CreateBackend
  unfoldable pub create_backend : Backend → Act d.State (Unit {0})
  create_backend b = do
    created ←
        wrapping "create backend"
          (d.create backend (namespace_or c.default_ns b.namespace) (build_backend b))
    pure tt

  -- GetBackend
  unfoldable pub get_backend : String → String → Act d.State Backend
  get_backend namespace name = do
    o ← wrapping "get backend" (d.read backend (namespace_or c.default_ns namespace) name)
    pure (parse_backend u o)

  -- ListBackends
  unfoldable pub list_backends : String → Act d.State (List Backend)
  list_backends namespace = do
    found ← wrapping "list backends" (d.list backend (namespace_or c.default_ns namespace))
    pure (map (parse_backend u) found)

  -- UpdateBackend
  unfoldable pub update_backend : Backend → Act d.State (Unit {0})
  update_backend b = do
    let namespace = namespace_or c.default_ns b.namespace
    existing ← wrapping "get backend" (d.read backend namespace b.name)
    let o = u.set_resource_version (u.get_resource_version existing) (build_backend b)
    updated ← wrapping "update backend" (d.update backend namespace o)
    pure tt

  -- DeleteBackend
  unfoldable pub delete_backend : String → String → Act d.State (Unit {0})
  delete_backend namespace name =
      wrapping "delete backend" (d.delete backend (namespace_or c.default_ns namespace) name)
