-- ===== src/Cluster/Gateway/Backends/RoundTrip.antt =====
-- What aigateway/client.go reads back of a backend that it wrote.
use model_registry_service.Base.{
  String, ◌≡◌, refl, sym, ap, ◌∙◌, subst, Option, none, some, List, [], ◌∷◌, map, All,
}
use model_registry_service.Base.Int.{IsInt32, int32_fits}
use model_registry_service.Domain.Result.{ok}
use model_registry_service.Cluster.Json.{Value, GoMap, object, get, wire}
use model_registry_service.Cluster.Server.{
  Unstructured, IsUnstructured, Delivers, Dynamic, IsServer, backend, ◌>>=◌, wrapping,
}
use model_registry_service.Cluster.Server.Reads.{as_slice-wire, slice_of_key}
use model_registry_service.Cluster.Gateway.{
  Settings, managed, namespace_or, get_name-manifest, get_labels-manifest, spec-manifest,
}
use model_registry_service.Cluster.Gateway.Backends.{
  FqdnEndpoint, IpEndpoint, BackendEndpoint, Backend, put_endpoint, endpoint_values, build_backend,
  parse_endpoints, parse_backend, create_backend, get_backend,
}

-- What a backend keeps of its endpoints: a name goes before an address, and an endpoint that has
-- neither is left out.
abbrev pub record_endpoint :
    Option FqdnEndpoint → Option IpEndpoint → List BackendEndpoint → List BackendEndpoint
record_endpoint (some f) ip es = record { fqdn = some f; ip = none } ∷ es
record_endpoint none (some i) es = record { fqdn = none; ip = some i } ∷ es
record_endpoint none none es = es

abbrev pub recorded_endpoints : List BackendEndpoint → List BackendEndpoint
recorded_endpoints [] = []
recorded_endpoints (e ∷ es) = record_endpoint e.fqdn e.ip (recorded_endpoints es)

-- The ports are of type int32.
abbrev pub FqdnFits : Option FqdnEndpoint → Type 0
FqdnFits none = Unit
FqdnFits (some f) = IsInt32 f.port

abbrev pub IpFits : Option IpEndpoint → Type 0
IpFits none = Unit
IpFits (some i) = IsInt32 i.port

abbrev pub HasPorts : BackendEndpoint → Type 0
HasPorts e = FqdnFits e.fqdn × IpFits e.ip

parse_endpoints-put :
    (f : Option FqdnEndpoint) (i : Option IpEndpoint) (vs : List Value)
    → FqdnFits f
    → IpFits i
    → parse_endpoints (map wire (put_endpoint f i vs))
      ≡ record_endpoint f i (parse_endpoints (map wire vs))
unfolding put_endpoint parse_endpoints wire object get
parse_endpoints-put (some f) i vs hf hi = rw (int32_fits f.port hf) refl
parse_endpoints-put none (some i) vs hf hi = rw (int32_fits i.port hi) refl
parse_endpoints-put none none vs hf hi = refl

pub parse_endpoints-endpoint_values :
    (es : List BackendEndpoint)
    → All HasPorts es
    → parse_endpoints (map wire (endpoint_values es)) ≡ recorded_endpoints es
unfolding endpoint_values parse_endpoints
parse_endpoints-endpoint_values [] h = refl
parse_endpoints-endpoint_values (e ∷ es) h =
    parse_endpoints-put e.fqdn e.ip (endpoint_values es) h.0.0 h.0.1
    ∙ ap (record_endpoint e.fqdn e.ip) (parse_endpoints-endpoint_values es h.1)

abbrev pub recorded_backend : String → Backend → Backend
recorded_backend namespace b = record {
  name = b.name;
  namespace = namespace;
  endpoints = recorded_endpoints b.endpoints;
  labels = some (managed b.labels);
}

module _ {u : Unstructured} (laws : IsUnstructured u) (b : Backend) where
  endpoints_read :
      (got : GoMap)
      → Delivers u (build_backend b) got
      → u.nested_slice got ("spec" ∷ "endpoints" ∷ [])
        ≡ some (map wire (endpoint_values b.endpoints))
  unfolding build_backend object get
  endpoints_read got sent =
      slice_of_key laws got _ (spec-manifest laws _ _ _ _ _ got sent) "endpoints"
      ∙ as_slice-wire (endpoint_values b.endpoints)

  pub parse_backend-build_backend :
      (got : GoMap)
      → All HasPorts b.endpoints
      → Delivers u (build_backend b) got
      → parse_backend u got ≡ recorded_backend (u.get_namespace got) b
  unfolding parse_backend
  parse_backend-build_backend got ports sent =
      rw
        (
          endpoints_read got sent,
          parse_endpoints-endpoint_values b.endpoints ports,
          sent.name,
          sent.labels,
        )
        (unfold build_backend in
          rw (get_name-manifest laws _ _ _ _ _, get_labels-manifest laws _ _ _ _ _) refl)

  module _ {d : Dynamic} (server : IsServer u d) (c : Settings) {s s' s'' : d.State}
      {answer got : GoMap} (ports : All HasPorts b.endpoints)
      (created : d.create backend (namespace_or c.default_ns b.namespace) (build_backend b) s
        ≡ (ok answer, s'))
      (reread : d.read backend (namespace_or c.default_ns b.namespace) b.name s'
        ≡ (ok got, s'')) where
    name_sent : u.get_name (build_backend b) ≡ b.name
    unfolding build_backend
    name_sent = get_name-manifest laws _ _ _ _ _

    delivered : Delivers u (build_backend b) got
    delivered = server.read_created _ _ (build_backend b) answer got s s' s'' created (
        subst
          (λ (n : String).
            d.read backend (namespace_or c.default_ns b.namespace) n s' ≡ (ok got, s''))
          (sym name_sent) reread)

    -- If the server answers, CreateBackend succeeds, and GetBackend then returns the backend in the
    -- namespace where it was created, with the label of the registry and the endpoints that have a
    -- name or an address, the ports as they were.
    pub get_backend-create_backend :
        (create_backend u d c b s ≡ (ok tt, s'))
        × (get_backend u d c b.namespace b.name s'
            ≡ (ok (recorded_backend (namespace_or c.default_ns b.namespace) b), s''))
    unfolding create_backend get_backend ◌>>=◌ wrapping
    get_backend-create_backend = (
      rw created refl,
      rw
          (
            reread,
            parse_backend-build_backend got ports delivered,
            (server.read_named _ _ _ _ _ _ reread).1,
          )
          refl,
    )
