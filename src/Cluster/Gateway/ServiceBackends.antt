-- ===== src/Cluster/Gateway/ServiceBackends.antt =====
-- AIServiceBackends: their type in ports/output/ai_gateway_client.go, and in aigateway/client.go
-- buildAIServiceBackendCR, parseAIServiceBackend and the operations on them.
pub mod Entries
pub mod RoundTrip
use model_registry_service.Base.{
  String, Bool, not, ◌&&◌, Option, none, some, List, [], ◌∷◌, map, if◌then◌else◌,
}
use model_registry_service.Cluster.Json.{
  Value, text, texts, arr, obj, GoMap, slice, object, get, put_if, as_text, or_zero,
}
use model_registry_service.Cluster.Server.{
  Labels, Unstructured, Dynamic, Act, pure, ◌>>=◌, wrapping, ai_service_backend,
}
use model_registry_service.Cluster.Gateway.{Settings, namespace_or, is_set, is_empty, manifest}

-- HTTPHeader
pub record HttpHeader : Type 0 where
  pub name : String
  pub value : String

pub record HeaderMutation : Type 0 where
  pub set : List HttpHeader
  pub remove : List String

pub record BackendRef : Type 0 where
  pub name : String
  pub namespace : String
  pub group : String
  pub kind : String

-- AIServiceBackend
pub record AiServiceBackend : Type 0 where
  pub name : String
  pub namespace : String
  pub schema : String
  pub backend_ref : BackendRef
  pub header_mutation : Option HeaderMutation
  pub labels : Labels

abbrev pub no_ref : BackendRef
no_ref = record { name = ""; namespace = ""; group = ""; kind = "" }

unfoldable pub ref_map : BackendRef → GoMap
ref_map r = put_if (is_set r.kind) "kind" (text r.kind) (
    put_if (is_set r.group) "group" (text r.group) (
      put_if (is_set r.namespace) "namespace" (text r.namespace)
        (object (("name", text r.name) ∷ []))))

abbrev pub header_map : HttpHeader → Value
header_map h = obj (object (("name", text h.name) ∷ ("value", text h.value) ∷ []))

unfoldable pub mutation_map : HeaderMutation → GoMap
mutation_map h =
    put_if (not (is_empty h.remove)) "remove" (texts h.remove)
      (put_if (not (is_empty h.set)) "set" (arr (slice (map header_map h.set))) GoMap.no_keys)

-- Whether the map of a mutation has an entry.
abbrev pub mutates : HeaderMutation → Bool
mutates h = not (is_empty h.set && is_empty h.remove)

unfoldable pub put_mutation : Option HeaderMutation → GoMap → GoMap
put_mutation none spec = spec
put_mutation (some h) spec = put_if (mutates h) "headerMutation" (obj (mutation_map h)) spec

unfoldable pub service_backend_spec : AiServiceBackend → GoMap
service_backend_spec b = put_mutation b.header_mutation (
    put_if (is_set b.backend_ref.name) "backendRef" (obj (ref_map b.backend_ref))
      (object (("schema", obj (object (("name", text b.schema) ∷ []))) ∷ [])))

-- buildAIServiceBackendCR
unfoldable pub build_service_backend : AiServiceBackend → GoMap
unfolding service_backend_spec
build_service_backend b =
    manifest "aigateway.envoyproxy.io/v1alpha1" "AIServiceBackend" b.name b.labels
      (service_backend_spec b)

unfoldable pub parse_backend_ref : Option GoMap → BackendRef
parse_backend_ref none = no_ref
parse_backend_ref (some m) = record {
  name = or_zero "" (as_text (get "name" m));
  namespace = or_zero "" (as_text (get "namespace" m));
  group = or_zero "" (as_text (get "group" m));
  kind = or_zero "" (as_text (get "kind" m));
}

unfoldable pub parse_headers : List Value → List HttpHeader
parse_headers [] = []
parse_headers (Value.obj m ∷ vs) =
    record {
      name = or_zero "" (as_text (get "name" m));
      value = or_zero "" (as_text (get "value" m));
    }
    ∷ parse_headers vs
parse_headers (_ ∷ vs) = parse_headers vs

-- Nothing if both lists are empty.
abbrev pub unless_empty : HeaderMutation → Option HeaderMutation
unless_empty h = if is_empty h.set && is_empty h.remove then none else some h

module _ (u : Unstructured) where
  unfoldable pub parse_mutation : GoMap → Option GoMap → Option HeaderMutation
  unfolding parse_headers
  parse_mutation o none = none
  parse_mutation o (some m) = unless_empty (record {
    set = parse_headers (or_zero [] (u.nested_slice o ("spec" ∷ "headerMutation" ∷ "set" ∷ [])));
    remove = or_zero [] (u.nested_string_slice o ("spec" ∷ "headerMutation" ∷ "remove" ∷ []));
  })

  -- parseAIServiceBackend
  unfoldable pub parse_service_backend : GoMap → AiServiceBackend
  unfolding parse_backend_ref parse_mutation
  parse_service_backend o = record {
    name = u.get_name o;
    namespace = u.get_namespace o;
    schema = or_zero "" (u.nested_string o ("spec" ∷ "schema" ∷ "name" ∷ []));
    backend_ref = parse_backend_ref (u.nested_map o ("spec" ∷ "backendRef" ∷ []));
    header_mutation = parse_mutation o (u.nested_map o ("spec" ∷ "headerMutation" ∷ []));
    labels = u.get_labels o;
  }

module _ (u : Unstructured) (d : Dynamic) (c : Settings) where
  -- CreateServiceBackend
  unfoldable pub create_service_backend : AiServiceBackend → Act d.State (Unit {0})
  create_service_backend b = do
    created ← wrapping "create aiservicebackend" (
        d.create ai_service_backend (namespace_or c.default_ns b.namespace)
          (build_service_backend b))
    pure tt

  -- UpdateServiceBackend
  unfoldable pub update_service_backend : AiServiceBackend → Act d.State (Unit {0})
  update_service_backend b = do
    let namespace = namespace_or c.default_ns b.namespace
    existing ← wrapping "get aiservicebackend" (d.read ai_service_backend namespace b.name)
    let o = u.set_resource_version (u.get_resource_version existing) (build_service_backend b)
    updated ← wrapping "update aiservicebackend" (d.update ai_service_backend namespace o)
    pure tt

  -- DeleteServiceBackend
  unfoldable pub delete_service_backend : String → String → Act d.State (Unit {0})
  delete_service_backend namespace name =
      wrapping "delete aiservicebackend"
        (d.delete ai_service_backend (namespace_or c.default_ns namespace) name)

  -- GetServiceBackend
  unfoldable pub get_service_backend : String → String → Act d.State AiServiceBackend
  get_service_backend namespace name = do
    o ←
        wrapping "get aiservicebackend"
          (d.read ai_service_backend (namespace_or c.default_ns namespace) name)
    pure (parse_service_backend u o)

  -- ListServiceBackends
  unfoldable pub list_service_backends : String → Act d.State (List AiServiceBackend)
  list_service_backends namespace = do
    found ←
        wrapping "list aiservicebackends"
          (d.list ai_service_backend (namespace_or c.default_ns namespace))
    pure (map (parse_service_backend u) found)
