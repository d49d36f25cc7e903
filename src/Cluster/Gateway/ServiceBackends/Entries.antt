-- ===== src/Cluster/Gateway/ServiceBackends/Entries.antt =====
-- The entries of the spec of an AIServiceBackend, as they are written and read.
use model_registry_service.Base.{
  String, ◌≡◌, refl, ap, ◌∙◌, Bool, true, false, not, Option, none, some, List, [], ◌∷◌, map, arith,
  if◌then◌else◌, str_eq, str_eq_iff,
}
use model_registry_service.Cluster.Json.{
  Value, text, texts, arr, obj, GoMap, slice, items, object, get, put, put_if, as_slice, or_zero,
  wire, wire_map, wire_option,
}
use model_registry_service.Cluster.Server.{all_texts, as_texts}
use model_registry_service.Cluster.Server.Reads.{get-put_if, get-put_if_self, as_slice-wire}
use model_registry_service.Cluster.Gateway.{is_set, is_empty, managed}
use model_registry_service.Cluster.Gateway.ServiceBackends.{
  HttpHeader, HeaderMutation, BackendRef, AiServiceBackend, no_ref, ref_map, header_map,
  mutation_map, mutates, put_mutation, service_backend_spec, parse_backend_ref, parse_headers,
  unless_empty,
}

-- A reference without a name is not written, nor is a mutation that changes nothing.
abbrev pub recorded_ref : BackendRef → BackendRef
recorded_ref r = if is_set r.name then r else no_ref

abbrev pub recorded_mutation : Option HeaderMutation → Option HeaderMutation
recorded_mutation none = none
recorded_mutation (some h) = unless_empty h

abbrev pub recorded_service_backend : String → AiServiceBackend → AiServiceBackend
recorded_service_backend namespace b = record {
  name = b.name;
  namespace = namespace;
  schema = b.schema;
  backend_ref = recorded_ref b.backend_ref;
  header_mutation = recorded_mutation b.header_mutation;
  labels = some (managed b.labels);
}

-- The entries of a reference, whichever tests let the optional ones in.
parse_ref_entries :
    (x y z : Bool) (name ns group kind : String)
    → parse_backend_ref (
        some (
          wire_map (
            put_if z "kind" (text kind) (
              put_if y "group"
                (text group)
                (put_if x "namespace" (text ns) (object (("name", text name) ∷ [])))))))
      ≡ record {
        name = name;
        namespace = if x then ns else "";
        group = if y then group else "";
        kind = if z then kind else "";
      }
unfolding parse_backend_ref put get object wire
parse_ref_entries true true true name ns group kind = refl
parse_ref_entries true true false name ns group kind = refl
parse_ref_entries true false true name ns group kind = refl
parse_ref_entries true false false name ns group kind = refl
parse_ref_entries false true true name ns group kind = refl
parse_ref_entries false true false name ns group kind = refl
parse_ref_entries false false true name ns group kind = refl
parse_ref_entries false false false name ns group kind = refl

if_set : (s : String) → (if is_set s then s else "") ≡ s
if_set s = ground (arith, str_eq_iff s "")

pub parse_backend_ref-ref_map :
    (r : BackendRef) → parse_backend_ref (some (wire_map (ref_map r))) ≡ r
unfolding ref_map
parse_backend_ref-ref_map r =
    rw
      (
        parse_ref_entries (is_set r.namespace) (is_set r.group) (is_set r.kind) r.name r.namespace
            r.group r.kind,
        if_set r.namespace,
        if_set r.group,
        if_set r.kind,
      )
      refl

parse_headers-header_map :
    (hs : List HttpHeader) → parse_headers (map wire (map header_map hs)) ≡ hs
unfolding parse_headers wire object get
parse_headers-header_map [] = refl
parse_headers-header_map (h ∷ hs) =
    ap (λ (ks : List HttpHeader). h ∷ ks) (parse_headers-header_map hs)

all_texts-slice : (ss : List String) → all_texts (slice (map text ss)) ≡ some ss
unfolding all_texts slice
all_texts-slice [] = refl
all_texts-slice (s ∷ ss) = rw (all_texts-slice ss) refl

get-put_mutation :
    (h : Option HeaderMutation) (k : String) (m : GoMap)
    → str_eq "headerMutation" k ≡ false
    → get k (put_mutation h m) ≡ get k m
unfolding put_mutation
get-put_mutation none k m other = refl
get-put_mutation (some h) k m other = get-put_if (mutates h) "headerMutation" k _ m other

-- What a mutation is written as.
abbrev pub mutation_value : Option HeaderMutation → Option Value
mutation_value none = none
mutation_value (some h) = if mutates h then some (obj (mutation_map h)) else none

get-put_mutation_self :
    (h : Option HeaderMutation) (m : GoMap)
    → get "headerMutation" m ≡ none
    → get "headerMutation" (put_mutation h m) ≡ mutation_value h
unfolding put_mutation
get-put_mutation_self none m absent = absent
get-put_mutation_self (some h) m absent =
    get-put_if_self (mutates h) "headerMutation" _ m ∙ rw absent refl

-- The entries of the spec.
pub get_ref :
    (b : AiServiceBackend)
    → get "backendRef" (service_backend_spec b)
      ≡ (if is_set b.backend_ref.name then some (obj (ref_map b.backend_ref)) else none)
unfolding service_backend_spec
get_ref b =
    get-put_mutation b.header_mutation "backendRef" _ refl
    ∙ get-put_if_self (is_set b.backend_ref.name) "backendRef" (obj (ref_map b.backend_ref)) _
    ∙ unfold get in unfold object in refl

pub get_mutation :
    (b : AiServiceBackend)
    → get "headerMutation" (service_backend_spec b) ≡ mutation_value b.header_mutation
unfolding service_backend_spec
get_mutation b = get-put_mutation_self b.header_mutation _ (
    get-put_if (is_set b.backend_ref.name) "backendRef" "headerMutation"
      (obj (ref_map b.backend_ref)) _ refl
    ∙ unfold get in unfold object in refl)

pub get_schema :
    (b : AiServiceBackend)
    → get "schema" (service_backend_spec b) ≡ some (obj (object (("name", text b.schema) ∷ [])))
unfolding service_backend_spec
get_schema b =
    get-put_mutation b.header_mutation "schema" _ refl
    ∙ get-put_if (is_set b.backend_ref.name) "backendRef" "schema" (obj (ref_map b.backend_ref)) _
        refl
    ∙ unfold get in unfold object in refl

-- The entries of a mutation.
pub get_set :
    (h : HeaderMutation)
    → get "set" (mutation_map h)
      ≡ (if not (is_empty h.set) then some (arr (slice (map header_map h.set))) else none)
unfolding mutation_map
get_set h =
    get-put_if (not (is_empty h.remove)) "remove" "set" (texts h.remove) _ refl
    ∙ get-put_if_self (not (is_empty h.set)) "set" (arr (slice (map header_map h.set)))
        GoMap.no_keys
    ∙ unfold get in refl

pub get_remove :
    (h : HeaderMutation)
    → get "remove" (mutation_map h)
      ≡ (if not (is_empty h.remove) then some (texts h.remove) else none)
unfolding mutation_map
get_remove h =
    get-put_if_self (not (is_empty h.remove)) "remove" (texts h.remove) _
    ∙ rw
        (get-put_if (not (is_empty h.set)) "set" "remove" (arr (slice (map header_map h.set)))
          GoMap.no_keys refl)
        (unfold get in refl)

pub read_set :
    (hs : List HttpHeader)
    → parse_headers (
        or_zero [] (
          as_slice (
            wire_option
              (if not (is_empty hs) then some (arr (slice (map header_map hs))) else none))))
      ≡ hs
unfolding items parse_headers
read_set [] = refl
read_set (h ∷ hs) = rw (as_slice-wire (map header_map (h ∷ hs))) (parse_headers-header_map (h ∷ hs))

pub read_remove :
    (ss : List String)
    → or_zero [] (as_texts (wire_option (if not (is_empty ss) then some (texts ss) else none))) ≡ ss
unfolding all_texts wire
read_remove [] = refl
read_remove (s ∷ ss) = rw (all_texts-slice (s ∷ ss)) refl
