-- ===== src/Cluster/Server/Reads.antt =====
-- What the accessors read of an object that was sent.
use model_registry_service.Base.{
  String, ◌≡◌, refl, ap, ◌∙◌, Bool, true, false, some, List, [], ◌∷◌, map, str_eq, str_eq_iff,
  if◌then◌else◌,
}
use model_registry_service.Cluster.Json.{
  Value, arr, obj, GoMap, get, put_if, get-put, as_slice, as_map, slice, items, wire, wire_option,
  wire_map, items-slice, get-wire_map, wire_slice-slice,
}
use model_registry_service.Cluster.Server.{Unstructured, IsUnstructured, Delivers, walk, at}

-- A key that an optional entry does not have.
pub get-put_if :
    (b : Bool) (key k : String) (v : Value) (m : GoMap)
    → str_eq key k ≡ false
    → get k (put_if b key v m) ≡ get k m
get-put_if true key k v m other = rw (get-put key k v m, other) refl
get-put_if false key k v m other = refl

pub get-put_if_self :
    (b : Bool) (k : String) (v : Value) (m : GoMap)
    → get k (put_if b k v m) ≡ (if b then some v else get k m)
get-put_if_self true k v m = rw (get-put k k v m, (str_eq_iff k k).1 refl) refl
get-put_if_self false k v m = refl

-- What a slice that was written is read as.
pub as_slice-wire :
    (vs : List Value) → as_slice (wire_option (some (arr (slice vs)))) ≡ some (map wire vs)
unfolding wire items
as_slice-wire vs = ap some (ap items (wire_slice-slice vs) ∙ items-slice (map wire vs))

module _ {u : Unstructured} (laws : IsUnstructured u) where
  -- A slice of an object that was part of one that was sent.
  pub slice_of_map :
      (m : GoMap) (k : String)
      → u.nested_slice (wire_map m) (k ∷ []) ≡ as_slice (wire_option (get k m))
  unfolding walk
  slice_of_map m k = laws.slice_at (wire_map m) (k ∷ []) ∙ ap as_slice (get-wire_map k m)

-- What stands below a key of the spec that was sent.
pub at_of_key :
    (got m : GoMap) (k : String) (p : List String)
    → get "spec" got ≡ some (obj (wire_map m))
    → at ("spec" ∷ k ∷ p) got ≡ walk p (wire_option (get k m))
unfolding walk
at_of_key got m k p spec = ap (walk (k ∷ p)) spec ∙ ap (walk p) (get-wire_map k m)

module _ {u : Unstructured} (laws : IsUnstructured u) (got m : GoMap)
    (spec : get "spec" got ≡ some (obj (wire_map m))) where
  pub slice_of_key :
      (k : String) → u.nested_slice got ("spec" ∷ k ∷ []) ≡ as_slice (wire_option (get k m))
  unfolding walk
  slice_of_key k = laws.slice_at got ("spec" ∷ k ∷ []) ∙ ap as_slice (at_of_key got m k [] spec)

  pub map_of_key :
      (k : String) → u.nested_map got ("spec" ∷ k ∷ []) ≡ as_map (wire_option (get k m))
  unfolding walk
  map_of_key k = laws.map_at got ("spec" ∷ k ∷ []) ∙ ap as_map (at_of_key got m k [] spec)

-- A new resource version changes nothing of what is delivered.
pub Delivers-version :
    {u : Unstructured} (laws : IsUnstructured u) (v : String) (m got : GoMap)
    → Delivers u (u.set_resource_version v m) got
    → Delivers u m got
Delivers-version laws v m got sent = record {
  name = sent.name ∙ (laws.version_only v m).name;
  labels = sent.labels ∙ (laws.version_only v m).labels;
  spec = sent.spec ∙ ap wire_option (laws.version_only v m).spec;
}
