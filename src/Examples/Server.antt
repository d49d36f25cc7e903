-- ===== src/Examples/Server.antt =====
-- A small server that keeps the laws of the cluster.
use model_registry_service.Base.{
  String, ◌≡◌, refl, sym, ap, ◌∙◌, ◌<>◌, Bool, true, false, ◌&&◌, Option, none, some, List, [], ◌∷◌,
  arith, if◌then◌else◌, str_eq, str_eq_iff, subst, Bool-cases, inl, inr,
}
use model_registry_service.Domain.Result.{Result, ok, err, message}
use model_registry_service.Cluster.Json.{
  Value, text, obj, GoMap, pair, no_keys, get, put, get-put, as_text, as_map, as_slice, or_zero,
  wire, wire_option,
}
use model_registry_service.Cluster.Server.{
  Unstructured, IsUnstructured, Dynamic, IsServer, Delivers, Act, Resource, at, walk, as_texts,
  as_labels,
}

unfoldable pub with_version : String → Option Value → GoMap → GoMap
with_version v (some (Value.obj meta)) m =
    put "metadata" (obj (put "resourceVersion" (text v) meta)) m
with_version v _ m = m

abbrev pub accessors : Unstructured
accessors = record {
  nested_slice = λ m p. as_slice (at p m);
  nested_map = λ m p. as_map (at p m);
  nested_string = λ m p. as_text (at p m);
  nested_string_slice = λ m p. as_texts (at p m);
  get_name = λ m. or_zero "" (as_text (at ("metadata" ∷ "name" ∷ []) m));
  get_namespace = λ m. or_zero "" (as_text (at ("metadata" ∷ "namespace" ∷ []) m));
  get_uid = λ m. or_zero "" (as_text (at ("metadata" ∷ "uid" ∷ []) m));
  get_labels = λ m. as_labels (at ("metadata" ∷ "labels" ∷ []) m);
  get_resource_version = λ m. or_zero "" (as_text (at ("metadata" ∷ "resourceVersion" ∷ []) m));
  set_resource_version = λ v m. with_version v (get "metadata" m) m;
}

version_kept :
    (v : String) (m : GoMap) (o : Option Value)
    → get "metadata" m ≡ o
    → (k : String) → str_eq "resourceVersion" k ≡ false
    → at ("metadata" ∷ k ∷ []) (with_version v o m) ≡ at ("metadata" ∷ k ∷ []) m
unfolding with_version walk
version_kept v m (some (Value.obj meta)) e k other =
    ap (walk (k ∷ [])) (get-put "metadata" "metadata" (obj (put "resourceVersion" (text v) meta)) m)
    ∙ get-put "resourceVersion" k (text v) meta
    ∙ rw other refl
    ∙ ap (walk (k ∷ [])) (sym e)
version_kept v m none e k other = refl
version_kept v m (some _) e k other = refl

spec_kept :
    (v : String) (m : GoMap) (o : Option Value) → get "spec" (with_version v o m) ≡ get "spec" m
unfolding with_version
spec_kept v m (some (Value.obj meta)) =
    get-put "metadata" "spec" (obj (put "resourceVersion" (text v) meta)) m
spec_kept v m none = refl
spec_kept v m (some _) = refl

pub accessors-IsUnstructured : IsUnstructured accessors
accessors-IsUnstructured = record {
  slice_at = λ m p. refl;
  map_at = λ m p. refl;
  string_at = λ m p. refl;
  strings_at = λ m p. refl;
  name_at = λ m. refl;
  labels_at = λ m. refl;
  version_only = λ v m. record {
    name =
        ap (λ (w : Option Value). or_zero "" (as_text w))
          (version_kept v m (get "metadata" m) refl "name" refl);
    labels = ap as_labels (version_kept v m (get "metadata" m) refl "labels" refl);
    spec = spec_kept v m (get "metadata" m);
  };
}

-- The object that the server keeps.
abbrev pub spec_entry : Option Value → GoMap
spec_entry none = no_keys
spec_entry (some v) = pair "spec" (wire v) no_keys

abbrev pub kept : String → GoMap → GoMap
kept ns o =
    pair "metadata" (obj (pair "namespace" (text ns) (or_zero no_keys (as_map (get "metadata" o)))))
      (spec_entry (get "spec" o))

abbrev pub resource_eq : Resource → Resource → Bool
resource_eq Resource.ai_gateway_route Resource.ai_gateway_route = true
resource_eq Resource.ai_service_backend Resource.ai_service_backend = true
resource_eq Resource.backend_traffic_policy Resource.backend_traffic_policy = true
resource_eq Resource.backend Resource.backend = true
resource_eq Resource.inference_service Resource.inference_service = true
resource_eq _ _ = false

abbrev pub Objects : Type 0
Objects = List (Resource × GoMap)

abbrev pub is_named : Resource → String → String → Resource → GoMap → Bool
is_named r ns name r' o =
    resource_eq r r' && str_eq (accessors.get_namespace o) ns && str_eq (accessors.get_name o) name

unfoldable pub find_object : Resource → String → String → Objects → Result GoMap
find_object r ns name [] = err (message ("object " <> name <> " not found"))
find_object r ns name ((r', o) ∷ s) =
    let rest = find_object r ns name s in if is_named r ns name r' o then ok o else rest

unfoldable pub list_objects : Resource → String → Objects → List GoMap
list_objects r ns [] = []
list_objects r ns ((r', o) ∷ s) =
    let rest = list_objects r ns s in
    if resource_eq r r' && str_eq (accessors.get_namespace o) ns then o ∷ rest else rest

abbrev pub put_object : Resource → String → GoMap → Act Objects GoMap
put_object r ns o s = (ok (kept ns o), (r, kept ns o) ∷ s)

-- A server that never removes.
abbrev pub server : Dynamic
server = record {
  State = Objects;
  create = put_object;
  update = put_object;
  read = λ r ns name s. (find_object r ns name s, s);
  list = λ r ns s. (ok (list_objects r ns s), s);
  delete = λ r ns name s. (err (message ("object " <> name <> " not found")), s);
}

meta_kept :
    (ns k : String) (v : Option Value)
    → str_eq "namespace" k ≡ false
    → walk (k ∷ []) (some (obj (pair "namespace" (text ns) (or_zero no_keys (as_map v)))))
      ≡ walk (k ∷ []) v
unfolding walk get
meta_kept ns k none other = rw other refl
meta_kept ns k (some (Value.obj m)) other = rw other refl
meta_kept ns k (some _) other = rw other refl

entry_kept : (v : Option Value) → get "spec" (spec_entry v) ≡ wire_option v
unfolding get
entry_kept none = refl
entry_kept (some v) = refl

kept-Delivers : (ns : String) (o : GoMap) → Delivers accessors o (kept ns o)
unfolding walk get
kept-Delivers ns o = record {
  name =
      ap (λ (w : Option Value). or_zero "" (as_text w))
        (meta_kept ns "name" (get "metadata" o) refl);
  labels = ap as_labels (meta_kept ns "labels" (get "metadata" o) refl);
  spec = entry_kept (get "spec" o);
}

is_named-true :
    (r : Resource) (ns name : String) (r' : Resource) (o : GoMap)
    → is_named r ns name r' o ≡ true
    → (accessors.get_name o ≡ name) × (accessors.get_namespace o ≡ ns)
is_named-true r ns name r' o h =
    ground
      (arith, str_eq_iff (accessors.get_name o) name, str_eq_iff (accessors.get_namespace o) ns)

ok_inj : {A : Type 0} {a b : A} → ok a ≡ ok b → a ≡ b
ok_inj e = cc

find_object-named :
    (r : Resource) (ns name : String) (s : Objects) (got : GoMap)
    → find_object r ns name s ≡ ok got
    → (accessors.get_name got ≡ name) × (accessors.get_namespace got ≡ ns)
unfolding find_object
find_object-named r ns name [] got h = cc
find_object-named r ns name ((r', o) ∷ s) got h = elim (Bool-cases (is_named r ns name r' o)) [
  | inl e ↦
      subst (λ (x : GoMap). (accessors.get_name x ≡ name) × (accessors.get_namespace x ≡ ns))
        (ok_inj (rw e at h)) (is_named-true r ns name r' o e)
  | inr e ↦ find_object-named r ns name s got (rw e at h)
]

resource_eq_self : (r : Resource) → resource_eq r r ≡ true
resource_eq_self Resource.ai_gateway_route = refl
resource_eq_self Resource.ai_service_backend = refl
resource_eq_self Resource.backend_traffic_policy = refl
resource_eq_self Resource.backend = refl
resource_eq_self Resource.inference_service = refl

is_named-kept :
    (r : Resource) (ns : String) (o : GoMap)
    → is_named r ns (accessors.get_name o) r (kept ns o) ≡ true
is_named-kept r ns o =
    rw
      (
        resource_eq_self r,
        (kept-Delivers ns o).name,
        (str_eq_iff (accessors.get_name o) (accessors.get_name o)).1 refl,
      )
      (unfold walk in unfold get in rw ((str_eq_iff ns ns).1 refl) refl)

find_object-kept :
    (r : Resource) (ns : String) (o : GoMap) (s : Objects)
    → find_object r ns (accessors.get_name o) ((r, kept ns o) ∷ s) ≡ ok (kept ns o)
unfolding find_object
find_object-kept r ns o s = rw (is_named-kept r ns o) refl

-- An object that was put is delivered.
put_object-read :
    (r : Resource) (ns : String) (sent answer got : GoMap) (s s' s'' : Objects)
    → put_object r ns sent s ≡ (ok answer, s')
    → server.read r ns (accessors.get_name sent) s' ≡ (ok got, s'')
    → Delivers accessors sent got
put_object-read r ns sent answer got s s' s'' p q =
    let state : s' ≡ (r, kept ns sent) ∷ s = sym (ap (λ (x : Result GoMap × Objects). x.1) p) in
    let found : find_object r ns (accessors.get_name sent) s' ≡ ok got =
      ap (λ (x : Result GoMap × Objects). x.0) q in
    subst (Delivers accessors sent)
      (ok_inj (
        sym (find_object-kept r ns sent s)
        ∙ ap (find_object r ns (accessors.get_name sent)) (sym state)
        ∙ found))
      (kept-Delivers ns sent)

pub server-IsServer : IsServer accessors server
server-IsServer = record {
  read_named = λ r ns name s s' got q.
      find_object-named r ns name s got (ap (λ (x : Result GoMap × Objects). x.0) q);
  read_updated = put_object-read;
  read_created = put_object-read;
}
