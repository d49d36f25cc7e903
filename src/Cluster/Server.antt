-- ===== src/Cluster/Server.antt =====
-- What the clients use of k8s.io: the accessors of unstructured.Unstructured and the dynamic
-- client, as parameters, with what their documentation says as laws.
pub mod Reads
pub mod Keeps
pub mod Leads
use model_registry_service.Base.{
  String, ◌≡◌, Bool, if◌then◌else◌, Option, none, some, List, [], ◌∷◌,
}
use model_registry_service.Domain.Result.{Error, Result, ok, err, panic}
use model_registry_service.Cluster.Json.{
  Value, GoMap, Slice, get, as_text, as_map, as_slice, or_zero, wire_option,
}

-- A map[string]string, nil or made.
abbrev pub Labels : Type 0
Labels = Option (List (String × String))

-- What stands at a path of keys.
unfoldable pub walk : List String → Option Value → Option Value
walk [] v = v
walk (k ∷ p) (some (Value.obj m)) = walk p (get k m)
walk (k ∷ p) _ = none

abbrev pub at : List String → GoMap → Option Value
at p m = walk p (some (Value.obj m))

-- The texts of a slice, if it holds nothing else.
unfoldable pub all_texts : Slice → Option (List String)
all_texts Slice.no_more = some []
all_texts (Slice.then_value (Value.text s) vs) = elim (all_texts vs) [
  | none ↦ none
  | some ss ↦ some (s ∷ ss)
]
all_texts (Slice.then_value _ vs) = none

abbrev pub as_texts : Option Value → Option (List String)
unfolding all_texts
as_texts (some (Value.arr vs)) = all_texts vs
as_texts _ = none

-- The map of texts, if it holds nothing else.
unfoldable pub text_map : GoMap → Option (List (String × String))
text_map GoMap.no_keys = some []
text_map (GoMap.pair k (Value.text s) m) = elim (text_map m) [
  | none ↦ none
  | some ss ↦ some ((k, s) ∷ ss)
]
text_map (GoMap.pair k _ m) = none

abbrev pub as_labels : Option Value → Labels
unfolding text_map
as_labels (some (Value.obj m)) = text_map m
as_labels _ = none

-- NestedSlice and its kin: a copy of what stands at the path, and `none` where they report that it
-- is missing or of another type.
pub record Unstructured : Type 0 where
  pub nested_slice : GoMap → List String → Option (List Value)
  pub nested_map : GoMap → List String → Option GoMap
  pub nested_string : GoMap → List String → Option String
  pub nested_string_slice : GoMap → List String → Option (List String)
  pub get_name : GoMap → String
  pub get_namespace : GoMap → String
  pub get_uid : GoMap → String
  pub get_labels : GoMap → Labels
  pub get_resource_version : GoMap → String
  pub set_resource_version : String → GoMap → GoMap

-- The objects differ in nothing that the clients read.
pub record SameContent (u : Unstructured) (a b : GoMap) : Type 0 where
  pub name : u.get_name a ≡ u.get_name b
  pub labels : u.get_labels a ≡ u.get_labels b
  pub spec : get "spec" a ≡ get "spec" b

pub record IsUnstructured (u : Unstructured) : Type 0 where
  pub slice_at : (m : GoMap) (p : List String) → u.nested_slice m p ≡ as_slice (at p m)
  pub map_at : (m : GoMap) (p : List String) → u.nested_map m p ≡ as_map (at p m)
  pub string_at : (m : GoMap) (p : List String) → u.nested_string m p ≡ as_text (at p m)
  pub strings_at : (m : GoMap) (p : List String) → u.nested_string_slice m p ≡ as_texts (at p m)
  pub name_at : (m : GoMap) → u.get_name m ≡ or_zero "" (as_text (at ("metadata" ∷ "name" ∷ []) m))
  pub labels_at : (m : GoMap) → u.get_labels m ≡ as_labels (at ("metadata" ∷ "labels" ∷ []) m)
  pub version_only : (v : String) (m : GoMap) → SameContent u (u.set_resource_version v m) m

-- A call of the dynamic client on the state of the cluster.
abbrev pub Act : Type 0 → Type 0 → Type 0
Act S A = S → Result A × S

abbrev pub pure : {S A : Type 0} → A → Act S A
pure a s = (ok a, s)

module _ {S A B : Type 0} where
  abbrev pub continue : Result A → (A → Act S B) → Act S B
  continue (ok a) f s = f a s
  continue (err e) f s = (err e, s)
  continue panic f s = (panic, s)

  infixl 5 ◌>>=◌
  unfoldable pub ◌>>=◌ : Act S A → (A → Act S B) → Act S B
  ◌>>=◌ m f s = let (r, s') = m s in continue r f s'

abbrev pub drop : {A : Type 0} → Result A → Result (Unit {0})
drop (ok a) = ok tt
drop (err e) = ok tt
drop panic = panic

module _ {S A : Type 0} where
  abbrev pub raise : Error → Act S A
  raise e s = (err e, s)

  abbrev pub lift : Result A → Act S A
  lift r s = (r, s)

  abbrev pub gets : (S → A) → Act S A
  gets f s = (ok (f s), s)

  -- A pointer that the code has tested for nil.
  abbrev pub or_raise : Error → Option A → Act S A
  or_raise e none s = (err e, s)
  or_raise e (some a) s = (ok a, s)

  -- A call whose error is dropped or only logged.
  unfoldable pub ignore : Act S A → Act S (Unit {0})
  ignore m s = let (r, s') = m s in (drop r, s')

abbrev pub modify : {S : Type 0} → (S → S) → Act S (Unit {0})
modify f s = (ok tt, f s)

abbrev pub raise_if : {S : Type 0} → Bool → Error → Act S (Unit {0})
raise_if b e s = (if b then err e else ok tt, s)

infixl 5 ◌>>◌
abbrev pub ◌>>◌ : {S B : Type 0} → Act S (Unit {0}) → Act S B → Act S B
m >> k = m >>= λ _. k

-- return fmt.Errorf("text: %w", err)
abbrev pub wrap : {A : Type 0} → String → Result A → Result A
wrap text (ok a) = ok a
wrap text (err e) = err (Error.wrapped text e)
wrap text panic = panic

unfoldable pub wrapping : {S A : Type 0} → String → Act S A → Act S A
wrapping text m s = let (r, s') = m s in (wrap text r, s')

-- The group, version and resource of a kind of objects.
pub data Resource : Type 0 where
  ai_gateway_route ai_service_backend backend_traffic_policy backend : Resource
  inference_service : Resource

-- dynamic.Interface: each call names a resource and a namespace.
pub record Dynamic : Type 1 where
  pub State : Type 0
  pub create : Resource → String → GoMap → Act State GoMap
  pub update : Resource → String → GoMap → Act State GoMap
  pub read : Resource → String → String → Act State GoMap
  pub list : Resource → String → Act State (List GoMap)
  pub delete : Resource → String → String → Act State (Unit {0})

-- What is read is the object as it was sent.
pub record Delivers (u : Unstructured) (sent got : GoMap) : Type 0 where
  pub name : u.get_name got ≡ u.get_name sent
  pub labels : u.get_labels got ≡ u.get_labels sent
  pub spec : get "spec" got ≡ wire_option (get "spec" sent)

-- An ideal server: it fills in no defaults and prunes no fields of the objects that it stores.
pub record IsServer (u : Unstructured) (d : Dynamic) : Type 0 where
  pub read_named :
      (r : Resource) (ns name : String) (s s' : d.State) (got : GoMap)
      → d.read r ns name s ≡ (ok got, s')
      → (u.get_name got ≡ name) × (u.get_namespace got ≡ ns)
  pub read_updated :
      (r : Resource) (ns : String) (sent answer got : GoMap) (s s' s'' : d.State)
      → d.update r ns sent s ≡ (ok answer, s')
      → d.read r ns (u.get_name sent) s' ≡ (ok got, s'')
      → Delivers u sent got
  pub read_created :
      (r : Resource) (ns : String) (sent answer got : GoMap) (s s' s'' : d.State)
      → d.create r ns sent s ≡ (ok answer, s')
      → d.read r ns (u.get_name sent) s' ≡ (ok got, s'')
      → Delivers u sent got
