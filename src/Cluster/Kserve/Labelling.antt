-- ===== src/Cluster/Kserve/Labelling.antt =====
-- The labels of the objects that kserve/client.go creates.
use model_registry_service.Base.{
  String, ◌≡◌, refl, ap, ◌∙◌, Bool, true, false, Option, none, some, List, [], ◌∷◌, if◌then◌else◌,
  str_eq,
}
use model_registry_service.Domain.Result.{ok}
use model_registry_service.Domain.Traffic.{Uuid}
use model_registry_service.Domain.Serving.{InferenceService}
use model_registry_service.Domain.Registry.{ModelVersion}
use model_registry_service.Cluster.Json.{Value, text, GoMap, get, put, object, get-put}
use model_registry_service.Cluster.Server.{at, walk}
use model_registry_service.Cluster.Kserve.{
  merge_labels, registry_labels, service_labels, service_object, build_inference_service,
}

-- What the map of a service has under a key.
abbrev pub label_of : String → List (String × String) → Option String
label_of key [] = none
label_of key ((k, v) ∷ kvs) = elim (label_of key kvs) [
  | none ↦ if str_eq k key then some v else none
  | some w ↦ some w
]

abbrev pub or_value : Option String → Option Value → Option Value
or_value none v = v
or_value (some s) v = some (text s)

overridden :
    (o : Option String) (b : Bool) (v : String) (w : Option Value)
    → or_value o (if b then some (text v) else w)
      ≡ or_value (elim o [ none ↦ if b then some v else none | some x ↦ some x ]) w
overridden none true v w = refl
overridden none false v w = refl
overridden (some x) b v w = refl

get-merge_labels :
    (key : String) (kvs : List (String × String)) (m : GoMap)
    → get key (merge_labels kvs m) ≡ or_value (label_of key kvs) (get key m)
unfolding merge_labels
get-merge_labels key [] m = refl
get-merge_labels key ((k, v) ∷ kvs) m =
    get-merge_labels key kvs (put k (text v) m)
    ∙ ap (or_value (label_of key kvs)) (get-put k key (text v) m)
    ∙ overridden (label_of key kvs) (str_eq k key) v (get key m)

-- The label of the registry under a key.
abbrev pub registry_label :
    (Uuid → String) → String → InferenceService → ModelVersion → Option Value
registry_label uuid_text key isvc version = get key (registry_labels uuid_text isvc version)

-- The object that Deploy creates has under every key of its labels the label of the service, if the
-- service has one there, and else the label of the registry: a label of the service under the key
-- of a version, a model or a service takes the place of the identifier.
pub build_inference_service-labels :
    (uuid_text : Uuid → String) (labels : List (String × String)) (isvc : InferenceService)
    (version : ModelVersion) (key : String)
    → (build_inference_service uuid_text labels isvc (some version)
        ≡ ok (service_object uuid_text labels isvc version))
      × (at ("metadata" ∷ "labels" ∷ key ∷ []) (service_object uuid_text labels isvc version)
          ≡ or_value (label_of key labels) (registry_label uuid_text key isvc version))
unfolding build_inference_service service_object walk object get service_labels
build_inference_service-labels uuid_text labels isvc version key =
    (refl, get-merge_labels key labels (registry_labels uuid_text isvc version))
