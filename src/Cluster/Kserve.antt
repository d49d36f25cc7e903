-- ===== src/Cluster/Kserve.antt =====
-- The client of KServe, internal/adapters/secondary/kserve/client.go. The labels of a service, which
-- the other components do not read, are an argument, and so is uuid.UUID.String().
pub mod Labelling
use model_registry_service.Base.{
  String, Bool, true, false, Option, none, some, List, [], ◌∷◌, if◌then◌else◌, str_eq,
}
use model_registry_service.Domain.Result.{Result, ok, panic}
use model_registry_service.Domain.Traffic.{Uuid}
use model_registry_service.Domain.Serving.{InferenceService}
use model_registry_service.Domain.Registry.{ModelVersion}
use model_registry_service.Store.World.{KserveDeployment, KserveStatus}
use model_registry_service.Cluster.Json.{
  Value, text, obj, GoMap, object, get, put, put_if, as_text, or_zero,
}
use model_registry_service.Cluster.Server.{
  Unstructured, Dynamic, Act, pure, ◌>>=◌, wrapping, inference_service,
}
use model_registry_service.Cluster.Gateway.{namespace_or, is_set}

-- for k, v := range isvc.Labels { labels[k] = v }
unfoldable pub merge_labels : List (String × String) → GoMap → GoMap
merge_labels [] m = m
merge_labels ((k, v) ∷ kvs) m = merge_labels kvs (put k (text v) m)

module _ (uuid_text : Uuid → String) where
  -- The labels of the registry.
  unfoldable pub registry_labels : InferenceService → ModelVersion → GoMap
  registry_labels isvc version =
      put "modelregistry.ai-platform/model-version-id" (text (uuid_text version.id)) (
        object (
          ("modelregistry.ai-platform/inference-service-id", text (uuid_text isvc.id))
          ∷ (
            "modelregistry.ai-platform/registered-model-id",
            text (uuid_text isvc.registered_model_id),
          )
          ∷ []))

  unfoldable pub service_labels : List (String × String) → InferenceService → ModelVersion → GoMap
  unfolding merge_labels registry_labels
  service_labels labels isvc version = merge_labels labels (registry_labels isvc version)

unfoldable pub model_format : ModelVersion → GoMap
model_format version =
    put_if (is_set version.model_framework_version) "version" (text version.model_framework_version)
      (object (("name", text version.model_framework) ∷ []))

unfoldable pub model_spec : ModelVersion → GoMap
unfolding model_format
model_spec version =
    put_if (is_set version.container_image) "runtime" (text version.container_image) (
      put_if (is_set version.model_framework) "modelFormat" (obj (model_format version))
        (object (("storageUri", text version.uri) ∷ [])))

unfoldable pub service_object :
    (Uuid → String) → List (String × String) → InferenceService → ModelVersion → GoMap
unfolding service_labels model_spec
service_object uuid_text labels isvc version = object (
    ("apiVersion", text "serving.kserve.io/v1beta1")
    ∷ ("kind", text "InferenceService")
    ∷ (
      "metadata",
      obj (
          object (
            ("name", text isvc.name)
            ∷ ("labels", obj (service_labels uuid_text labels isvc version))
            ∷ [])),
    )
    ∷ (
      "spec",
      obj (object (("predictor", obj (object (("model", obj (model_spec version)) ∷ []))) ∷ [])),
    )
    ∷ [])

-- buildInferenceServiceCR; version.URI is read without a test for nil.
unfoldable pub build_inference_service :
    (Uuid → String) → List (String × String) → InferenceService → Option ModelVersion → Result GoMap
unfolding service_object
build_inference_service uuid_text labels isvc none = panic
build_inference_service uuid_text labels isvc (some version) =
    ok (service_object uuid_text labels isvc version)

-- What the first condition of type Ready says.
unfoldable pub read_ready : GoMap → KserveStatus → KserveStatus
read_ready m status =
    let state = or_zero "" (as_text (get "status" m)) in
    record status {
      ready = str_eq state "True";
      error =
          if str_eq state "False"
          then or_zero status.error (as_text (get "message" m))
          else status.error;
    }

-- The loop over the conditions, which ends at the first of type Ready.
unfoldable pub read_conditions : List Value → KserveStatus → KserveStatus
unfolding read_ready
read_conditions [] status = status
read_conditions (Value.obj m ∷ vs) status =
    if str_eq (or_zero "" (as_text (get "type" m))) "Ready"
    then read_ready m status
    else read_conditions vs status
read_conditions (_ ∷ vs) status = read_conditions vs status

module _ (u : Unstructured) where
  read_status : Option GoMap → KserveStatus
  unfolding read_conditions
  read_status none = record { url = ""; ready = false; error = "" }
  read_status (some m) =
      read_conditions (or_zero [] (u.nested_slice m ("conditions" ∷ [])))
        (record { url = or_zero "" (u.nested_string m ("url" ∷ [])); ready = false; error = "" })

  -- parseStatus
  unfoldable pub parse_status : GoMap → KserveStatus
  unfolding read_status
  parse_status o = read_status (u.nested_map o ("status" ∷ []))

module _ (u : Unstructured) (d : Dynamic) (uuid_text : Uuid → String) (default_ns : String) where
  -- Deploy
  unfoldable pub kserve_create :
      String
      → List (String × String)
      → InferenceService
      → Option ModelVersion
      → Act d.State KserveDeployment
  kserve_create namespace labels isvc version = do
    o ← λ s. (build_inference_service uuid_text labels isvc version, s)
    created ←
        wrapping "create kserve inferenceservice"
          (d.create inference_service (namespace_or default_ns namespace) o)
    pure (record { external_id = u.get_uid created; url = "" })

  -- Undeploy
  unfoldable pub kserve_delete : String → String → Act d.State (Unit {0})
  kserve_delete namespace name =
      wrapping "delete kserve inferenceservice"
        (d.delete inference_service (namespace_or default_ns namespace) name)

  -- GetStatus
  unfoldable pub kserve_get_status : String → String → Act d.State KserveStatus
  kserve_get_status namespace name = do
    o ←
        wrapping "get kserve inferenceservice"
          (d.read inference_service (namespace_or default_ns namespace) name)
    pure (parse_status u o)
