-- ===== src/Virtual/Service/Mirror.antt =====
-- The route in the cluster mirrors the table after a synchronisation.
use mathlib.Core.List.{Perm}
use model_registry_service.Virtual.Tables.Order.{
  InOrder, backends_of-perm, backends_of-InOrder, InOrder-keep,
}
use model_registry_service.Base.{
  ◌==◌, ℕ, ◌+◌, ◌≡◌, refl, ap, ◌∙◌, Bool, true, false, not, some, List, map, keep, str_eq,
  if◌then◌else◌,
}
use model_registry_service.Domain.Result.{ok}
use model_registry_service.Domain.Virtual.{
  VirtualModel, VirtualModelBackend, is_active, get_active_backends,
}
use model_registry_service.Store.World.{Oracle}
use model_registry_service.Cluster.Json.{GoMap}
use model_registry_service.Cluster.Server.{
  Unstructured, IsUnstructured, Dynamic, IsServer, Act, ◌>>=◌, ai_gateway_route,
}
use model_registry_service.Cluster.Gateway.{WeightedBackend, Settings}
use model_registry_service.Cluster.Gateway.Routes.{get_route}
use model_registry_service.Cluster.Gateway.Routes.RoundTrip.{recorded_route}
use model_registry_service.Cluster.Gateway.Routes.Weights.{
  reweighed, resent, update_traffic_weights_rewrites,
}
use model_registry_service.Virtual.Tables.{World, model_row, backends_of}
use model_registry_service.Virtual.Tables.Found.{vm_get_by_id-found}
use model_registry_service.Virtual.Service.{weighted, sync_route, push_backends, on_cluster}

-- The entry of a route for a row.
abbrev pub entry_of : VirtualModelBackend → WeightedBackend
entry_of b = record {
  name = b.ai_service_backend_name;
  namespace = b.ai_service_backend_namespace;
  weight = b.weight;
  priority = b.priority;
  variant_tag = "";
  model_name_override = b.model_name_override;
}

-- What the tables say that the route should have: the active rows that the query gives.
abbrev pub mirrored : VirtualModel → List VirtualModelBackend → List WeightedBackend
mirrored row rows = map entry_of (keep is_active (backends_of row.id rows))

second_branch {ℓ} : {A : Type ℓ} (b : Bool) (x y : A) → b ≡ true → (if not b then x else y) ≡ y
second_branch true x y e = refl
second_branch false x y e = cc

else_branch {ℓ} : {A : Type ℓ} (b : Bool) (x y : A) → b ≡ false → (if b then x else y) ≡ y
else_branch true x y e = cc
else_branch false x y e = refl

-- The guards of syncAIGatewayRoute.
sync_route-pushes :
    (E : Oracle) (u : Unstructured) (d : Dynamic) (c : Settings) (vm : VirtualModel)
    → c.enabled ≡ true
    → str_eq vm.ai_gateway_route_name "" ≡ false
    → sync_route E u d c vm ≡ push_backends E u d c vm
unfolding sync_route
sync_route-pushes E u d c vm enabled routed =
    second_branch c.enabled _ _ enabled
    ∙ else_branch (str_eq vm.ai_gateway_route_name "") _ _ routed

module _ (E : Oracle) {u : Unstructured} (laws : IsUnstructured u) {d : Dynamic}
    (server : IsServer u d) (c : Settings) (answers : (k : ℕ) → E.database_fails k ≡ false)
    (enabled : c.enabled ≡ true) (vm row : VirtualModel) (w : World d)
    (routed : str_eq vm.ai_gateway_route_name "" ≡ false)
    (stored : model_row vm.project_id vm.id w.models ≡ some row) (old existing : GoMap)
    {s1 s2 s3 s4 : d.State} {answer got : GoMap}
    (first : d.read ai_gateway_route "model-serving" row.ai_gateway_route_name w.cluster
      ≡ (ok old, s1))
    (second : d.read ai_gateway_route "model-serving" row.ai_gateway_route_name s1
      ≡ (ok existing, s2))
    (accepted : d.update ai_gateway_route "model-serving"
        (resent u c old existing (mirrored row w.backends))
        s2
      ≡ (ok answer, s3))
    (reread : d.read ai_gateway_route "model-serving" row.ai_gateway_route_name s3
      ≡ (ok got, s4)) where
  -- If the database and the server answer and the gateway is available, syncAIGatewayRoute of a
  -- virtual model with a route succeeds and changes no table, and the route in the cluster is then
  -- the one that was there with the entries of the query in place of its own, as far as a route
  -- records them: one for each active row, with its name, namespace, weight, priority and override.
  -- The query gives the rows of this virtual model, each once, and the active ones come by priority.
  pub sync_route_mirrors :
      (sync_route E u d c vm w ≡ (ok tt, record w { cluster = s3; ticks = w.ticks + 1 + 1 }))
      × (get_route u d c "model-serving" row.ai_gateway_route_name s3
          ≡ (ok (recorded_route "model-serving" (reweighed u old (mirrored row w.backends))), s4))
      × Perm (backends_of row.id w.backends) (keep (λ b. b.virtual_model_id == row.id) w.backends)
      × InOrder (keep is_active (backends_of row.id w.backends))
  unfolding push_backends on_cluster ◌>>=◌ get_active_backends weighted
  sync_route_mirrors =
      let moved =
        update_traffic_weights_rewrites laws server c "model-serving" row.ai_gateway_route_name
          (mirrored row w.backends) old existing first second accepted reread in
      (
        ap (λ (m : Act (World d) (Unit {0})). m w) (sync_route-pushes E u d c vm enabled routed)
            ∙ rw (vm_get_by_id-found E d answers vm.project_id vm.id row w stored, moved.0) refl,
        moved.1,
        backends_of-perm row.id w.backends,
        InOrder-keep is_active (backends_of row.id w.backends)
            (backends_of-InOrder row.id w.backends),
      )
