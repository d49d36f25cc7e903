-- ===== src/Http/Virtual/Calls/Refines.antt =====
-- A request on virtual models does what the call of the service does that it stands for, and nothing
-- else.
use model_registry_service.Base.{
  ℕ, String, ◌≡◌, refl, Bool, Option, none, some, Bool-cases, inl, inr,
}
use model_registry_service.Domain.Result.{Result, ok, err, panic}
use model_registry_service.Domain.Traffic.{Uuid}
use model_registry_service.Store.World.{Oracle}
use model_registry_service.Cluster.Server.{Unstructured, Dynamic, Act}
use model_registry_service.Cluster.Gateway.{Settings}
use model_registry_service.Virtual.Tables.{World}
use model_registry_service.Http.Gin.{
  Gin, Sent, Response, answered, respond, parsed, in_project, bound, map_domain_error,
}
use model_registry_service.Http.Traffic.Calls.{also, project, checked, finished, status_for}
use model_registry_service.Http.Virtual.{
  Shown, http_get_virtual_model, http_create_virtual_model, http_delete_virtual_model,
  http_list_backends, http_add_backend, http_update_backend, http_delete_backend,
}
use model_registry_service.Http.Virtual.Calls.{
  HttpRequest, serve_models, Operation, operation, perform, success_status,
}

answered-status :
    {B : Type 0} (f : B → Response Shown) (n : ℕ)
    → ((b : B) → (f b).status ≡ n)
    → (r : Result B) → (answered f r).status ≡ status_for n (finished r)
unfolding map_domain_error
answered-status f n h (ok b) = h b
answered-status f n h (err e) = refl
answered-status f n h panic = refl

module _ (E : Oracle) (u : Unstructured) (d : Dynamic) (c : Settings) where
  -- The response and the state after a request that asks for the operation, or for none.
  abbrev pub Answers : Option Operation → World d → Response Shown × World d → Type 0
  Answers none w x = (x.0.status ≡ 400) × (x.1 ≡ w)
  Answers (some op) w x =
      (x.0.status ≡ status_for (success_status op) (perform E u d c op w).0)
      × (x.1 ≡ (perform E u d c op w).1)

  parsed-Serves :
      (r : Response Shown) (found : Option Uuid) (o : Uuid → Option Operation)
      (k : Uuid → World d → Response Shown × World d)
      → r.status ≡ 400
      → ((id : Uuid) (w : World d) → Answers (o id) w (k id w))
      → (w : World d) → Answers (also found o) w (parsed r found k w)
  parsed-Serves r none o k bad good w = (bad, refl)
  parsed-Serves r (some id) o k bad good w = good id w

  bound-Serves :
      {B : Type 0} (g : Gin) (valid : B → Bool) (b : Sent B) (o : B → Option Operation)
      (k : B → World d → Response Shown × World d)
      → ((body : B) (w : World d) → Answers (o body) w (k body w))
      → (w : World d) → Answers (also (checked valid b) o) w (bound g valid b k w)
  unfolding bound
  bound-Serves g valid (Sent.undecodable message) o k good w = (refl, refl)
  bound-Serves g valid (Sent.decoded body) o k good w = elim (Bool-cases (valid body)) [
    | inl e ↦ rw e (good body w)
    | inr e ↦ rw e (refl, refl)
  ]

  in_project-Serves :
      (g : Gin) (header : String) (o : Uuid → Option Operation)
      (k : Uuid → World d → Response Shown × World d)
      → ((p : Uuid) (w : World d) → Answers (o p) w (k p w))
      → (w : World d) → Answers (also (project g header) o) w (in_project g header k w)
  unfolding in_project
  in_project-Serves g header o k good w = parsed-Serves _ (project g header) o k refl good w

  respond-Serves :
      {B : Type 0} (f : B → Response Shown) (m : Act (World d) B) (n : ℕ)
      → ((b : B) → (f b).status ≡ n)
      → (w : World d)
      → ((respond f m w).0.status ≡ status_for n (finished (m w).0)) × ((respond f m w).1 ≡ (m w).1)
  unfolding respond
  respond-Serves f m n h w = (answered-status f n h (m w).0, refl)

  -- Of the requests on virtual models but their list: one that is not well formed is refused with 400
  -- and changes nothing. Any other leaves the tables and the cluster as the call of the service leaves
  -- them that it asks for, and its status is that of a success exactly if the call succeeds, that of
  -- the error if it fails, and 500 if it panics.
  pub serve_models-refines :
      (g : Gin) (r : HttpRequest) (w : World d)
      → Answers (operation g r) w (serve_models g E u d c r w)
  unfolding serve_models operation perform http_get_virtual_model http_create_virtual_model
      http_delete_virtual_model http_list_backends http_add_backend http_update_backend
      http_delete_backend
  serve_models-refines g (HttpRequest.show_model h n) =
      in_project-Serves g h _ _ λ p. respond-Serves _ _ 200 λ b. refl
  serve_models-refines g (HttpRequest.make_model h b) =
      in_project-Serves g h _ _ λ p. bound-Serves g _ b _ _ λ body. respond-Serves _ _ 201 λ b. refl
  serve_models-refines g (HttpRequest.drop_model h n) =
      in_project-Serves g h _ _ λ p. respond-Serves _ _ 204 λ b. refl
  serve_models-refines g (HttpRequest.show_backends h n) =
      in_project-Serves g h _ _ λ p. respond-Serves _ _ 200 λ b. refl
  serve_models-refines g (HttpRequest.add_one h n b) =
      in_project-Serves g h _ _ λ p. bound-Serves g _ b _ _ λ body. respond-Serves _ _ 201 λ b. refl
  serve_models-refines g (HttpRequest.change_one h n i b) = in_project-Serves g h _ _ λ p.
      parsed-Serves _ (g.parse_uuid i) _ _ refl
        λ id. bound-Serves g _ b _ _ λ body. respond-Serves _ _ 200 λ b. refl
  serve_models-refines g (HttpRequest.drop_one h n i) =
      in_project-Serves g h _ _
        λ p. parsed-Serves _ (g.parse_uuid i) _ _ refl λ id. respond-Serves _ _ 204 λ b. refl
