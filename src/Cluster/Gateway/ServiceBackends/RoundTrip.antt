-- ===== src/Cluster/Gateway/ServiceBackends/RoundTrip.antt =====
-- What aigateway/client.go reads back of an AIServiceBackend that it wrote.
use model_registry_service.Base.{
  String, ◌≡◌, refl, sym, ap, ◌∙◌, subst, ◌&&◌, Option, none, some, [], ◌∷◌, Bool-cases, inl, inr,
}
use model_registry_service.Domain.Result.{ok}
use model_registry_service.Cluster.Json.{
  Value, obj, GoMap, object, get, as_text, as_map, or_zero, wire, wire_map, wire_option,
  get-wire_map,
}
use model_registry_service.Cluster.Server.{
  Unstructured, IsUnstructured, Delivers, Dynamic, IsServer, ai_service_backend, ◌>>=◌, wrapping,
  at, walk,
}
use model_registry_service.Cluster.Server.Reads.{map_of_key, at_of_key, Delivers-version}
use model_registry_service.Cluster.Gateway.{
  Settings, is_set, is_empty, namespace_or, get_name-manifest, get_labels-manifest, spec-manifest,
}
use model_registry_service.Cluster.Gateway.ServiceBackends.{
  HeaderMutation, AiServiceBackend, mutation_map, service_backend_spec, build_service_backend,
  parse_backend_ref, parse_headers, parse_mutation, parse_service_backend, update_service_backend,
  get_service_backend,
}
use model_registry_service.Cluster.Gateway.ServiceBackends.Entries.{
  recorded_ref, recorded_mutation, recorded_service_backend, mutation_value, get_ref, get_mutation,
  get_schema, get_set, get_remove, read_set, read_remove, parse_backend_ref-ref_map,
}

module _ {u : Unstructured} (laws : IsUnstructured u) (b : AiServiceBackend) (got : GoMap)
    (spec : get "spec" got ≡ some (obj (wire_map (service_backend_spec b)))) where
  schema_read : u.nested_string got ("spec" ∷ "schema" ∷ "name" ∷ []) ≡ some b.schema
  unfolding walk wire object get
  schema_read =
      laws.string_at got ("spec" ∷ "schema" ∷ "name" ∷ [])
      ∙ ap as_text (at_of_key got _ "schema" ("name" ∷ []) spec)
      ∙ ap (λ (v : Option Value). as_text (walk ("name" ∷ []) (wire_option v))) (get_schema b)

  ref_read :
      parse_backend_ref (u.nested_map got ("spec" ∷ "backendRef" ∷ [])) ≡ recorded_ref b.backend_ref
  ref_read =
      rw (map_of_key laws got _ spec "backendRef", get_ref b)
        (elim (Bool-cases (is_set b.backend_ref.name)) [
          | inl e ↦ rw e (unfold wire in parse_backend_ref-ref_map b.backend_ref)
          | inr e ↦ rw e (unfold parse_backend_ref in refl)
        ])

  module _ (h : HeaderMutation)
      (written : get "headerMutation" (service_backend_spec b) ≡ some (obj (mutation_map h))) where
    at_of_mutation :
        (k : String)
        → at ("spec" ∷ "headerMutation" ∷ k ∷ []) got ≡ wire_option (get k (mutation_map h))
    unfolding walk wire
    at_of_mutation k =
        at_of_key got _ "headerMutation" (k ∷ []) spec
        ∙ ap (λ (v : Option Value). walk (k ∷ []) (wire_option v)) written
        ∙ get-wire_map k (mutation_map h)

    set_read :
        parse_headers (or_zero [] (u.nested_slice got ("spec" ∷ "headerMutation" ∷ "set" ∷ [])))
        ≡ h.set
    set_read =
        rw
          (
            laws.slice_at got ("spec" ∷ "headerMutation" ∷ "set" ∷ []),
            at_of_mutation "set",
            get_set h,
          )
          (read_set h.set)

    remove_read :
        or_zero [] (u.nested_string_slice got ("spec" ∷ "headerMutation" ∷ "remove" ∷ []))
        ≡ h.remove
    remove_read =
        rw
          (
            laws.strings_at got ("spec" ∷ "headerMutation" ∷ "remove" ∷ []),
            at_of_mutation "remove",
            get_remove h,
          )
          (read_remove h.remove)

  mutation_as :
      (h : Option HeaderMutation)
      → get "headerMutation" (service_backend_spec b) ≡ mutation_value h
      → parse_mutation u got (as_map (wire_option (mutation_value h))) ≡ recorded_mutation h
  unfolding parse_mutation wire
  mutation_as none written = refl
  mutation_as (some h) written = elim (Bool-cases (is_empty h.set && is_empty h.remove)) [
    | inl e ↦ rw e refl
    | inr e ↦
        let entry : get "headerMutation" (service_backend_spec b) ≡ some (obj (mutation_map h)) =
          written ∙ rw e refl in
        rw e (rw (set_read h entry, remove_read h entry, e) refl)
  ]

  mutation_read :
      parse_mutation u got (u.nested_map got ("spec" ∷ "headerMutation" ∷ []))
      ≡ recorded_mutation b.header_mutation
  mutation_read =
      rw (map_of_key laws got _ spec "headerMutation", get_mutation b)
        (mutation_as b.header_mutation (get_mutation b))

module _ {u : Unstructured} (laws : IsUnstructured u) (b : AiServiceBackend) where
  pub parse_service_backend-build_service_backend :
      (got : GoMap)
      → Delivers u (build_service_backend b) got
      → parse_service_backend u got ≡ recorded_service_backend (u.get_namespace got) b
  unfolding parse_service_backend build_service_backend
  parse_service_backend-build_service_backend got sent =
      let spec : get "spec" got ≡ some (obj (wire_map (service_backend_spec b))) =
        spec-manifest laws _ _ _ _ _ got sent in
      rw
        (
          schema_read laws b got spec,
          ref_read laws b got spec,
          mutation_read laws b got spec,
          sent.name,
          sent.labels,
          get_name-manifest laws _ _ _ _ _,
          get_labels-manifest laws _ _ _ _ _,
        )
        refl

  name_sent : u.get_name (build_service_backend b) ≡ b.name
  unfolding build_service_backend
  name_sent = get_name-manifest laws _ _ _ _ _

  module _ {d : Dynamic} (server : IsServer u d) (c : Settings) {s s' s'' s3 : d.State}
      {existing answer got : GoMap}
      (found : d.read ai_service_backend (namespace_or c.default_ns b.namespace) b.name s
        ≡ (ok existing, s'))
      (updated : d.update ai_service_backend
          (namespace_or c.default_ns b.namespace)
          (u.set_resource_version (u.get_resource_version existing) (build_service_backend b))
          s'
        ≡ (ok answer, s''))
      (reread : d.read ai_service_backend (namespace_or c.default_ns b.namespace) b.name s''
        ≡ (ok got, s3)) where
    abbrev resent : GoMap
    resent = u.set_resource_version (u.get_resource_version existing) (build_service_backend b)

    delivered : Delivers u (build_service_backend b) got
    delivered = Delivers-version laws _ _ _ (
        server.read_updated _ _ resent answer got s' s'' s3 updated (
          subst
            (λ (n : String).
              d.read ai_service_backend (namespace_or c.default_ns b.namespace) n s''
              ≡ (ok got, s3))
            (sym ((laws.version_only _ (build_service_backend b)).name ∙ name_sent)) reread))

    -- If the server answers, UpdateServiceBackend succeeds, and GetServiceBackend then returns the
    -- backend as it was given, in the namespace where it stands and with the label of the registry;
    -- a reference that has no name is left out, and so is a mutation of headers that sets and
    -- removes none.
    pub get_service_backend-update_service_backend :
        (update_service_backend u d c b s ≡ (ok tt, s''))
        × (get_service_backend u d c b.namespace b.name s''
            ≡ (ok (recorded_service_backend (namespace_or c.default_ns b.namespace) b), s3))
    unfolding update_service_backend get_service_backend ◌>>=◌ wrapping
    get_service_backend-update_service_backend = (
      rw (found, updated) refl,
      rw
          (
            reread,
            parse_service_backend-build_service_backend got delivered,
            (server.read_named _ _ _ _ _ _ reread).1,
          )
          refl,
    )
