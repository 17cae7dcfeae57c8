-- ===== src/Server/Guidance/Listed.antt =====
-- outdated/mcp-server/src/server.rs: the resources that `list_resources` lists are those that
-- `read_resource` finds.
use symposium.Prelude.{
  some, List, [], ◌∷◌, map, Elem, Elem-cons, here, there, Result, ok, err, Bool-cases, Option-cases,
  ◌≡◌, ◌≢◌, ◌↔◌, refl, sym, ap, ◌∙◌, subst, inl, inr, ℕ,
}
use symposium.Prelude.Text.{Text, codes, text_eq, text_eq_iff}
use symposium.Prelude.Assoc
use symposium.Prelude.Assoc.{text_key}
use symposium.Server.Errors.{McpError, mcp_error, internal_error}
use symposium.Server.Guidance.{
  GuidanceFiles, Strings, Resource, resource_of, resources_of, generate_resources, not_found,
  read_resource,
}

-- A file that is found is one of the files.
Elem-get :
    (files : GuidanceFiles) (path : Text) (content : List ℕ)
    → Assoc.get path files ≡ some content
    → Elem path (map (λ e. e.0) files)
unfolding Assoc.get
Elem-get [] path content h = cc
Elem-get ((p, c) ∷ files) path content h = elim (Bool-cases (text_eq p path)) [
  | inl t ↦ subst (λ q. Elem q (p ∷ map (λ e. e.0) files)) ((text_eq_iff p path).0 t) here
  | inr f ↦ there (Elem-get files path content (rw (f, Assoc.get) at h))
]

module _ (strings : Strings) (files : GuidanceFiles) where
  resources_of-Elem :
      (paths : List Text) (path : Text) (content : List ℕ)
      → Elem path paths
      → Assoc.get path files ≡ some content
      → Elem (resource_of strings files path content) (resources_of strings files paths)
  unfolding resources_of
  resources_of-Elem [] path content e h = elim e [ ]
  resources_of-Elem (p ∷ paths) path content here h = rw (h, resources_of) here
  resources_of-Elem (q ∷ paths) path content (there e) h = elim (Option-cases (Assoc.get q files)) [
    | inl n ↦ rw (n, resources_of) (resources_of-Elem paths path content e h)
    | inr (c, s) ↦ rw (s, resources_of) (there (resources_of-Elem paths path content e h))
  ]

  Elem-resources_of :
      (paths : List Text) (r : Resource)
      → Elem r (resources_of strings files paths)
      → (content : List ℕ) × (Assoc.get r.uri files ≡ some content)
  unfolding resources_of
  Elem-resources_of [] r e = elim e [ ]
  Elem-resources_of (p ∷ paths) r e = elim (Option-cases (Assoc.get p files)) [
    | inl n ↦ Elem-resources_of paths r (rw (n, resources_of) at e)
    | inr (c, s) ↦ elim (Elem-cons (rw (s, resources_of) at e)) [
      | inl same ↦ (c, ap (λ x. Assoc.get x.uri files) same ∙ s)
      | inr more ↦ Elem-resources_of paths r more
    ]
  ]

  -- A resource is listed exactly where reading it is not answered by that it is not found.
  pub read_resource_iff :
      (uri : Text)
      → ((r : Resource) × Elem r (generate_resources strings files) × (r.uri ≡ uri))
        ↔ (read_resource strings files uri ≢ err (not_found strings files uri))
  unfolding generate_resources read_resource
  read_resource_iff uri = (
    λ (r, e, same) h.
        (let (content, found) = Elem-resources_of (map (λ e. e.0) files) r e in
          let there : Assoc.get uri files ≡ some content =
            ap (λ u. Assoc.get u files) (sym same) ∙ found in
          elim (Option-cases (strings.from_utf8 content)) [
            | inl u ↦
                let e' : ◌≡◌ {A = Result McpError (Text × Text)}
                    (err (
                      mcp_error internal_error (codes "Failed to decode resource content as UTF-8")
                        []))
                    (err (not_found strings files uri)) =
                  rw (there, u, read_resource) at h in
                cc
            | inr (t, u) ↦
                let e' : ◌≡◌ {A = Result McpError (Text × Text)} (ok (t, uri))
                    (err (not_found strings files uri)) =
                  rw (there, u, read_resource) at h in
                cc
          ]),
    λ h. elim (Option-cases (Assoc.get uri files)) [
      | inl n ↦ absurd (h (rw (n, read_resource) refl))
      | inr (content, s) ↦ (
        resource_of strings files uri content,
        resources_of-Elem (map (λ e. e.0) files) uri content (Elem-get files uri content s) s,
        refl,
      )
    ],
  )
