-- ===== src/Ipc/Project/Found.antt =====
-- outdated/mcp-server/src/ipc.rs: which project and which taskspace `extract_project_info` finds.
use symposium.Prelude.{
  Bool, true, false, Option, some, none, List, [], ◌∷◌, ◌++◌, All, ok, Bool-cases, Option-cases,
  ◌≡◌, refl, sym, ap, ◌∙◌, ◌↔◌, inl, inr, if◌then◌else◌,
}
use symposium.Prelude.Text.{Text, codes, ends_with}
use symposium.Ipc.Project.{Directory, task_uuid, or_last, project_of, climb, extract_project_info}

abbrev pub is_project : Directory → Bool
is_project d = elim d.file_name [ some n ↦ ends_with n (codes ".symposium") | none ↦ false ]

module _ (parse_str : Text → Option Text) where
  abbrev pub uuid_of : Directory → Option Text
  uuid_of d = elim d.file_name [ some n ↦ task_uuid parse_str n | none ↦ none ]

  -- The task that is the farthest up.
  abbrev pub outermost : List Directory → Option Text
  outermost [] = none
  outermost (d ∷ ds) = or_last (outermost ds) (uuid_of d)

  or_last_assoc : (a b c : Option Text) → or_last (or_last a b) c ≡ or_last a (or_last b c)
  or_last_assoc (some x) b c = refl
  or_last_assoc none b c = refl

  or_last-none : (a : Option Text) → or_last a none ≡ a
  or_last-none (some x) = refl
  or_last-none none = refl

  climb-step :
      (last : Option Text) (d : Directory) (ds : List Directory)
      → climb parse_str last (d ∷ ds) ≡ (
          if is_project d
          then project_of d (or_last (uuid_of d) last)
          else climb parse_str (or_last (uuid_of d) last) ds)
  unfolding climb
  climb-step last d ds = elim (Option-cases d.file_name) [
    | inl e ↦ rw (e, climb) refl
    | inr (n, e) ↦ rw (e, climb) refl
  ]

  -- A directory of a project, with the directories up to it and those above it.
  abbrev pub BelongsTo : (path uuid : Text) → Option Text → List Directory → Type 0
  BelongsTo path uuid last dirs =
      (below : List Directory) × (d : Directory) × (above : List Directory) × (dirs
        ≡ below ++ d ∷ above)
      × All (λ e. is_project e ≡ false) below
      × (is_project d ≡ true)
      × (d.path ≡ path)
      × (or_last (outermost (below ++ d ∷ [])) last ≡ some uuid)

  project_of-ok :
      (d : Directory) (u : Option Text) {path uuid : Text}
      → project_of d u ≡ ok (path, uuid)
      → (d.path ≡ path) × (u ≡ some uuid)
  unfolding project_of
  project_of-ok d none h = cc
  project_of-ok d (some u) h = (cc, cc)

  climb-BelongsTo :
      (last : Option Text) (dirs : List Directory) {path uuid : Text}
      → climb parse_str last dirs ≡ ok (path, uuid)
      → BelongsTo path uuid last dirs
  unfolding climb
  climb-BelongsTo last [] h = cc
  climb-BelongsTo last (d ∷ ds) h = elim (Bool-cases (is_project d)) [
    | inl t ↦
        let (p, q) =
          project_of-ok d (or_last (uuid_of d) last) (rw (t) at (sym (climb-step last d ds) ∙ h)) in
        ([], d, ds, refl, tt, t, p, q)
    | inr f ↦
        let (b, e, a, eq, all, t, p, q) =
          climb-BelongsTo (or_last (uuid_of d) last) ds
            (rw (f) at (sym (climb-step last d ds) ∙ h)) in
        (
          d ∷ b,
          e,
          a,
          ap (λ x. d ∷ x) eq,
          (f, all),
          t,
          p,
          or_last_assoc (outermost (b ++ e ∷ [])) (uuid_of d) last ∙ q,
        )
  ]

  climb_found :
      (below : List Directory) (d : Directory) (above : List Directory) (last : Option Text)
      (uuid : Text)
      → All (λ e. is_project e ≡ false) below
      → is_project d ≡ true
      → or_last (outermost (below ++ d ∷ [])) last ≡ some uuid
      → climb parse_str last (below ++ d ∷ above) ≡ ok (d.path, uuid)
  unfolding project_of
  climb_found [] d above last uuid all t q = climb-step last d above ∙ rw (t, q) refl
  climb_found (e ∷ below) d above last uuid all t q =
      climb-step last e (below ++ d ∷ above)
      ∙ rw (all.0) (
          climb_found below d above (or_last (uuid_of e) last) uuid all.1 t
            (sym (or_last_assoc (outermost (below ++ d ∷ [])) (uuid_of e) last) ∙ q))

  -- A directory belongs to a project and a taskspace exactly where the project is the nearest ancestor
  -- whose name ends in `.symposium`, and the taskspace is that of the outermost directory named
  -- `task-` and a uuid, from the directory itself up to the project.
  pub extract_project_info_iff :
      (dirs : List Directory) (path uuid : Text)
      → (extract_project_info parse_str (ok dirs) ≡ ok (path, uuid)) ↔ (
          (below : List Directory) × (d : Directory) × (above : List Directory) × (dirs
            ≡ below ++ d ∷ above)
          × All (λ e. is_project e ≡ false) below
          × (is_project d ≡ true)
          × (d.path ≡ path)
          × (outermost (below ++ d ∷ []) ≡ some uuid))
  unfolding extract_project_info
  extract_project_info_iff dirs path uuid = (
    λ h.
        (let (b, d, a, eq, all, t, p, q) = climb-BelongsTo none dirs h in
          (b, d, a, eq, all, t, p, sym (or_last-none (outermost (b ++ d ∷ []))) ∙ q)),
    λ (b, d, a, eq, all, t, p, q).
        (rw eq (
          climb_found b d a none uuid all t (or_last-none (outermost (b ++ d ∷ [])) ∙ q)
          ∙ ap (λ x. ok (x, uuid)) p)),
  )
