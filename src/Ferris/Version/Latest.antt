-- ===== src/Ferris/Version/Latest.antt =====
-- The version that a constraint resolves to is the latest that matches.
use symposium.Prelude.{
  true, false, List, [], ◌∷◌, none, some, ok, err, ◌≡◌, subst, ◌⊎◌, inl, inr, last, keep, All,
  All-mono, All-Elem, All-keep, keep-All, last-All, last-none, Elem, Bool-cases, Option-cases,
  arith,
}
use symposium.Prelude.Text.{Text}
use symposium.Ferris.Error.{no_matching_versions}
use symposium.Ferris.Version.{
  Semver, IsOrd, Registry, insert_sorted, sort, resolve_version_constraint, get_available_versions,
}

module _ (sem : Semver) (ord : IsOrd sem) where
  abbrev Le : sem.Version → sem.Version → Type 0
  Le v w = sem.le v w ≡ true

  abbrev IsSorted : List sem.Version → Type 0
  IsSorted [] = Unit
  IsSorted (v ∷ vs) = All (λ w. Le v w) vs × IsSorted vs

  le_refl : (v : sem.Version) → Le v v
  le_refl v = elim (ord.le_total v v) [ inl h ↦ h | inr h ↦ h ]

  le_of_not : (v w : sem.Version) → sem.le v w ≡ false → Le w v
  le_of_not v w f = elim (ord.le_total v w) [ inl h ↦ cc | inr h ↦ h ]

  insert_sorted-All :
      (P : sem.Version → Type 0) (v : sem.Version) (vs : List sem.Version)
      → P v
      → All P vs
      → All P (insert_sorted sem.le v vs)
  unfolding insert_sorted
  insert_sorted-All P v [] h hs = (h, tt)
  insert_sorted-All P v (w ∷ ws) h hs = elim (Bool-cases (sem.le v w)) [
    | inl t ↦ rw (t, insert_sorted) (h, hs)
    | inr f ↦ rw (f, insert_sorted) (hs.0, insert_sorted-All P v ws h hs.1)
  ]

  sort-All : (P : sem.Version → Type 0) (vs : List sem.Version) → All P vs → All P (sort sem.le vs)
  unfolding sort
  sort-All P [] h = tt
  sort-All P (v ∷ vs) h = insert_sorted-All P v (sort sem.le vs) h.0 (sort-All P vs h.1)

  insert_sorted-IsSorted :
      (v : sem.Version) (vs : List sem.Version) → IsSorted vs → IsSorted (insert_sorted sem.le v vs)
  unfolding insert_sorted
  insert_sorted-IsSorted v [] h = (tt, tt)
  insert_sorted-IsSorted v (w ∷ ws) h = elim (Bool-cases (sem.le v w)) [
    | inl t ↦
        rw (t, insert_sorted) ((t, All-mono ws (λ u below. ord.le_trans v w u t below) h.0), h)
    | inr f ↦
        rw (f, insert_sorted)
          (insert_sorted-All (Le w) v ws (le_of_not v w f) h.0, insert_sorted-IsSorted v ws h.1)
  ]

  sort-IsSorted : (vs : List sem.Version) → IsSorted (sort sem.le vs)
  unfolding sort
  sort-IsSorted [] = tt
  sort-IsSorted (v ∷ vs) = insert_sorted-IsSorted v (sort sem.le vs) (sort-IsSorted vs)

  last_of_IsSorted :
      (vs : List sem.Version) (v : sem.Version)
      → IsSorted vs
      → last vs ≡ some v
      → All (λ w. Le w v) vs
  last_of_IsSorted [] v h e = tt
  last_of_IsSorted (w ∷ []) v h e = (subst (Le w) (cc) (le_refl w), tt)
  last_of_IsSorted (w ∷ u ∷ vs) v h e =
      let tail_below = last_of_IsSorted (u ∷ vs) v h.1 e in
      (ord.le_trans w u v h.0.0 tail_below.0, tail_below)

  insert_sorted-reflects :
      (P : sem.Version → Type 0) (v : sem.Version) (vs : List sem.Version)
      → All P (insert_sorted sem.le v vs)
      → P v × All P vs
  unfolding insert_sorted
  insert_sorted-reflects P v [] h = (h.0, tt)
  insert_sorted-reflects P v (w ∷ ws) h = elim (Bool-cases (sem.le v w)) [
    | inl t ↦ rw (t, insert_sorted) at h
    | inr f ↦
        let h' : P w × All P (insert_sorted sem.le v ws) = rw (f, insert_sorted) at h in
        let (hv, hs) = insert_sorted-reflects P v ws h'.1 in (hv, (h'.0, hs))
  ]

  sort-reflects :
      (P : sem.Version → Type 0) (vs : List sem.Version) → All P (sort sem.le vs) → All P vs
  unfolding sort
  sort-reflects P [] h = tt
  sort-reflects P (v ∷ vs) h =
      let (hv, hs) = insert_sorted-reflects P v (sort sem.le vs) h in (hv, sort-reflects P vs hs)

  last-sort-newest :
      (vs : List sem.Version) (v : sem.Version)
      → last (sort sem.le vs) ≡ some v
      → All (λ w. Le w v) vs
  last-sort-newest vs v e =
      sort-reflects (λ w. Le w v) vs (last_of_IsSorted (sort sem.le vs) v (sort-IsSorted vs) e)

  -- `v` is published, satisfies the constraint, and no published version that does is newer.
  pub record IsLatest (req : sem.VersionReq) (available : List sem.Version) (v : sem.Version)
      : Type 0 where
    pub published : Elem v available
    pub matching : sem.is_match req v ≡ true
    pub newest : All (λ w. sem.is_match req w ≡ true → Le w v) available

  module _ (req : sem.VersionReq) (available : List sem.Version) where
    abbrev matching : List sem.Version
    matching = keep (sem.is_match req) available

    is_latest : (v : sem.Version) → last (sort sem.le matching) ≡ some v → IsLatest req available v
    is_latest v e =
        let found =
          last-All (λ w. Elem w available × (sem.is_match req w ≡ true)) (sort sem.le matching)
            (sort-All _ matching (All-keep _ (sem.is_match req) available (All-Elem available)))
            e in
        record {
          published = found.0;
          matching = found.1;
          newest = keep-All _ (sem.is_match req) available (last-sort-newest matching v e);
        }

    none_match :
        last (sort sem.le matching) ≡ none → All (λ w. sem.is_match req w ≡ false) available
    none_match e =
        let empty = last-none (sort sem.le matching) e in
        let no_match : All (λ w. ⊥) matching = sort-reflects (λ w. ⊥) matching (rw empty tt) in
        All-mono available (λ w not_true. ground (arith, not_true))
          (keep-All (λ w. ⊥) (sem.is_match req) available no_match)

  module _ (reg : Registry sem.Version) (crate_name constraint : Text) where
    -- If the constraint parses and crates.io lists the crate, then the result is the text of the
    -- latest published version that satisfies the constraint, or, exactly where none does, the error
    -- `no_matching_versions` with the crate and the constraint. Versions that do not parse are not
    -- counted.
    pub resolve-IsLatest :
        (req : sem.VersionReq) (available : List sem.Version)
        → sem.parse_req constraint ≡ ok req
        → get_available_versions sem reg crate_name ≡ ok available
        → ((v : sem.Version) × (resolve_version_constraint sem reg crate_name constraint
              ≡ ok (sem.to_string v))
            × IsLatest req available v)
          ⊎ ((resolve_version_constraint sem reg crate_name constraint
                ≡ err (no_matching_versions crate_name constraint))
              × All (λ w. sem.is_match req w ≡ false) available)
    unfolding resolve_version_constraint
    resolve-IsLatest req available p q =
        elim (Option-cases (last (sort sem.le (keep (sem.is_match req) available)))) [
          | inl e ↦ inr (rw (p, q, e), none_match req available e)
          | inr (v, e) ↦ inl (v, rw (p, q, e), is_latest req available v e)
        ]
