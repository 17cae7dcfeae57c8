-- ===== src/Ferris/Cache/Registries.antt =====
-- What the search of cargo's registry directories finds.
use symposium.Prelude.{
  true, List, [], ◌∷◌, some, Result, ok, err, ◌≡◌, refl, subst, ◌⊎◌, arith, Bool-cases, inl, inr,
  Elem, here, there, Result-cases,
}
use symposium.Prelude.Text.{Text, codes, starts_with, join}
use symposium.Ferris.Cache.{FileSystem, DirEntry, holds, search_entries, search_registries}

module _ {W : Type 0} (fs : FileSystem W) (dir wanted : Text) (w : W) where
  -- `p` exists, and lies in an entry that is a directory with a name `index.…`.
  pub record InRegistry (entries : List (Result Text DirEntry)) (p : Text) : Type 0 where
    pub entry : DirEntry
    pub listed : Elem (ok entry) entries
    pub directory : entry.is_dir ≡ ok true
    pub index : starts_with entry.file_name (codes "index.") ≡ true
    pub place : p ≡ join (join dir entry.file_name) wanted
    pub present : fs.exists p w ≡ true

  later :
      (x : Result Text DirEntry) (entries : List (Result Text DirEntry)) (p : Text)
      → InRegistry entries p
      → InRegistry (x ∷ entries) p
  later x entries p f = record {
    entry = f.entry;
    listed = there f.listed;
    directory = f.directory;
    index = f.index;
    place = f.place;
    present = f.present;
  }

  -- An entry that holds `wanted` is such a place.
  holds-InRegistry :
      (entry : DirEntry) (entries : List (Result Text DirEntry))
      → holds fs dir wanted entry w ≡ ok true
      → InRegistry (ok entry ∷ entries) (join (join dir entry.file_name) wanted)
  unfolding holds
  holds-InRegistry entry entries h = record {
    entry = entry;
    listed = here;
    directory = ground arith;
    index = ground arith;
    place = refl;
    present = ground arith;
  }

  module _ (entry : DirEntry) (entries : List (Result Text DirEntry)) (p : Text) where
    search_step :
        search_entries fs dir wanted (ok entry ∷ entries) w ≡ ok (some p)
        → ((holds fs dir wanted entry w ≡ ok true) × (join (join dir entry.file_name) wanted ≡ p))
          ⊎ (search_entries fs dir wanted entries w ≡ ok (some p))
    unfolding search_entries
    search_step h = elim (Result-cases (holds fs dir wanted entry w)) [
      | inl (found, e) ↦ elim (Bool-cases found) [
        | inl t ↦ inl (cc, cc (rw (e, t, search_entries) at h))
        | inr f ↦ inr (rw (e, f, search_entries) at h)
      ]
      | inr (x, e) ↦ cc (rw (e, search_entries) at h)
    ]

  -- What the search finds exists, and lies in a listed registry directory.
  pub search_entries-InRegistry :
      (entries : List (Result Text DirEntry)) (p : Text)
      → search_entries fs dir wanted entries w ≡ ok (some p)
      → InRegistry entries p
  search_entries-InRegistry [] p h = unfold search_entries in cc
  search_entries-InRegistry (err e ∷ entries) p h = unfold search_entries in cc
  search_entries-InRegistry (ok entry ∷ entries) p h = elim (search_step entry entries p h) [
    | inl (t, e) ↦ subst (InRegistry (ok entry ∷ entries)) e (holds-InRegistry entry entries t)
    | inr rest ↦ later (ok entry) entries p (search_entries-InRegistry entries p rest)
  ]

  pub search_registries-exists :
      (p : Text) → search_registries fs dir wanted w ≡ ok (some p) → fs.exists p w ≡ true
  unfolding search_registries
  search_registries-exists p h = elim (Bool-cases (fs.exists dir w)) [
    | inl t ↦ elim (Result-cases (fs.read_dir dir w)) [
      | inl (entries, e) ↦
          (search_entries-InRegistry entries p (rw (t, e, search_registries) at h)).present
      | inr (x, e) ↦ cc (rw (t, e, search_registries) at h)
    ]
    | inr f ↦ cc (rw (f, search_registries) at h)
  ]
