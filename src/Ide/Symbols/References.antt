-- ===== src/Ide/Symbols/References.antt =====
-- What a nest of symbols resolves to, and whose references are found.
use symposium.Prelude.{
  All-mono, List, [], ◌∷◌, ◌++◌, Result, ok, err, and_then, and_then-eq-ok, map, All, Elem, here,
  there, ◌≡◌, refl, ap, ◌∙◌, sym, subst, append_assoc, append-nil, ◌⊎◌, inl, inr,
}
use symposium.Prelude.Text.{Text}
use symposium.Ide.Ranges.{FileRange, SymbolDef, SymbolRef}
use symposium.Ide.Symbols.{
  Symbols, name, array, symbol_def, SymbolsList, nil, cons, IpcClient, resolve, resolve_list,
  references_to, find_references,
}

-- A name, or a definition.
abbrev pub Leaf : Type 0
Leaf = Text ⊎ SymbolDef

-- The names and definitions in a nest of symbols, from left to right.
mutual
  pub leaves : Symbols → List Leaf → List Leaf
  leaves (name n) behind = inl n ∷ behind
  leaves (array ss) behind = leaves_of ss behind
  leaves (symbol_def d) behind = inr d ∷ behind

  pub leaves_of : SymbolsList → List Leaf → List Leaf
  leaves_of nil behind = behind
  leaves_of (cons s ss) behind = leaves s (leaves_of ss behind)

module _ {U : Type 0} (ipc : IpcClient U) where
  -- What leaves stand for: the IDE is asked for the definitions of a name, and a definition is
  -- itself. An error of the IDE ends this.
  pub Stands : List Leaf → U → Result Text (List SymbolDef) × U → Type 0
  Stands [] u r = r ≡ (ok [], u)
  Stands (inr d ∷ ls) u (r, w) =
      ((more : List SymbolDef) × Stands ls u (ok more, w) × (r ≡ ok (d ∷ more)))
      ⊎ ((e : Text) × Stands ls u (err e, w) × (r ≡ err e))
  Stands (inl n ∷ ls) u (r, w) =
      ((e : Text) × (ipc.resolve_symbol_by_name n u ≡ (err e, w)) × (r ≡ err e))
      ⊎ ((found : List SymbolDef) × (v : U) × (ipc.resolve_symbol_by_name n u ≡ (ok found, v))
          × (((more : List SymbolDef) × Stands ls v (ok more, w) × (r ≡ ok (found ++ more)))
              ⊎ ((e : Text) × Stands ls v (err e, w) × (r ≡ err e))))

  -- The same as a function.
  abbrev answered : List Leaf → U → Result Text (List SymbolDef) × U
  answered [] u = (ok [], u)
  answered (inl n ∷ ls) u =
      and_then (ipc.resolve_symbol_by_name n u)
        λ found v. and_then (answered ls v) λ more w. (ok (found ++ more), w)
  answered (inr d ∷ ls) u = and_then (answered ls u) λ more w. (ok (d ∷ more), w)

  -- What the leaves behind add to `r`.
  abbrev onto : Result Text (List SymbolDef) × U → List Leaf → Result Text (List SymbolDef) × U
  onto r ls = and_then r λ found v. and_then (answered ls v) λ more w. (ok (found ++ more), w)

  onto-nil : (r : Result Text (List SymbolDef) × U) → onto r [] ≡ r
  onto-nil (ok ds, u) = ap (λ x. (ok x, u)) (append-nil ds)
  onto-nil (err e, u) = refl

  onto-ok :
      (found : List SymbolDef) (r : Result Text (List SymbolDef) × U) (ls : List Leaf)
      → onto (and_then r λ more w. (ok (found ++ more), w)) ls
        ≡ and_then (onto r ls) λ more w. (ok (found ++ more), w)
  onto-ok found (err e, u) ls = refl
  onto-ok found (ok ds, u) ls = go (answered ls u)
    where
      go :
          (r : Result Text (List SymbolDef) × U)
          → and_then r (λ more w. (ok ((found ++ ds) ++ more), w))
            ≡ and_then (and_then r λ more w. (ok (ds ++ more), w)) λ more w. (ok (found ++ more), w)
      go (ok es, v) = ap (λ x. (ok x, v)) (append_assoc found ds es)
      go (err e, v) = refl

  onto_eq :
      (r : Result Text (List SymbolDef) × U) (ss : SymbolsList) (ls behind : List Leaf)
      → ((v : U) → answered ls v ≡ onto (resolve_list ipc ss v) behind)
      → onto r ls
        ≡ onto
            (and_then r
              λ found v. and_then (resolve_list ipc ss v) λ more w. (ok (found ++ more), w))
            behind
  onto_eq (err e, u) ss ls behind h = refl
  onto_eq (ok ds, u) ss ls behind h =
      ap (λ x. and_then x λ more w. (ok (ds ++ more), w)) (h u)
      ∙ sym (onto-ok ds (resolve_list ipc ss u) behind)

  and_then_ok : (r : Result Text (List SymbolDef) × U) → r ≡ and_then r λ more w. (ok more, w)
  and_then_ok (ok ds, u) = refl
  and_then_ok (err e, u) = refl

  mutual
    unfolding resolve leaves

    answered-leaves :
        (s : Symbols) (behind : List Leaf) (u : U)
        → answered (leaves s behind) u ≡ onto (resolve ipc s u) behind
    answered-leaves (name n) behind u = refl
    answered-leaves (symbol_def d) behind u = refl
    answered-leaves (array ss) behind u = answered-leaves_of ss behind u

    answered-leaves_of :
        (ss : SymbolsList) (behind : List Leaf) (u : U)
        → answered (leaves_of ss behind) u ≡ onto (resolve_list ipc ss u) behind
    answered-leaves_of nil behind u = and_then_ok (answered behind u)
    answered-leaves_of (cons s ss) behind u =
        answered-leaves s (leaves_of ss behind) u
        ∙ onto_eq (resolve ipc s u) ss (leaves_of ss behind) behind
            λ v. answered-leaves_of ss behind v

  answered-Stands : (ls : List Leaf) (u : U) → Stands ls u (answered ls u)
  unfolding Stands
  answered-Stands [] u = refl
  answered-Stands (inr d ∷ ls) u = go (answered ls u) (answered-Stands ls u)
    where
      go :
          (r : Result Text (List SymbolDef) × U)
          → Stands ls u r
          → Stands (inr d ∷ ls) u (and_then r λ more w. (ok (d ∷ more), w))
      go (ok more, w) h = inl (more, h, refl)
      go (err e, w) h = inr (e, h, refl)
  answered-Stands (inl n ∷ ls) u =
      asked (λ v. answered-Stands ls v) (ipc.resolve_symbol_by_name n u) refl
    where
      told :
          (found : List SymbolDef) (v : U)
          → ipc.resolve_symbol_by_name n u ≡ (ok found, v)
          → (r : Result Text (List SymbolDef) × U) → Stands ls v r
          → Stands (inl n ∷ ls) u (and_then r λ more w. (ok (found ++ more), w))
      told found v e (ok more, w) h = inr (found, v, e, inl (more, h, refl))
      told found v e (err x, w) h = inr (found, v, e, inr (x, h, refl))

      asked :
          ((v : U) → Stands ls v (answered ls v))
          → (r : Result Text (List SymbolDef) × U) → ipc.resolve_symbol_by_name n u ≡ r
          → Stands (inl n ∷ ls) u (onto r ls)
      asked further (ok found, v) e = told found v e (answered ls v) (further v)
      asked further (err x, v) e = inl (x, e, refl)

  -- A nest of symbols resolves to what its names and definitions stand for, from left to right:
  -- the IDE is asked for the definitions of each name, a definition is itself, and the first error
  -- of the IDE ends this, with no further call.
  pub resolve-leaves : (s : Symbols) (u : U) → Stands (leaves s []) u (resolve ipc s u)
  resolve-leaves s u =
      subst (Stands (leaves s []) u) (answered-leaves s [] u ∙ onto-nil (resolve ipc s u))
        (answered-Stands (leaves s []) u)

  All-refs :
      (d : SymbolDef) (ds : List SymbolDef) (locations : List FileRange) (more : List SymbolRef)
      → All (λ r. Elem r.definition ds) more
      → All
          (λ r. Elem r.definition (d ∷ ds))
          (map (λ loc. record { definition = d; referenced_at = loc }) locations ++ more)
  All-refs d ds [] more h = All-mono more (λ r. there) h
  All-refs d ds (loc ∷ locations) more h = (here, All-refs d ds locations more h)

  references_to-Elem :
      (ds : List SymbolDef) (u : U) (refs : List SymbolRef) (w : U)
      → references_to ipc ds u ≡ (ok refs, w)
      → All (λ r. Elem r.definition ds) refs
  unfolding references_to
  references_to-Elem [] u refs w h =
      let e : [] ≡ refs = cc in subst (All (λ r. Elem r.definition [])) e tt
  references_to-Elem (d ∷ ds) u refs w h =
      let (locations, v, found, h1) = and_then-eq-ok (ipc.find_all_references d u) _ h in
      let (more, x, rest, h2) = and_then-eq-ok (references_to ipc ds v) _ h1 in
      let e : map (λ loc. record { definition = d; referenced_at = loc }) locations ++ more ≡ refs =
        cc in
      subst (All (λ r. Elem r.definition (d ∷ ds))) e
        (All-refs d ds locations more (references_to-Elem ds v more x rest))

  -- When references are found, their definitions are among those that the symbols resolve to.
  pub find_references-Elem :
      (to : Symbols) (u : U) (refs : List SymbolRef) (w : U)
      → find_references ipc to u ≡ (ok refs, w)
      → (ds : List SymbolDef) × (v : U) × (resolve ipc to u ≡ (ok ds, v))
        × All (λ r. Elem r.definition ds) refs
  unfolding find_references
  find_references-Elem to u refs w h =
      let (ds, v, found, h1) = and_then-eq-ok (resolve ipc to u) (references_to ipc) h in
      (ds, v, found, references_to-Elem ds v refs w h1)
