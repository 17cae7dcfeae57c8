-- ===== src/Walkthrough/Blocks/Passed.antt =====
-- The events that a walkthrough's parser passes on.
use symposium.Prelude.{
  ℕ, zero, suc, false, Bool-cases, Option-cases, All-append, List, [], ◌∷◌, ◌++◌, Result, ok, err,
  and_then, and_then-eq-ok, All, ◌≡◌, refl, ap, ◌∙◌, subst, inl, inr,
}
use symposium.Prelude.Text.{Text, trim}
use symposium.Walkthrough.Blocks.{
  CodeBlockKind, indented, fenced, Event, start_code_block, end_code_block, text, inline_html,
  other, WalkthroughParser, is_special_code_block, process_code_block, process_events,
  process_events_sequentially, collect_content, element_of, element_html,
}

module _ {V U Other : Type 0} (p : WalkthroughParser V U) where
  -- The event does not start a block that stands for an element.
  abbrev pub IsPlain : Event Other → Type 0
  IsPlain (start_code_block kind) = is_special_code_block p.unicode kind ≡ false
  IsPlain end_code_block = Unit
  IsPlain (text t) = Unit
  IsPlain (inline_html t) = Unit
  IsPlain (other o) = Unit

  -- What follows is processed behind `e`.
  abbrev pub put :
      Event Other → Result Text (List (Event Other)) × U → Result Text (List (Event Other)) × U
  put e r = and_then r λ rest w. (ok (e ∷ rest), w)

  pub process_events-plain :
      (e : Event Other) (events : List (Event Other)) (u : U)
      → IsPlain e
      → process_events p zero (e ∷ events) u ≡ put e (process_events p zero events u)
  unfolding process_events
  process_events-plain (start_code_block kind) events u h = rw (h, process_events) refl
  process_events-plain end_code_block events u h = refl
  process_events-plain (text t) events u h = refl
  process_events-plain (inline_html t) events u h = refl
  process_events-plain (other o) events u h = refl

  pub process_events_plain :
      (events : List (Event Other)) (u : U)
      → All IsPlain events
      → process_events p zero events u ≡ (ok events, u)
  unfolding process_events
  process_events_plain [] u h = refl
  process_events_plain (e ∷ events) u h =
      process_events-plain e events u h.0 ∙ ap (put e) (process_events_plain events u h.1)

  behind-IsPlain :
      (block : List (Event Other)) (r : Result Text (List (Event Other)) × U)
      (out : List (Event Other)) (v : U)
      → All IsPlain block
      → ((rest : List (Event Other)) (w : U) → r ≡ (ok rest, w) → All IsPlain rest)
      → and_then r (λ rest w. (ok (block ++ rest), w)) ≡ (ok out, v)
      → All IsPlain out
  behind-IsPlain block (err x, w) out v plain h same = cc
  behind-IsPlain block (ok rest, w) out v plain h same =
      let e : block ++ rest ≡ out = cc in
      subst (All IsPlain) e (All-append IsPlain block rest plain (h rest w refl))

  -- What stands for a block is one piece of HTML at most.
  process_code_block-IsPlain :
      (kind : CodeBlockKind) (events : List (Event Other)) (u : U) (block : List (Event Other) × ℕ)
      (v : U)
      → process_code_block p kind events u ≡ (ok block, v)
      → All IsPlain block.0
  unfolding process_code_block
  process_code_block-IsPlain indented events u block v h =
      let e : ([], 0) ≡ block = cc in subst (λ b. All IsPlain b.0) e tt
  process_code_block-IsPlain (fenced lang) events u block v h =
      elim (Option-cases
        (element_of p (trim p.unicode.is_whitespace lang) (collect_content [] events).0)) [
          | inl n ↦
              let e : ([], (collect_content [] events).1) ≡ block =
                cc (rw (n, process_code_block) at h) in
              subst (λ b. All IsPlain b.0) e tt
          | inr (element, s) ↦
              let (html, w, _, same) =
                and_then-eq-ok (element_html p element u) _ (rw (s, process_code_block) at h) in
              let e : (inline_html html ∷ [], (collect_content [] events).1) ≡ block = cc in
              subst (λ b. All IsPlain b.0) e (tt, tt)
        ]

  process_events-IsPlain :
      (taken : ℕ) (events : List (Event Other)) (u : U) (out : List (Event Other)) (v : U)
      → process_events p taken events u ≡ (ok out, v)
      → All IsPlain out
  unfolding process_events
  process_events-IsPlain taken [] u out v h = let e : [] ≡ out = cc in subst (All IsPlain) e tt
  process_events-IsPlain (suc taken) (e ∷ events) u out v h =
      process_events-IsPlain taken events u out v h
  process_events-IsPlain zero (start_code_block kind ∷ events) u out v h =
      elim (Bool-cases (is_special_code_block p.unicode kind)) [
        | inr f ↦
            behind-IsPlain ((start_code_block kind) ∷ []) (process_events p zero events u) out v
              (f, tt) (process_events-IsPlain zero events u) (rw (f, process_events) at h)
        | inl t ↦
            let (block, w, found, h1) =
              and_then-eq-ok (process_code_block p kind events u) _ (rw (t, process_events) at h) in
            behind-IsPlain block.0 (process_events p block.1 events w) out v
              (process_code_block-IsPlain kind events u block w found)
              (process_events-IsPlain block.1 events w) h1
      ]
  process_events-IsPlain zero (end_code_block ∷ events) u out v h =
      behind-IsPlain (end_code_block ∷ []) (process_events p zero events u) out v (tt, tt)
        (process_events-IsPlain zero events u) h
  process_events-IsPlain zero (text t ∷ events) u out v h =
      behind-IsPlain ((text t) ∷ []) (process_events p zero events u) out v (tt, tt)
        (process_events-IsPlain zero events u) h
  process_events-IsPlain zero (inline_html t ∷ events) u out v h =
      behind-IsPlain ((inline_html t) ∷ []) (process_events p zero events u) out v (tt, tt)
        (process_events-IsPlain zero events u) h
  process_events-IsPlain zero (other o ∷ events) u out v h =
      behind-IsPlain ((other o) ∷ []) (process_events p zero events u) out v (tt, tt)
        (process_events-IsPlain zero events u) h

  -- The events that are put out start no block that stands for an element, and to process them again
  -- changes nothing, whatever the state.
  pub process_events_sequentially-IsPlain :
      (events : List (Event Other)) (u : U) (out : List (Event Other)) (v : U)
      → process_events_sequentially p events u ≡ (ok out, v)
      → All IsPlain out × ((w : U) → process_events_sequentially p out w ≡ (ok out, w))
  unfolding process_events_sequentially
  process_events_sequentially-IsPlain events u out v h =
      let plain = process_events-IsPlain zero events u out v h in
      (plain, λ w. process_events_plain out w plain)
