-- ===== src/Ide/Links/Coalesced.antt =====
-- The first pass over the events, which joins adjacent texts.
use mathlib.Core.List.{map-append}
use symposium.Prelude.{ℕ, List, [], ◌∷◌, ◌++◌, map, append_assoc, ◌≡◌, refl, ap, ◌∙◌, ◌⊎◌, inl, inr}
use symposium.Prelude.Text.{Text}
use symposium.Ide.Links.{
  Event, text, start_link, end_link, other, flush, coalesce, coalesce_text_events,
}

module _ {Attributes Other : Type 0} where
  -- The characters of the texts and the other events, in order.
  abbrev pub flat : List (Event Attributes Other) → List (ℕ ⊎ Event Attributes Other)
  flat [] = []
  flat (text t ∷ events) = map inl t ++ flat events
  flat (start_link a url ∷ events) = inr (start_link a url) ∷ flat events
  flat (end_link ∷ events) = inr end_link ∷ flat events
  flat (other o ∷ events) = inr (other o) ∷ flat events

  -- The first event is not a text.
  abbrev NoTextFirst : List (Event Attributes Other) → Type 0
  NoTextFirst [] = Unit
  NoTextFirst (text t ∷ events) = ⊥
  NoTextFirst (start_link a url ∷ events) = Unit
  NoTextFirst (end_link ∷ events) = Unit
  NoTextFirst (other o ∷ events) = Unit

  -- No text is empty, and none follows another.
  abbrev pub IsCoalesced : List (Event Attributes Other) → Type 0
  IsCoalesced [] = Unit
  IsCoalesced (text [] ∷ events) = ⊥
  IsCoalesced (text (c ∷ t) ∷ events) = NoTextFirst events × IsCoalesced events
  IsCoalesced (start_link a url ∷ events) = IsCoalesced events
  IsCoalesced (end_link ∷ events) = IsCoalesced events
  IsCoalesced (other o ∷ events) = IsCoalesced events

  flush-IsCoalesced :
      (t : Text) (events : List (Event Attributes Other))
      → NoTextFirst events
      → IsCoalesced events
      → IsCoalesced (flush t events)
  flush-IsCoalesced [] events h h' = h'
  flush-IsCoalesced (c ∷ t) events h h' = (h, h')

  flat-flush :
      (t : Text) (events : List (Event Attributes Other))
      → flat (flush t events) ≡ map inl t ++ flat events
  flat-flush [] events = refl
  flat-flush (c ∷ t) events = refl

  coalesce-IsCoalesced :
      (t : Text) (events : List (Event Attributes Other)) → IsCoalesced (coalesce t events)
  unfolding coalesce
  coalesce-IsCoalesced t [] = flush-IsCoalesced t [] tt tt
  coalesce-IsCoalesced t (text u ∷ events) = coalesce-IsCoalesced (t ++ u) events
  coalesce-IsCoalesced t (start_link a url ∷ events) =
      flush-IsCoalesced t (start_link a url ∷ coalesce [] events) tt
        (coalesce-IsCoalesced [] events)
  coalesce-IsCoalesced t (end_link ∷ events) =
      flush-IsCoalesced t (end_link ∷ coalesce [] events) tt (coalesce-IsCoalesced [] events)
  coalesce-IsCoalesced t (other o ∷ events) =
      flush-IsCoalesced t (other o ∷ coalesce [] events) tt (coalesce-IsCoalesced [] events)

  flat-coalesce :
      (t : Text) (events : List (Event Attributes Other))
      → flat (coalesce t events) ≡ map inl t ++ flat events
  unfolding coalesce
  flat-coalesce t [] = flat-flush t []
  flat-coalesce t (text u ∷ events) =
      flat-coalesce (t ++ u) events
      ∙ ap (λ x. x ++ flat events) (map-append inl t u)
      ∙ append_assoc (map inl t) (map inl u) (flat events)
  flat-coalesce t (start_link a url ∷ events) =
      flat-flush t (start_link a url ∷ coalesce [] events)
      ∙ ap (λ x. map inl t ++ inr (start_link a url) ∷ x) (flat-coalesce [] events)
  flat-coalesce t (end_link ∷ events) =
      flat-flush t (end_link ∷ coalesce [] events)
      ∙ ap (λ x. map inl t ++ inr end_link ∷ x) (flat-coalesce [] events)
  flat-coalesce t (other o ∷ events) =
      flat-flush t (other o ∷ coalesce [] events)
      ∙ ap (λ x. map inl t ++ inr (other o) ∷ x) (flat-coalesce [] events)

  -- The first pass keeps the characters of the texts and the other events, in their order, and
  -- leaves no empty text and no two adjacent ones.
  pub coalesce_text_events_lem :
      (events : List (Event Attributes Other))
      → (flat (coalesce_text_events events) ≡ flat events)
        × IsCoalesced (coalesce_text_events events)
  unfolding coalesce_text_events
  coalesce_text_events_lem events = (flat-coalesce [] events, coalesce-IsCoalesced [] events)
