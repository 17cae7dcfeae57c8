-- ===== src/Actor/Reference/Handle.antt =====
-- outdated/mcp-server/src/actor/reference.rs, `ReferenceHandle`: a message to the actor, behind those that
-- are in its queue, and the wait for its reply. `sent` says whether the queue takes the message.
use symposium.Prelude.{
  ℕ, Bool, true, List, [], ◌∷◌, Option, none, some, Result, ok, err, if◌then◌else◌, ◌≡◌, refl, ap,
  ◌∙◌,
}
use symposium.Prelude.Text.{Text, codes, text_eq_refl}
use symposium.Prelude.Assoc
use symposium.Prelude.Assoc.{text_key, get-insert}
use symposium.Actor.Reference
use symposium.Actor.Reference.{
  ReferenceMessage, ReferenceActor, Reply, stored, found, handle_message, run,
}
use symposium.Actor.Reference.Latest.{latest, get-run}

module _ {Value : Type 0} where
  -- What a reply channel gives: an error if it was dropped.
  abbrev stored_reply : List (Reply Value) → Result Text (Unit {0})
  stored_reply [] = err (codes "channel closed")
  stored_reply (stored channel ∷ out) = ok tt
  stored_reply (found channel value ∷ out) = err (codes "channel closed")

  abbrev found_reply : List (Reply Value) → Option Value
  found_reply [] = none
  found_reply (stored channel ∷ out) = none
  found_reply (found channel value ∷ out) = value

  -- The handle waits for the reply on the channel 0, and for no other.
  unfoldable pub store_reference :
      (sent : Bool) (listens : ℕ → Bool)
      → List (ReferenceMessage Value)
      → (key : Text) → Value
      → ReferenceActor Value
      → Result Text (Unit {0}) × ReferenceActor Value
  unfolding run handle_message
  store_reference sent listens queue key value s =
      let t = (run listens queue s).0 in
      if sent
      then (let (u, out) = handle_message (λ c. true) (Reference.store_reference key value 0) t in
          (stored_reply out, u))
      else (err (codes "Reference actor unavailable"), t)

  unfoldable pub get_reference :
      (sent : Bool) (listens : ℕ → Bool)
      → List (ReferenceMessage Value)
      → (key : Text) → ReferenceActor Value
      → Option Value × ReferenceActor Value
  unfolding run handle_message
  get_reference sent listens queue key s =
      let t = (run listens queue s).0 in
      if sent
      then (let (u, out) = handle_message (λ c. true) (Reference.get_reference key 0) t in
          (found_reply out, u))
      else (none, t)

  -- What a handle stored is what a handle gets, unless a message between the two stores another value.
  pub get_reference-store_reference :
      (listens : ℕ → Bool) (queue between : List (ReferenceMessage Value)) (key : Text)
      (value : Value) (s : ReferenceActor Value)
      → ((store_reference true listens queue key value s).0 ≡ ok tt)
        × ((get_reference true listens between key
              (store_reference true listens queue key value s).1).0
            ≡ latest key (some value) between)
  unfolding store_reference get_reference handle_message
  get_reference-store_reference listens queue between key value s = (
    refl,
    get-run listens key between
          (record { storage = Assoc.insert key value (run listens queue s).0.storage })
        ∙ ap (λ before. latest key before between)
            (get-insert key key value (run listens queue s).0.storage ∙ rw (text_eq_refl key) refl),
  )
