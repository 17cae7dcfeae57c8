-- ===== src/Actor/Reference/Latest.antt =====
-- What a reference is answered with.
use symposium.Prelude.{
  ℕ, Bool, true, List, [], ◌∷◌, ◌++◌, Option, none, some, if◌then◌else◌, ◌≡◌, refl, ap, ◌∙◌,
  append_assoc, append-nil,
}
use symposium.Prelude.Text.{Text, text_eq}
use symposium.Prelude.Assoc
use symposium.Prelude.Assoc.{text_key, get-insert}
use symposium.Actor.Reference
use symposium.Actor.Reference.{
  ReferenceMessage, store_reference, get_reference, ReferenceActor, Reply, stored, found,
  handle_message, run,
}

module _ {Value : Type 0} where
  -- What `key` stands for after `ms`, if it stood for `before` first: the value of the last message
  -- that stores it.
  abbrev pub latest : Text → Option Value → List (ReferenceMessage Value) → Option Value
  latest key before [] = before
  latest key before (store_reference k value reply_tx ∷ ms) =
      latest key (if text_eq k key then some value else before) ms
  latest key before (get_reference k reply_tx ∷ ms) = latest key before ms

  pub get-run :
      (listens : ℕ → Bool) (key : Text) (ms : List (ReferenceMessage Value))
      (s : ReferenceActor Value)
      → Assoc.get key (run listens ms s).0.storage ≡ latest key (Assoc.get key s.storage) ms
  unfolding run
  get-run listens key [] s = refl
  get-run listens key (get_reference k reply_tx ∷ ms) s = get-run listens key ms s
  get-run listens key (store_reference k value reply_tx ∷ ms) s =
      get-run listens key ms (record s { storage = Assoc.insert k value s.storage })
      ∙ ap (λ before. latest key before ms) (get-insert k key value s.storage)

  run-append :
      (listens : ℕ → Bool) (ms : List (ReferenceMessage Value)) (m : ReferenceMessage Value)
      (s : ReferenceActor Value)
      → (run listens (ms ++ m ∷ []) s).1
        ≡ (run listens ms s).1 ++ (handle_message listens m (run listens ms s).0).1
  unfolding run
  run-append listens [] m s = simp append-nil
  run-append listens (x ∷ ms) m s =
      rw (run-append listens ms m (handle_message listens x s).0, append_assoc)

  -- After any messages a request for a reference is answered, if its sender still listens, with the
  -- value that was stored for it last, or with none if none was stored.
  pub run-latest :
      (listens : ℕ → Bool) (ms : List (ReferenceMessage Value)) (key : Text) (reply_tx : ℕ)
      → listens reply_tx ≡ true
      → (run listens (ms ++ get_reference key reply_tx ∷ []) Reference.new).1
        ≡ (run listens ms Reference.new).1 ++ found reply_tx (latest key none ms) ∷ []
  unfolding handle_message Reference.new Assoc.get
  run-latest listens ms key reply_tx heard =
      run-append listens ms (get_reference key reply_tx) Reference.new
      ∙ rw (heard, get-run listens key ms Reference.new) refl
