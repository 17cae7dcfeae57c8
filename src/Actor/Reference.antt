-- ===== src/Actor/Reference.antt =====
-- outdated/mcp-server/src/actor/reference.rs: the actor that keeps what a reference stands for. A
-- reply channel is its number.
pub mod Latest
pub mod Handle
use symposium.Prelude.{ℕ, Bool, List, [], ◌∷◌, ◌++◌, Option, if◌then◌else◌}
use symposium.Prelude.Text.{Text}
use symposium.Prelude.Assoc
use symposium.Prelude.Assoc.{text_key}

module _ (Value : Type 0) where
  pub data ReferenceMessage : Type 0 where
    store_reference : (key : Text) (value : Value) (reply_tx : ℕ) → ReferenceMessage
    get_reference : (key : Text) (reply_tx : ℕ) → ReferenceMessage

  pub record ReferenceActor : Type 0 where
    pub storage : List (Text × Value)

  -- What is sent on reply channels: `Ok(())`, or what was found.
  pub data Reply : Type 0 where
    stored : (channel : ℕ) → Reply
    found : (channel : ℕ) → Option Value → Reply

module _ {Value : Type 0} where
  unfoldable pub new : ReferenceActor Value
  new = record { storage = [] }

  -- `listens` says which reply channels have a listener; what is sent on another is lost.
  unfoldable pub handle_message :
      (listens : ℕ → Bool)
      → ReferenceMessage Value
      → ReferenceActor Value
      → ReferenceActor Value × List (Reply Value)
  handle_message listens (store_reference key value reply_tx) s = (
    record s { storage = Assoc.insert key value s.storage },
    (if listens reply_tx then stored reply_tx ∷ [] else []),
  )
  handle_message listens (get_reference key reply_tx) s =
      (s, (if listens reply_tx then found reply_tx (Assoc.get key s.storage) ∷ [] else []))

  unfoldable pub run :
      (listens : ℕ → Bool)
      → List (ReferenceMessage Value)
      → ReferenceActor Value
      → ReferenceActor Value × List (Reply Value)
  unfolding handle_message
  run listens [] s = (s, [])
  run listens (m ∷ ms) s =
      let (t, out) = handle_message listens m s in
      let (u, more) = run listens ms t in (u, out ++ more)
