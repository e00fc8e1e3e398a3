-- ===== src/Nostr/Event.antt =====
-- internal/nostr/event.go: the event, its id and its signature.
use congee.Prelude.{Text, ℤ, List}

pub record Event : Type 0 where
  pub id : Text
  pub pub_key : Text
  pub created_at : ℤ
  pub kind : ℤ
  pub tags : List (List Text)
  pub content : Text
  pub sig : Text
