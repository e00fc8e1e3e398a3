-- ===== src/Relay/Registry.antt =====
-- internal/relay/registry.go: which handler a message goes to. A handler acts on a world of any type;
-- an error is `failure`.
use congee.Prelude.{
  Text, bytes, ◌==◌, Map, lookup, insert, List, Option, none, some, Result, success, failure, ◌++◌,
}
use congee.Nostr.Wire.{
  ClientMessage, event_message, req_message, close_message, auth_message, neg_open_message,
  neg_msg_message, neg_close_message,
}
pub mod Dispatch

unfoldable pub command : ClientMessage → Text
command (event_message ev) = bytes "EVENT"
command (req_message sub_id filters) = bytes "REQ"
command (close_message sub_id) = bytes "CLOSE"
command (auth_message ev) = bytes "AUTH"
command (neg_open_message sub_id f m) = bytes "NEG-OPEN"
command (neg_msg_message sub_id m) = bytes "NEG-MSG"
command (neg_close_message sub_id) = bytes "NEG-CLOSE"

module _ {World : Type 0} where
  unfoldable pub register :
      Text
      → (ClientMessage → Result World)
      → Map (ClientMessage → Result World)
      → Map (ClientMessage → Result World)
  register typ h r = insert typ h r

  unfoldable pub dispatch : Map (ClientMessage → Result World) → ClientMessage → Result World
  unfolding command
  dispatch r msg = elim (lookup (command msg) r) [
    | none ↦ failure (bytes "relay: no handler for \"" ++ (command msg ++ bytes "\""))
    | some h ↦ h msg
  ]
