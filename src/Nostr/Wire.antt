-- ===== src/Nostr/Wire.antt =====
-- internal/nostr/message.go: the messages between a client and the relay. Their JSON text is left
-- to encoding/json: a message is its parts, and marshalling fails where the source's does.
use congee.Prelude.{
  ◌%◌, eqb, length, Text, bytes, is_empty, is_hex, trim_space, to_lower, List, Bool, not, Option,
  none, some, if◌then◌else◌,
}
use congee.Nostr.Event.{Event}
use congee.Nostr.Filter.{Filter}

-- What a client sends.
pub data ClientMessage : Type 0 where
  event_message : Event → ClientMessage
  req_message : Text → List Filter → ClientMessage
  close_message : Text → ClientMessage
  auth_message : Event → ClientMessage
  neg_open_message : Text → Filter → Text → ClientMessage
  neg_msg_message : Text → Text → ClientMessage
  neg_close_message : Text → ClientMessage

-- What the relay sends.
pub data RelayMessage : Type 0 where
  event : Text → Event → RelayMessage
  ok : Text → Bool → Text → RelayMessage
  eose : Text → RelayMessage
  closed : Text → Text → RelayMessage
  notice : Text → RelayMessage
  auth : Text → RelayMessage
  neg_msg : Text → Text → RelayMessage
  neg_err : Text → Text → RelayMessage

-- `MarshalRelayAuth` refuses an empty challenge.
unfoldable pub marshal_relay_auth : Text → Option RelayMessage
marshal_relay_auth challenge = if is_empty challenge then none else some (auth challenge)

unfoldable pub validate_neg_hex : Text → Option Text
unfolding trim_space is_hex
validate_neg_hex msg_hex =
    let s = trim_space msg_hex in
    if is_empty s
    then some (bytes "empty hex")
    else if not (eqb (length s % 2) 0)
    then some (bytes "hex length must be even")
    else if not (is_hex s)
    then some (bytes "encoding/hex: invalid byte")
    else none

-- `MarshalRelayNegMsg` refuses what is not hexadecimal, the empty message included.
unfoldable pub marshal_relay_neg_msg : Text → Text → Option RelayMessage
unfolding validate_neg_hex to_lower
marshal_relay_neg_msg sub_id msg_hex = elim (validate_neg_hex msg_hex) [
  | some e ↦ none
  | none ↦ some (neg_msg sub_id (to_lower msg_hex))
]
