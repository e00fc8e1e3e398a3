-- ===== src/Relay/GiftWrap.antt =====
-- internal/relay/nip17.go: private direct messages, which travel as gift wraps of kind 1059.
pub mod Recipients
use congee.Prelude.{
  ℕ, Text, bytes, ◌==◌, equal_fold, to_lower, is_hex, trim_space, mem_text, is_empty, length, eqb,
  ℤ, pos, eqb_ℤ, List, [], ◌∷◌, Bool, true, false, not, ◌&&◌, ◌||◌, Option, none, some,
  if◌then◌else◌,
}
use congee.Nostr.Event.{Event}
use congee.Config.{Config, nip_enabled, nip17_reject_gift_wrap_when_disabled}

abbrev pub kind_gift_wrap : ℤ
kind_gift_wrap = pos 1059

abbrev pub kind_seal : ℤ
kind_seal = pos 13

unfoldable pub nip17_enabled : Config → Bool
unfolding nip_enabled
nip17_enabled cfg = nip_enabled (pos 17) cfg

unfoldable pub validate_reject_gift_wrap_when_disabled : Config → Event → Option Text
unfolding nip17_reject_gift_wrap_when_disabled
validate_reject_gift_wrap_when_disabled cfg ev =
    if not (eqb_ℤ ev.kind kind_gift_wrap)
    then none
    else if not (nip17_reject_gift_wrap_when_disabled cfg)
    then none
    else some (bytes "reject: kind 1059 not accepted (enable NIP-17 for private direct messages)")

unfoldable pub valid_x_only_pub_key_hex : Text → Bool
valid_x_only_pub_key_hex s =
    let t = trim_space s in if not (eqb (length t) 64) then false else is_hex t

abbrev is_recipient_tag : List Text → Bool
is_recipient_tag [] = false
is_recipient_tag (n ∷ []) = false
is_recipient_tag (n ∷ v ∷ r) = n == bytes "p" && valid_x_only_pub_key_hex v

unfoldable pub has_valid_recipient : List (List Text) → Bool
unfolding valid_x_only_pub_key_hex
has_valid_recipient [] = false
has_valid_recipient (t ∷ tags) = is_recipient_tag t || has_valid_recipient tags

unfoldable pub validate_published_event : Event → Option Text
unfolding has_valid_recipient
validate_published_event ev =
    if eqb_ℤ ev.kind kind_gift_wrap
    then (if not (has_valid_recipient ev.tags)
        then some
            (bytes "invalid gift wrap: kind 1059 requires at least one valid \"p\" recipient tag")
        else none)
    else if eqb_ℤ ev.kind kind_seal
    then (if not (is_empty ev.tags)
        then some (bytes "invalid seal: kind 13 tags must be empty (NIP-59)")
        else none)
    else none

-- The loop of `nip17GiftWrapRecipientPubkeys`; `seen` holds the keys in lower case.
unfoldable pub recipients_from : List Text → List (List Text) → List Text
unfolding valid_x_only_pub_key_hex to_lower
recipients_from seen [] = []
recipients_from seen ([] ∷ tags) = recipients_from seen tags
recipients_from seen ((n ∷ []) ∷ tags) = recipients_from seen tags
recipients_from seen ((n ∷ v ∷ r) ∷ tags) =
    let pk = trim_space v in
    let skip = recipients_from seen tags in
    let take = pk ∷ recipients_from (to_lower pk ∷ seen) tags in
    if not (n == bytes "p")
    then skip
    else if not (valid_x_only_pub_key_hex pk)
    then skip
    else if mem_text (to_lower pk) seen
    then skip
    else take

unfoldable pub gift_wrap_recipient_pubkeys : Event → List Text
unfolding recipients_from
gift_wrap_recipient_pubkeys ev = recipients_from [] ev.tags

unfoldable pub folds_into : Text → List Text → Bool
folds_into pk [] = false
folds_into pk (r ∷ rs) = equal_fold pk r || folds_into pk rs

unfoldable pub any_folds_into : List Text → List Text → Bool
unfolding folds_into
any_folds_into [] recipients = false
any_folds_into (pk ∷ authed) recipients =
    folds_into pk recipients || any_folds_into authed recipients

-- `authed` is `none` for an unknown connection, and otherwise its authenticated keys.
unfoldable pub gift_wrap_visible : Option (List Text) → Event → Bool
unfolding gift_wrap_recipient_pubkeys any_folds_into
gift_wrap_visible authed ev =
    let recipients = gift_wrap_recipient_pubkeys ev in
    if is_empty recipients then false else elim authed [
      | none ↦ false
      | some keys ↦ if is_empty keys then false else any_folds_into keys recipients
    ]
