-- ===== src/Relay/Group.antt =====
-- internal/relay/nip29.go: relay-based groups. `rpk` is the public key of the relay, `none` where it
-- has no identity. A validator returns no error, or one.
pub mod Visibility
pub mod Validators
pub mod Hook
use congee.Prelude.{
  Text, bytes, ◌==◌, is_empty, ℤ, pos, ltb_ℤ, eqb_ℤ, sub64, List, [], ◌∷◌, ◌++◌, Bool, true, false,
  not, ◌&&◌, ◌||◌, Option, none, some, Result, success, failure, if◌then◌else◌,
}
use congee.Nostr.Event.{Event}
use congee.Nostr.Group.{
  group_h_tag, previous_tag_values, is_valid_previous_prefix, is_moderation_kind,
  metadata_is_private, metadata_is_restricted, metadata_is_closed, admins_39001_contains_pubkey,
  kind_create_group, kind_delete_group, kind_join_request, kind_leave_req,
}
use congee.Config.{Config, nip_enabled, nip29_max_past_sec}
use congee.Storage.{EventStore}
use congee.Relay.GiftWrap.{nip17_enabled, kind_gift_wrap, gift_wrap_visible}

unfoldable pub nip29_enabled : Config → Bool
unfolding nip_enabled
nip29_enabled cfg = nip_enabled (pos 29) cfg

unfoldable pub check_previous : EventStore → Text → Bool → List Text → Option Text
check_previous store gid strict [] = none
check_previous store gid strict (p ∷ prevs) =
    let rest = check_previous store gid strict prevs in
    if not (is_valid_previous_prefix p)
    then some (bytes "nip-29: invalid previous id prefix")
    else elim (store.event_id_prefix_exists p gid strict) [
      | failure e ↦ some (bytes "nip-29: previous check failed: " ++ e)
      | success found ↦
          if not found then some (bytes "nip-29: previous references unknown event") else rest
    ]

unfoldable pub validate_previous : EventStore → Config → Event → Option Text
unfolding check_previous
validate_previous store cfg ev =
    if is_empty (group_h_tag ev)
    then none
    else check_previous store (group_h_tag ev) cfg.strict_previous_same_h (previous_tag_values ev)

unfoldable pub validate_late_publication : Config → ℤ → Event → Option Text
unfolding sub64 nip29_max_past_sec
validate_late_publication cfg now ev =
    if is_empty (group_h_tag ev)
    then none
    else if ltb_ℤ (nip29_max_past_sec cfg) (sub64 now ev.created_at)
    then some (bytes "nip-29: created_at too far in the past for this group")
    else none

-- Nobody but members writes to a restricted group.
unfoldable pub require_member : EventStore → Text → Text → Text → Option Text
require_member store rpk gid pub_key = elim (store.is_group_member rpk gid pub_key) [
  | failure e ↦ some (bytes "nip-29: membership check failed: " ++ e)
  | success member ↦
      if not member then some (bytes "nip-29: group is restricted: not a member") else none
]

unfoldable pub check_restricted : EventStore → Text → Event → Option Text
unfolding require_member
check_restricted store rpk ev =
    let gid = group_h_tag ev in
    if ev.pub_key == rpk
    then none
    else if eqb_ℤ ev.kind kind_join_request || eqb_ℤ ev.kind kind_leave_req
    then none
    else if is_moderation_kind ev.kind
    then none
    else elim (store.latest_group_metadata_39000 rpk gid) [
      | failure e ↦ none
      | success none ↦ none
      | success (some md) ↦
          if not (metadata_is_restricted md) then none else require_member store rpk gid ev.pub_key
    ]

unfoldable pub validate_restricted_write : EventStore → Option Text → Event → Option Text
unfolding check_restricted
validate_restricted_write store none ev = none
validate_restricted_write store (some rpk) ev =
    if is_empty (group_h_tag ev) then none else check_restricted store rpk ev

unfoldable pub validate_moderation : EventStore → Option Text → Event → Option Text
validate_moderation store none ev =
    if is_empty (group_h_tag ev)
    then some (bytes "nip-29: moderation events require an h tag")
    else some (bytes "nip-29: relay identity required for moderation kinds")
validate_moderation store (some rpk) ev =
    if is_empty (group_h_tag ev)
    then some (bytes "nip-29: moderation events require an h tag")
    else if ev.pub_key == rpk
    then none
    else if eqb_ℤ ev.kind kind_create_group
    then some (bytes "nip-29: moderation kind 9007 must be signed by the relay")
    else if eqb_ℤ ev.kind kind_delete_group
    then some (bytes "nip-29: moderation kind 9008 must be signed by the relay")
    else elim (store.latest_group_admins_39001 rpk (group_h_tag ev)) [
      | failure e ↦ some (bytes "nip-29: group admins lookup failed: " ++ e)
      | success none ↦ some (bytes "nip-29: moderation not permitted for this pubkey")
      | success (some admins) ↦
          if not (admins_39001_contains_pubkey admins ev.pub_key)
          then some (bytes "nip-29: moderation not permitted for this pubkey")
          else none
    ]

unfoldable pub check_closed : EventStore → Text → Text → Option Text
check_closed store rpk gid = elim (store.latest_group_metadata_39000 rpk gid) [
  | failure e ↦ some (bytes "nip-29: group metadata lookup failed: " ++ e)
  | success none ↦ none
  | success (some md) ↦
      if metadata_is_closed md
      then some (
          bytes
            "nip-29: group is closed; join requests are not accepted (invite flow not implemented)")
      else none
]

unfoldable pub validate_join : EventStore → Option Text → Event → Option Text
unfolding check_closed
validate_join store none ev =
    if is_empty (group_h_tag ev)
    then some (bytes "nip-29: join request requires an h tag")
    else some (bytes "nip-29: relay identity required")
validate_join store (some rpk) ev =
    if is_empty (group_h_tag ev)
    then some (bytes "nip-29: join request requires an h tag")
    else elim (store.is_group_member rpk (group_h_tag ev) ev.pub_key) [
      | failure e ↦ some (bytes "nip-29: membership check failed: " ++ e)
      | success member ↦
          if member
          then some (bytes "duplicate: already a group member")
          else check_closed store rpk (group_h_tag ev)
    ]

unfoldable pub validate_leave : EventStore → Option Text → Event → Option Text
validate_leave store none ev =
    if is_empty (group_h_tag ev)
    then some (bytes "nip-29: leave request requires an h tag")
    else some (bytes "nip-29: relay identity required")
validate_leave store (some rpk) ev =
    if is_empty (group_h_tag ev)
    then some (bytes "nip-29: leave request requires an h tag")
    else elim (store.is_group_member rpk (group_h_tag ev) ev.pub_key) [
      | failure e ↦ some (bytes "nip-29: membership check failed: " ++ e)
      | success member ↦ if not member then some (bytes "rejected: not a group member") else none
    ]

unfoldable pub validate_moderation_and_join_leave : EventStore → Option Text → Event → Option Text
unfolding validate_moderation validate_join validate_leave
validate_moderation_and_join_leave store rpk ev =
    if is_moderation_kind ev.kind
    then validate_moderation store rpk ev
    else if eqb_ℤ ev.kind kind_join_request
    then validate_join store rpk ev
    else if eqb_ℤ ev.kind kind_leave_req
    then validate_leave store rpk ev
    else none

-- Some key is a member; a failed check counts as none.
unfoldable pub any_member : EventStore → Text → Text → List Text → Bool
any_member store rpk h [] = false
any_member store rpk h (pk ∷ pks) =
    let rest = any_member store rpk h pks in
    elim (store.is_group_member rpk h pk) [
      | failure e ↦ rest
      | success member ↦ if member then true else rest
    ]

-- `authed` is `none` for an unknown connection, and otherwise its authenticated keys.
unfoldable pub group_visible : EventStore → Text → Option (List Text) → Event → Bool
unfolding any_member
group_visible store rpk authed ev = elim (store.latest_group_metadata_39000 rpk (group_h_tag ev)) [
  | failure e ↦ false
  | success none ↦ true
  | success (some md) ↦ if not (metadata_is_private md) then true else elim authed [
    | none ↦ false
    | some pks ↦ if is_empty pks then false else any_member store rpk (group_h_tag ev) pks
  ]
]

-- `EventVisibleToSubscription`
unfoldable pub event_visible_to_subscription :
    Config → EventStore → Option Text → Option (List Text) → Event → Bool
unfolding nip29_enabled group_visible nip17_enabled gift_wrap_visible
event_visible_to_subscription cfg store rpk authed ev =
    if nip17_enabled cfg && eqb_ℤ ev.kind kind_gift_wrap
    then gift_wrap_visible authed ev
    else if not (nip29_enabled cfg)
    then true
    else elim rpk [
      | none ↦ true
      | some key ↦ if is_empty (group_h_tag ev) then true else group_visible store key authed ev
    ]
