-- ===== src/Relay/Group/Validators.antt =====
-- What the validators of group events let through.
use congee.Prelude.{
  Text, ◌==◌, ==_iff, is_empty, ◌^◌, ℕ, ◌+◌, ◌≤◌, ◌<◌, ℤ, pos, negsuc, ◌≤ℤ◌, ◌-ℤ◌, eqb_ℤ, sub64,
  wrap64, wrap64_of_IsInt64, IsInt64, Bool, true, false, ◌||◌, Option, none, some, Result, success,
  failure, ◌≡◌, refl, ◌↔◌, inl, inr, arith, Bool-cases,
}
use congee.Nostr.Event.{Event}
use congee.Nostr.Group.{
  group_h_tag, is_moderation_kind, admins_39001_contains_pubkey, metadata_is_restricted,
  kind_join_request, kind_leave_req, kind_create_group, kind_delete_group,
}
use congee.Config.{Config, nip29_max_past_sec}
use congee.Storage.{EventStore}
use congee.Relay.Group.{
  validate_late_publication, validate_restricted_write, check_restricted, require_member,
  validate_moderation,
}

-- Where `now - created_at` is an int64, an event of a group passes exactly when it is at most the
-- configured time old.
pub validate_late_publication_iff :
    (cfg : Config) (now : ℤ) (ev : Event)
    → is_empty (group_h_tag ev) ≡ false
    → IsInt64 (now -ℤ ev.created_at)
    → (validate_late_publication cfg now ev ≡ none)
      ↔ (now -ℤ ev.created_at ≤ℤ nip29_max_past_sec cfg)
unfolding validate_late_publication sub64
validate_late_publication_iff cfg now ev tagged fits =
    ground (arith, wrap64_of_IsInt64 (now -ℤ ev.created_at) fits)

max_past-positive : (cfg : Config) → pos 0 ≤ℤ nip29_max_past_sec cfg
unfolding nip29_max_past_sec
max_past-positive cfg = ground arith

sub64-wraps :
    (now gap : ℕ) (c : ℤ)
    → c ≡ negsuc gap
    → now < 2 ^ 63
    → gap < 2 ^ 63
    → 2 ^ 63 ≤ now + gap + 1
    → sub64 (pos now) c ≤ℤ negsuc 0
unfolding sub64 wrap64 ◌-ℤ◌
sub64-wraps now gap c e n g far = ground (arith, e)

-- An event from so far before 1970 that `now - created_at` leaves int64 passes, however old it is.
pub validate_late_publication-overflow :
    (cfg : Config) (now gap : ℕ) (ev : Event)
    → ev.created_at ≡ negsuc gap
    → now < 2 ^ 63
    → gap < 2 ^ 63
    → 2 ^ 63 ≤ now + gap + 1
    → validate_late_publication cfg (pos now) ev ≡ none
unfolding validate_late_publication
validate_late_publication-overflow cfg now gap ev e n g far =
    ground (arith, sub64-wraps now gap ev.created_at e n g far, max_past-positive cfg)

-- Who may moderate a group: the relay itself, or for any kind but the creation and the deletion of
-- a group a key that the relay's list of admins names.
pub data MayModerate (store : EventStore) (rpk : Text) (ev : Event) : Type 0 where
  relay : ev.pub_key ≡ rpk → MayModerate store rpk ev
  admin :
      (admins : Event)
      → eqb_ℤ ev.kind kind_create_group ≡ false
      → eqb_ℤ ev.kind kind_delete_group ≡ false
      → store.latest_group_admins_39001 rpk (group_h_tag ev) ≡ success (some admins)
      → admins_39001_contains_pubkey admins ev.pub_key ≡ true
      → MayModerate store rpk ev

moderation-MayModerate :
    (store : EventStore) (rpk : Text) (ev : Event)
    → is_empty (group_h_tag ev) ≡ false
    → (ev.pub_key == rpk) ≡ false
    → eqb_ℤ ev.kind kind_create_group ≡ false
    → eqb_ℤ ev.kind kind_delete_group ≡ false
    → (r : Result (Option Event)) → store.latest_group_admins_39001 rpk (group_h_tag ev) ≡ r
    → validate_moderation store (some rpk) ev ≡ none
    → MayModerate store rpk ev
unfolding validate_moderation
moderation-MayModerate store rpk ev tagged other create del (failure e) q h =
    let k = rw (tagged, other, create, del, q, validate_moderation) at h in cc
moderation-MayModerate store rpk ev tagged other create del (success none) q h =
    let k = rw (tagged, other, create, del, q, validate_moderation) at h in cc
moderation-MayModerate store rpk ev tagged other create del (success (some admins)) q h =
    let k = rw (tagged, other, create, del, q, validate_moderation) at h in
    admin admins create del q (ground (arith, k))

MayModerate-moderation :
    (store : EventStore) (rpk : Text) (ev : Event)
    → is_empty (group_h_tag ev) ≡ false
    → MayModerate store rpk ev
    → validate_moderation store (some rpk) ev ≡ none
unfolding validate_moderation
MayModerate-moderation store rpk ev tagged (relay same) =
    rw (tagged, (==_iff ev.pub_key rpk).1 same) refl
MayModerate-moderation store rpk ev tagged (admin admins create del found named) =
    elim (Bool-cases (ev.pub_key == rpk)) [
      | inl same ↦ rw (tagged, same) refl
      | inr other ↦ rw (tagged, other, create, del, found, validate_moderation, named) refl
    ]

-- With a relay identity, a moderation event passes exactly when it names a group and its author may
-- moderate the group: the relay itself, or for any kind but the creation and the deletion of a
-- group a key on the relay's list of the group's admins.
pub validate_moderation_iff :
    (store : EventStore) (rpk : Text) (ev : Event)
    → (validate_moderation store (some rpk) ev ≡ none)
      ↔ ((is_empty (group_h_tag ev) ≡ false) × MayModerate store rpk ev)
unfolding validate_moderation
validate_moderation_iff store rpk ev = (
  λ h. elim (Bool-cases (is_empty (group_h_tag ev))) [
    | inl bare ↦ let k = rw bare at h in cc
    | inr tagged ↦ (
      tagged,
      elim (Bool-cases (ev.pub_key == rpk)) [
        | inl same ↦ relay ((==_iff ev.pub_key rpk).0 same)
        | inr other ↦
            moderation-MayModerate store rpk ev tagged other (ground arith) (ground arith)
              (store.latest_group_admins_39001 rpk (group_h_tag ev)) refl h
      ],
    )
  ],
  λ (tagged, m). MayModerate-moderation store rpk ev tagged m,
)

require_member_iff :
    (store : EventStore) (rpk gid key : Text) (r : Result Bool)
    → store.is_group_member rpk gid key ≡ r
    → (require_member store rpk gid key ≡ none) ↔ (store.is_group_member rpk gid key ≡ success true)
unfolding require_member
require_member_iff store rpk gid key (failure e) q = rw (q, require_member) (λ h. cc, λ h. cc)
require_member_iff store rpk gid key (success true) q =
    rw (q, require_member) (λ h. refl, λ h. refl)
require_member_iff store rpk gid key (success false) q = rw (q, require_member) (λ h. cc, λ h. cc)

-- In a restricted group an event passes exactly when its author is a member by the store's answer:
-- with a relay identity, for an event that is neither the relay's own nor a moderation event nor a
-- request to join or leave, where the group's metadata say it is restricted.
pub validate_restricted_write_iff :
    (store : EventStore) (rpk : Text) (ev md : Event)
    → is_empty (group_h_tag ev) ≡ false
    → (ev.pub_key == rpk) ≡ false
    → (eqb_ℤ ev.kind kind_join_request || eqb_ℤ ev.kind kind_leave_req) ≡ false
    → is_moderation_kind ev.kind ≡ false
    → store.latest_group_metadata_39000 rpk (group_h_tag ev) ≡ success (some md)
    → metadata_is_restricted md ≡ true
    → (validate_restricted_write store (some rpk) ev ≡ none)
      ↔ (store.is_group_member rpk (group_h_tag ev) ev.pub_key ≡ success true)
unfolding validate_restricted_write check_restricted
validate_restricted_write_iff store rpk ev md tagged other plain kind found restricted =
    rw (tagged, other, plain, kind, found, check_restricted, restricted)
      (require_member_iff store rpk (group_h_tag ev) ev.pub_key
        (store.is_group_member rpk (group_h_tag ev) ev.pub_key) refl)
