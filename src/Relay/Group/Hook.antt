-- ===== src/Relay/Group/Hook.antt =====
-- internal/relay/nip29.go: `nip29PostStoreHook`, by which the relay publishes events of its own about a
-- group. The relay's key and the store are arguments; the visibility of an event is that of the
-- store at the time. Each `now` is one reading of the clock. An error is only logged.
pub mod Members
pub mod Kept
pub mod Answered
use congee.Prelude.{
  Text, bytes, is_empty, ℤ, eqb_ℤ, List, [], ◌∷◌, Bool, true, false, not, ◌&&◌, Option, none, some,
  Result, success, failure, if◌then◌else◌,
}
use congee.Config.{Config}
use congee.Nostr.Event.{Event}
use congee.Nostr.Group.{
  group_h_tag, kind_group_metadata, kind_put_user, kind_remove_user, kind_create_group,
  kind_join_request, kind_leave_req,
}
use congee.Relay.Group.{nip29_enabled}
use congee.Relay.Nip01.{World}
use congee.Relay.Nip01.Publish.{broadcast_event}

-- An event before it is signed.
abbrev pub draft : ℤ → ℤ → List (List Text) → Event
draft now kind tags = record {
  id = [];
  pub_key = [];
  created_at = now;
  kind = kind;
  tags = tags;
  content = [];
  sig = [];
}

abbrev pub h_tag : Text → List Text
h_tag gid = bytes "h" ∷ gid ∷ []

abbrev pub p_tag : Text → List Text
p_tag pub_key = bytes "p" ∷ pub_key ∷ []

module _ {Store : Type 0} (sign : Event → Result Event) (save : Event → Store → Store × Option Text)
    (visible : Store → Text → Event → Bool) where
  abbrev pub saved_event : Event → World → Store × Option Text → (World × Store) × Option Text
  saved_event ev w (st, some e) = ((w, st), some e)
  saved_event ev w (st, none) = ((broadcast_event (visible st) ev w, st), none)

  abbrev pub signed_event : World × Store → Result Event → (World × Store) × Option Text
  signed_event x (failure e) = (x, some e)
  signed_event (w, st) (success ev) = saved_event ev w (save ev st)

  -- An event is signed, saved and broadcast.
  unfoldable pub publish_own : Event → World × Store → (World × Store) × Option Text
  unfolding broadcast_event
  publish_own ev x = signed_event x (sign ev)

  abbrev pub after_create : ℤ → Text → (World × Store) × Option Text → (World × Store) × Option Text
  after_create now gid (x, some e) = (x, some e)
  after_create now gid (x, none) =
      publish_own (draft now kind_group_metadata ((bytes "d" ∷ gid ∷ []) ∷ [])) x

  abbrev pub unless_known :
      ℤ → Text → World × Store → Result (Option Event) → (World × Store) × Option Text
  unless_known now gid x (failure e) = (x, some e)
  unless_known now gid x (success (some md)) = (x, none)
  unless_known now gid x (success none) =
      after_create now gid (publish_own (draft now kind_create_group (h_tag gid ∷ [])) x)

  unfoldable pub relay_put_user : ℤ → Event → World × Store → (World × Store) × Option Text
  unfolding group_h_tag publish_own bytes
  relay_put_user now join x =
      let gid = group_h_tag join in
      if is_empty gid
      then (x, none)
      else publish_own (draft now kind_put_user (h_tag gid ∷ p_tag join.pub_key ∷ [])) x

  unfoldable pub relay_remove_user : ℤ → Event → World × Store → (World × Store) × Option Text
  unfolding group_h_tag publish_own bytes
  relay_remove_user now leave x =
      let gid = group_h_tag leave in
      if is_empty gid
      then (x, none)
      else publish_own (draft now kind_remove_user (h_tag gid ∷ p_tag leave.pub_key ∷ [])) x

  module _ (known : Text → Text → Store → Result (Option Event)) where
    unfoldable pub ensure_group_metadata :
        ℤ → Text → Text → World × Store → (World × Store) × Option Text
    unfolding publish_own bytes
    ensure_group_metadata now rpk gid x = unless_known now gid x (known rpk gid x.1)

    unfoldable pub post_store_hook :
        Config → Option Text → ℤ → ℤ → Event → Bool → World × Store → (World × Store) × Option Text
    unfolding nip29_enabled group_h_tag ensure_group_metadata relay_put_user relay_remove_user
    post_store_hook cfg none now now' ev stored x = (x, none)
    post_store_hook cfg (some rpk) now now' ev stored x =
        let gid = group_h_tag ev in
        let x1 = if is_empty gid then x else (ensure_group_metadata now rpk gid x).0 in
        let x2 = if eqb_ℤ ev.kind kind_join_request then (relay_put_user now' ev x1).0 else x1 in
        let x3 = if eqb_ℤ ev.kind kind_leave_req then (relay_remove_user now' ev x2).0 else x2 in
        if not (nip29_enabled cfg && stored) then (x, none) else (x3, none)
