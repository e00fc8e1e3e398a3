-- ===== src/Relay/Group/Visibility.antt =====
-- Who sees the events of a private group.
use congee.Prelude.{
  Text, In, In-is_empty, is_empty, eqb_ℤ, eqb_ℤ_iff, List, [], ◌∷◌, Bool, true, false, ◌&&◌, Option,
  none, some, Result, success, failure, ◌≡◌, refl, sym, subst, ◌↔◌, inl, inr, arith,
}
use congee.Nostr.Event.{Event}
use congee.Nostr.Group.{group_h_tag, metadata_is_private}
use congee.Config.{Config}
use congee.Storage.{EventStore}
use congee.Relay.GiftWrap.{nip17_enabled, kind_gift_wrap, gift_wrap_visible}
use congee.Relay.Group.{nip29_enabled, any_member, group_visible, event_visible_to_subscription}

-- Some key that the connection authenticated is a member of the group, and the store says so.
abbrev pub HasMember : EventStore → Text → Text → Option (List Text) → Type 0
HasMember store rpk h authed =
    (keys : List Text) × (pk : Text) × (authed ≡ some keys)
    × In pk keys
    × (store.is_group_member rpk h pk ≡ success true)

abbrev or_empty : Option (List Text) → List Text
or_empty none = []
or_empty (some keys) = keys

any_member-In :
    (store : EventStore) (rpk h : Text) (pks : List Text)
    → any_member store rpk h pks ≡ true
    → (pk : Text) × In pk pks × (store.is_group_member rpk h pk ≡ success true)
unfolding any_member
any_member-In store rpk h [] e = cc
any_member-In store rpk h (pk ∷ pks) e =
    go (store.is_group_member rpk h pk) refl (any_member-In store rpk h pks)
  where
    go :
        (r : Result Bool)
        → store.is_group_member rpk h pk ≡ r
        → (any_member store rpk h pks ≡ true
            → (k : Text) × In k pks × (store.is_group_member rpk h k ≡ success true))
        → (k : Text) × In k (pk ∷ pks) × (store.is_group_member rpk h k ≡ success true)
    go (success true) q ih = (pk, inl refl, q)
    go (success false) q ih = let (k, i, m) = ih (rw (q, any_member) at e) in (k, inr i, m)
    go (failure x) q ih = let (k, i, m) = ih (rw (q, any_member) at e) in (k, inr i, m)

In-any_member :
    (store : EventStore) (rpk h : Text) (pks : List Text) (pk : Text)
    → In pk pks
    → store.is_group_member rpk h pk ≡ success true
    → any_member store rpk h pks ≡ true
unfolding any_member
In-any_member store rpk h [] pk i m = absurd i
In-any_member store rpk h (x ∷ pks) pk (inl e) m = rw (e, m, any_member) refl
In-any_member store rpk h (x ∷ pks) pk (inr i) m =
    later (store.is_group_member rpk h x) refl (In-any_member store rpk h pks pk i m)
  where
    later :
        (r : Result Bool)
        → store.is_group_member rpk h x ≡ r
        → any_member store rpk h pks ≡ true
        → any_member store rpk h (x ∷ pks) ≡ true
    later (success true) q ih = rw (q, any_member) refl
    later (success false) q ih = rw (q, any_member) ih
    later (failure e) q ih = rw (q, any_member) ih

group_visible-private :
    (store : EventStore) (rpk : Text) (authed : Option (List Text)) (ev md : Event)
    → store.latest_group_metadata_39000 rpk (group_h_tag ev) ≡ success (some md)
    → metadata_is_private md ≡ true
    → (group_visible store rpk authed ev ≡ true) ↔ HasMember store rpk (group_h_tag ev) authed
unfolding group_visible
group_visible-private store rpk none ev md found private =
    rw (found, group_visible, private) (λ h. cc, λ (keys, pk, e, i, m). cc)
group_visible-private store rpk (some pks) ev md found private =
    rw (found, group_visible, private)
      (
        λ h.
            let (pk, i, m) = any_member-In store rpk (group_h_tag ev) pks (ground arith) in
            (pks, pk, refl, i, m),
        λ (keys, pk, e, i, m).
            let j : In pk pks = subst (λ o. In pk (or_empty o)) (sym e) i in
            rw (In-is_empty pk pks j) (In-any_member store rpk (group_h_tag ev) pks pk j m),
      )

-- An event of a private group goes to a connection exactly when it has authenticated a key that the
-- store says is a member: where groups are enabled, the relay has an identity, the group's metadata
-- say it is private, and the event is not a gift wrap that the gift wrap rule takes over.
pub event_visible-private_iff :
    (cfg : Config) (store : EventStore) (rpk : Text) (authed : Option (List Text)) (ev md : Event)
    → nip29_enabled cfg ≡ true
    → (nip17_enabled cfg && eqb_ℤ ev.kind kind_gift_wrap) ≡ false
    → is_empty (group_h_tag ev) ≡ false
    → store.latest_group_metadata_39000 rpk (group_h_tag ev) ≡ success (some md)
    → metadata_is_private md ≡ true
    → (event_visible_to_subscription cfg store (some rpk) authed ev ≡ true)
      ↔ HasMember store rpk (group_h_tag ev) authed
unfolding event_visible_to_subscription
event_visible-private_iff cfg store rpk authed ev md groups plain tagged found private =
    rw (plain, groups, tagged) (group_visible-private store rpk authed ev md found private)

-- With gift wraps enabled, no gift wrap reaches a connection by another way than the gift wrap rule,
-- whatever group it claims to be in.
pub event_visible-gift_wrap :
    (cfg : Config) (store : EventStore) (rpk : Option Text) (authed : Option (List Text))
    (ev : Event)
    → nip17_enabled cfg ≡ true
    → ev.kind ≡ kind_gift_wrap
    → event_visible_to_subscription cfg store rpk authed ev ≡ gift_wrap_visible authed ev
unfolding event_visible_to_subscription
event_visible-gift_wrap cfg store rpk authed ev on wrap =
    rw (on, (eqb_ℤ_iff ev.kind kind_gift_wrap).1 wrap) refl
