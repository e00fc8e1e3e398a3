-- ===== src/Tests/Rows.antt =====
-- The rows of the SQL store, and the relay's own events about a member, at concrete values.
use congee.Prelude.{
  Text, bytes, ◌==◌, is_empty, text_lt, In, NoDup, map, keep, pos, List, [], ◌∷◌, Bool, true, false,
  Option, none, some, Result, success, failure, ◌≡◌, refl, sym, ap, ◌↔◌, ◌⊎◌, inl, inr, arith,
}
use congee.Nostr.Event.{Event}
use congee.Nostr.Filter.{Filter, filters_match}
use congee.Nostr.Group.{group_h_tag, kind_put_user, kind_remove_user}
use congee.Storage.Events.{replaced, save_event, is_group_member, has_event_id, member_row}
use congee.Storage.Events.Rows.{here, next, saves, RowsReach-unique}
use congee.Storage.Events.Replaced.{IsEphemeral, Supersedes, save_event-replaces}
use congee.Storage.Query.{query_events}
use congee.Storage.Query.Live.{IsOpen}
use congee.Storage.Query.Reached.{query_events-reached}
use congee.Relay.Group.{nip29_enabled}
use congee.Relay.Group.Hook.{h_tag, p_tag}
use congee.Relay.Group.Hook.Members.{Signs, Before}
use congee.Relay.Group.Hook.Answered.{
  request_kind, answer, with_metadata, hooked, post_store_hook-member, post_store_hook-same_second,
}
use congee.Tests.{key, relay_key, s1, every, note, config}
use congee.Tests.Requests.{asking}

abbrev engine : Text
engine = bytes "sqlite"

abbrev conflict : Text
conflict = bytes "UNIQUE constraint failed"

-- Two profiles of one author, the second of an earlier time.
abbrev profile : Event
profile = record note { kind = pos 0 }

abbrev old_profile : Event
old_profile = record note { kind = pos 0; id = 8 ∷ []; created_at = pos 2 }

abbrev profile_rows : List Event
profile_rows =
    (save_event engine conflict none old_profile (save_event engine conflict none profile []).0).0

RowsReach-unique_example :
    NoDup (map (λ e. e.id) profile_rows)
    × ((e f : Event) → In e profile_rows → In f profile_rows → replaced e f ≡ true → e ≡ f)
RowsReach-unique_example =
    RowsReach-unique engine conflict profile_rows
      (next (next here (saves none profile)) (saves none old_profile))

profile_kind : ¬ IsEphemeral (pos 0)
profile_kind (a, b) = omega (arith, a)

same_id : (x : Event) → In x (profile ∷ []) → x.id ≡ old_profile.id → Supersedes old_profile x
same_id x (inl q) h =
    (sym (ap (λ (e : Event). e.pub_key) q), sym (ap (λ (e : Event). e.kind) q), inl (inl refl))
same_id x (inr i) h = absurd i

save_event-replaces_example :
    ((save_event engine conflict none old_profile (profile ∷ [])).1 ≡ none)
    × (In profile (save_event engine conflict none old_profile (profile ∷ [])).0 ↔ (
        (In profile (profile ∷ []) × (¬ Supersedes old_profile profile)) ⊎ (old_profile ≡ profile)))
save_event-replaces_example =
    save_event-replaces old_profile (profile ∷ []) engine conflict profile profile_kind same_id

abbrev tagged : Filter
tagged = record every { kinds = pos 0 ∷ []; tag = (bytes "#h", bytes "g" ∷ []) ∷ [] }

tagged-IsOpen : IsOpen tagged
unfolding bytes ◌==◌
tagged-IsOpen = record { limit = refl; keys = ((bytes "h", refl), tt); wanted = (refl, tt) }

abbrev group_profile : Event
group_profile = record profile { tags = (bytes "h" ∷ bytes "g" ∷ []) ∷ [] }

abbrev group_rows : List Event
group_rows = (save_event engine conflict none group_profile []).0

query_events-reached_example :
    In group_profile (query_events (tagged ∷ []) group_rows)
    ↔ In group_profile group_rows × (filters_match (tagged ∷ []) group_profile ≡ true)
query_events-reached_example =
    query_events-reached engine conflict group_rows (tagged ∷ []) group_profile
      (next here (saves none group_profile)) (tagged-IsOpen, tt)

-- A signer whose events have the id 3.
abbrev sign : Event → Result Event
sign ev = success (record ev { id = s1; pub_key = relay_key })

abbrev signed : Result Event → Event
signed (success s) = s
signed (failure e) = note

sign-Signs : Signs relay_key sign
sign-Signs ev s q =
    let e = ap signed q in
    (
      sym (ap (λ (x : Event). x.pub_key) e),
      sym (ap (λ (x : Event). x.created_at) e),
      sym (ap (λ (x : Event). x.kind) e),
      sym (ap (λ (x : Event). x.tags) e),
    )

abbrev sees : List Event → Text → Event → Bool
sees rows c e = true

abbrev healthy : Event → Option Text
healthy ev = none

-- The metadata of every group is stored.
abbrev known : Text → Text → List Event → Result (Option Event)
known rpk gid rows = success (some note)

abbrev request : Bool → Event
request joins = record note { kind = request_kind joins; tags = h_tag (bytes "g") ∷ [] }

request-named : (joins : Bool) → is_empty (group_h_tag (request joins)) ≡ false
unfolding group_h_tag bytes ◌==◌
request-named joins = refl

-- The user has left the group before.
abbrev removed : Event
removed = record note {
  id = 1 ∷ [];
  pub_key = relay_key;
  created_at = pos 3;
  kind = kind_remove_user;
  tags = h_tag (group_h_tag (request true)) ∷ p_tag key ∷ [];
}

removed-Before :
    Before relay_key (group_h_tag (request true)) (request true).pub_key (pos 9) (removed ∷ [])
unfolding group_h_tag bytes ◌==◌
removed-Before = (omega arith, tt)

-- The relay's event as the signer returns it.
abbrev signed_answer : Bool → Event
signed_answer joins = signed (sign (answer joins (pos 9) (request joins)))

absent :
    (joins : Bool) (row : Event)
    → has_event_id s1 (row ∷ []) ≡ false
    → has_event_id
        (signed_answer joins).id
        (with_metadata engine conflict relay_key healthy sign sees sign-Signs known
          (pos 9)
          (request joins)
          asking
          (row ∷ [])).1
      ≡ false
unfolding congee.Relay.Group.Hook.ensure_group_metadata
absent joins row h = h

new_id : (row : Event) → row.id ≡ 1 ∷ [] → has_event_id s1 (row ∷ []) ≡ false
unfolding has_event_id ◌==◌
new_id row q = rw q refl

post_store_hook-member_example :
    is_group_member relay_key (group_h_tag (request true)) (request true).pub_key (
      hooked engine conflict relay_key healthy sign sees sign-Signs known
        (config (pos 29 ∷ []))
        (pos 9)
        (pos 9)
        (request true)
        asking
        (removed ∷ []))
    ≡ true
unfolding nip29_enabled
post_store_hook-member_example =
    post_store_hook-member engine conflict relay_key healthy sign sees sign-Signs known
      (config (pos 29 ∷ [])) true (pos 9) (pos 9) (request true) (signed_answer true) asking
      (removed ∷ []) refl (request-named true) refl removed-Before refl refl
      (absent true removed (new_id removed refl))

abbrev put : Event
put = record removed { created_at = pos 9; kind = kind_put_user }

only_put :
    keep (member_row relay_key (group_h_tag (request false)) (request false).pub_key) (put ∷ [])
    ≡ put ∷ []
unfolding group_h_tag bytes ◌==◌
only_put = refl

later_id : text_lt put.id s1 ≡ true
unfolding text_lt
later_id = refl

post_store_hook-same_second_example :
    is_group_member relay_key (group_h_tag (request false)) (request false).pub_key (
      hooked engine conflict relay_key healthy sign sees sign-Signs known
        (config (pos 29 ∷ []))
        (pos 9)
        (pos 9)
        (request false)
        asking
        (put ∷ []))
    ≡ true
unfolding nip29_enabled
post_store_hook-same_second_example =
    post_store_hook-same_second engine conflict relay_key healthy sign sees sign-Signs known
      (config (pos 29 ∷ [])) (pos 9) (request false) put (signed_answer false) asking (put ∷ [])
      refl (request-named false) refl only_put refl refl refl (absent false put (new_id put refl))
      later_id
