-- ===== src/Tests/Policies.antt =====
-- Filters, authentication, gift wraps and groups at concrete events.
use congee.Prelude.{
  Text, bytes, ◌==◌, In, to_lower, ◌-◌, ◌^◌, pos, negsuc, ◌-ℤ◌, List, [], ◌∷◌, true, Option, none,
  some, Result, success, ◌≡◌, ◌↔◌, ◌⊎◌, refl, arith,
}
use congee.Nostr.Event.{Event}
use congee.Nostr.Filter.{Filter, matches}
use congee.Nostr.Filter.Matching.{Satisfies, matches-iff-Satisfies}
use congee.Nostr.Group.{group_h_tag, metadata_is_private}
use congee.Relay.Auth.{
  AuthState, relay_nip42_enabled, nip42_has_pubkey, handle_nip42_auth, created_at_distance,
  verify_nip42_auth_event,
}
use congee.Relay.Auth.Keys.{Answers, handle_nip42_auth-has}
use congee.Relay.Auth.Skew.{IsNear, verify_nip42_auth_event-IsNear}
use congee.Config.{nip42_created_at_skew}
use congee.Relay.GiftWrap.{nip17_enabled, kind_gift_wrap, gift_wrap_visible}
use congee.Relay.GiftWrap.Recipients.{IsRecipient, gift_wrap_visible_iff}
use congee.Relay.Group.{event_visible_to_subscription, validate_late_publication, nip29_enabled}
use congee.Relay.Group.Visibility.{HasMember, event_visible-private_iff, event_visible-gift_wrap}
use congee.Relay.Group.Validators.{validate_late_publication-overflow}
use congee.Tests.{key, relay_key, every, note, group_note, config, store, metadata}

abbrev notes_of_key : Filter
notes_of_key = record every { authors = key ∷ []; kinds = pos 1 ∷ []; since = some (pos 3) }

matches-iff-Satisfies_example : (matches notes_of_key note ≡ true) ↔ Satisfies notes_of_key note
matches-iff-Satisfies_example = matches-iff-Satisfies notes_of_key note

-- An authentication with the challenge `1` and a parser that takes every address as it is.
abbrev parse_url : Text → Result Text
parse_url t = success t

abbrev verify_sig : Event → Option Text
verify_sig ev = none

abbrev challenged : AuthState
challenged = record { nip42_challenge = 1 ∷ []; nip42_auth_sent = true; nip42_pubkeys = [] }

abbrev answer : Event
answer = record note {
  kind = pos 22242;
  tags = (bytes "relay" ∷ (6 ∷ []) ∷ []) ∷ (bytes "challenge" ∷ (1 ∷ []) ∷ []) ∷ [];
}

handle_nip42_auth-has_example :
    (nip42_has_pubkey
        (handle_nip42_auth parse_url verify_sig (config (pos 42 ∷ [])) (pos 5) answer challenged).0
        key
      ≡ true)
    ↔ ((nip42_has_pubkey challenged key ≡ true)
        ⊎ ((key ≡ key)
            × (relay_nip42_enabled (config (pos 42 ∷ [])) ≡ true)
            × Answers parse_url verify_sig (config (pos 42 ∷ [])) (1 ∷ []) (pos 5) answer))
handle_nip42_auth-has_example =
    handle_nip42_auth-has parse_url verify_sig (config (pos 42 ∷ [])) (pos 5) answer challenged key

answer-passed :
    verify_nip42_auth_event parse_url verify_sig (config (pos 42 ∷ [])) answer (1 ∷ []) (pos 5)
    ≡ none
unfolding verify_nip42_auth_event created_at_distance ◌==◌ bytes
answer-passed = refl

verify_nip42_auth_event-IsNear_example :
    (verify_nip42_auth_event parse_url verify_sig (config (pos 42 ∷ [])) answer (1 ∷ []) (pos 900)
      ≡ none)
    ↔ IsNear (nip42_created_at_skew (config (pos 42 ∷ []))) (answer.created_at -ℤ pos 900)
unfolding ◌-ℤ◌
verify_nip42_auth_event-IsNear_example =
    verify_nip42_auth_event-IsNear parse_url verify_sig (config (pos 42 ∷ [])) answer (1 ∷ [])
      (pos 5) (pos 900) answer-passed (omega arith)

abbrev recipient : Text
recipient = bytes "aAaaaaaaaaaaaaaaaaaaaaaaaaaaaaaaaaaaaaaaaaaaaaaaaaaaaaaaaaaaaaaa"

abbrev wrap : Event
wrap = record note { kind = kind_gift_wrap; tags = (bytes "p" ∷ recipient ∷ []) ∷ [] }

gift_wrap_visible_iff_example : (gift_wrap_visible (some (recipient ∷ [])) wrap ≡ true) ↔ (
    (keys : List Text) × (pk : Text) × (some (recipient ∷ []) ≡ some keys)
    × In pk keys
    × IsRecipient wrap.tags (to_lower pk))
gift_wrap_visible_iff_example = gift_wrap_visible_iff (some (recipient ∷ [])) wrap

event_visible-private_iff_example :
    (event_visible_to_subscription
        (config (pos 29 ∷ []))
        store
        (some relay_key)
        (some (key ∷ []))
        group_note
      ≡ true)
    ↔ HasMember store relay_key (group_h_tag group_note) (some (key ∷ []))
unfolding nip29_enabled nip17_enabled group_h_tag metadata_is_private bytes ◌==◌
event_visible-private_iff_example =
    event_visible-private_iff (config (pos 29 ∷ [])) store relay_key (some (key ∷ [])) group_note
      metadata refl refl refl refl refl

event_visible-gift_wrap_example :
    event_visible_to_subscription (config (pos 17 ∷ [])) store none (some (recipient ∷ [])) wrap
    ≡ gift_wrap_visible (some (recipient ∷ [])) wrap
unfolding nip17_enabled
event_visible-gift_wrap_example =
    event_visible-gift_wrap (config (pos 17 ∷ [])) store none (some (recipient ∷ [])) wrap refl refl

validate_late_publication-overflow_example :
    validate_late_publication
      (config [])
      (pos 2000000000)
      (record group_note { created_at = negsuc (2 ^ 63 - 1) })
    ≡ none
validate_late_publication-overflow_example =
    validate_late_publication-overflow (config []) 2000000000 (2 ^ 63 - 1)
      (record group_note { created_at = negsuc (2 ^ 63 - 1) }) refl (omega arith) (omega arith)
      (omega arith)
