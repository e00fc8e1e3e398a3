-- ===== src/Relay/Auth.antt =====
-- internal/relay/nip42.go: client authentication. Errors are their messages; the random challenge,
-- the clock, the URL parser and the signature check are arguments.
pub mod Keys
pub mod Skew
pub mod Policy
use congee.Prelude.{
  Text, bytes, ◌==◌, mem_text, mem_int, is_empty, is_some, Map, lookup, insert, map, ℤ, pos, negsuc,
  ltb_ℤ, eqb_ℤ, sub64, neg64, List, [], ◌∷◌, ◌++◌, Bool, true, false, not, ◌&&◌, ◌||◌, Option, none,
  some, Result, success, failure, if◌then◌else◌,
}
use congee.Nostr.Event.{Event}
use congee.Nostr.Filter.{Filter}
use congee.Nostr.Wire.{RelayMessage, marshal_relay_auth}
use congee.Config.{Config, nip_enabled, nip42_created_at_skew}
use congee.Relay.Outbox.{Outbox, SendResult, sent, enqueue}

-- The authentication state of a connection. `nip42_pubkeys` is a set.
pub record AuthState : Type 0 where
  pub nip42_challenge : Text
  pub nip42_auth_sent : Bool
  pub nip42_pubkeys : Map (Unit {0})

unfoldable pub relay_nip42_enabled : Config → Bool
unfolding nip_enabled
relay_nip42_enabled cfg = nip_enabled (pos 42) cfg

abbrev some_kind_in : List ℤ → List ℤ → Bool
some_kind_in req [] = false
some_kind_in req (k ∷ ks) = mem_int k req || some_kind_in req ks

unfoldable pub filters_need_auth : List ℤ → List Filter → Bool
filters_need_auth req [] = false
filters_need_auth req (f ∷ fs) =
    if is_empty f.kinds
    then true
    else if some_kind_in req f.kinds
    then true
    else filters_need_auth req fs

unfoldable pub subscribe_auth_required : Config → List Filter → Bool
unfolding relay_nip42_enabled filters_need_auth
subscribe_auth_required cfg filters =
    if not (relay_nip42_enabled cfg)
    then false
    else if is_empty cfg.require_auth_subscribe_kinds
    then false
    else filters_need_auth cfg.require_auth_subscribe_kinds filters

unfoldable pub nip42_has_pubkey : AuthState → Text → Bool
nip42_has_pubkey c pk = is_some (lookup pk c.nip42_pubkeys)

unfoldable pub nip42_has_any_auth : AuthState → Bool
nip42_has_any_auth c = not (is_empty c.nip42_pubkeys)

unfoldable pub nip42_authed_pubkeys : AuthState → List Text
nip42_authed_pubkeys c = map (λ e. e.0) c.nip42_pubkeys

unfoldable pub nip42_add_pubkey : Text → AuthState → AuthState
nip42_add_pubkey pk c = record c { nip42_pubkeys = insert pk tt c.nip42_pubkeys }

-- A policy returns no error, or one.
unfoldable pub validate_nip42_publish_policy : Config → AuthState → Event → Option Text
unfolding relay_nip42_enabled nip42_has_pubkey
validate_nip42_publish_policy cfg c ev =
    if not (relay_nip42_enabled cfg)
    then none
    else if is_empty cfg.require_auth_publish_kinds && is_empty cfg.allowlisted_pubkeys
    then none
    else if not (mem_int ev.kind cfg.require_auth_publish_kinds)
    then none
    else if not (nip42_has_pubkey c ev.pub_key)
    then some (bytes "auth-required: publish requires authentication for this kind")
    else if not (is_empty cfg.allowlisted_pubkeys)
        && not (mem_text ev.pub_key cfg.allowlisted_pubkeys)
    then some (bytes "restricted: pubkey is not allowlisted to publish")
    else none

unfoldable pub tag_first : List (List Text) → Text → Text
tag_first [] name = []
tag_first ([] ∷ tags) name = tag_first tags name
tag_first ((n ∷ []) ∷ tags) name = tag_first tags name
tag_first ((n ∷ v ∷ r) ∷ tags) name = if n == name then v else tag_first tags name

abbrev pub auth_event_kind : ℤ
auth_event_kind = pos 22242

-- |created_at - now| as the code computes it, in int64.
unfoldable pub created_at_distance : ℤ → ℤ → ℤ
unfolding sub64 neg64
created_at_distance created_at now =
    let dt = sub64 created_at now in if ltb_ℤ dt (pos 0) then neg64 dt else dt

-- `parse_url` is `config.NormalizeNIP42RelayURL`, over net/url; `verify_sig` is `Event.VerifySig`.
module _ (parse_url : Text → Result Text) (verify_sig : Event → Option Text) where
  unfoldable pub check_relay_tag : Config → Event → Option Text
  unfolding tag_first
  check_relay_tag cfg ev = elim (parse_url cfg.relay_url) [
    | failure e ↦ some (bytes "relay URL misconfigured: " ++ e)
    | success want ↦ elim (parse_url (tag_first ev.tags (bytes "relay"))) [
      | failure e ↦ some (bytes "invalid or missing relay tag")
      | success got ↦
          if is_empty got
          then some (bytes "invalid or missing relay tag")
          else if not (got == want)
          then some (bytes "relay tag does not match configured relay URL")
          else none
    ]
  ]

  unfoldable pub check_challenge : Config → Event → Text → ℤ → Option Text
  unfolding tag_first created_at_distance nip42_created_at_skew
  check_challenge cfg ev challenge now =
      let got = tag_first ev.tags (bytes "challenge") in
      if is_empty got || not (got == challenge)
      then some (bytes "challenge mismatch")
      else if ltb_ℤ (nip42_created_at_skew cfg) (created_at_distance ev.created_at now)
      then some (bytes "created_at outside allowed skew")
      else none

  unfoldable pub verify_nip42_auth_event : Config → Event → Text → ℤ → Option Text
  unfolding check_relay_tag check_challenge
  verify_nip42_auth_event cfg ev challenge now =
      if not (eqb_ℤ ev.kind auth_event_kind)
      then some (bytes "invalid authentication event: want kind 22242")
      else elim (verify_sig ev) [
        | some e ↦ some e
        | none ↦ elim (check_relay_tag cfg ev) [
          | some e ↦ some e
          | none ↦ check_challenge cfg ev challenge now
        ]
      ]

  -- The `AUTH` handler: the new state, and what is sent.
  unfoldable pub handle_nip42_auth : Config → ℤ → Event → AuthState → AuthState × RelayMessage
  unfolding relay_nip42_enabled verify_nip42_auth_event nip42_add_pubkey
  handle_nip42_auth cfg now ev c =
      if not (relay_nip42_enabled cfg)
      then (c, RelayMessage.notice (bytes "NIP-42 is not enabled"))
      else if is_empty c.nip42_challenge
      then (
        c,
        RelayMessage.ok ev.id false
            (bytes "auth-required: no challenge was issued for this connection"),
      )
      else elim (verify_nip42_auth_event cfg ev c.nip42_challenge now) [
        | some e ↦ (c, RelayMessage.ok ev.id false (bytes "auth-required: " ++ e))
        | none ↦ (nip42_add_pubkey ev.pub_key c, RelayMessage.ok ev.id true [])
      ]

-- `fresh` is the random challenge that is drawn when there is none.
unfoldable pub nip42_ensure_challenge : Text → AuthState → AuthState
nip42_ensure_challenge fresh c =
    if is_empty c.nip42_challenge then record c { nip42_challenge = fresh } else c

-- The challenge is sent once. The outbox's answer is `none` where nothing was to be sent, or the
-- message could not be made.
unfoldable pub nip42_enqueue_auth_challenge :
    Config → Text → AuthState → Outbox → AuthState × Outbox × Option SendResult
unfolding relay_nip42_enabled nip42_ensure_challenge marshal_relay_auth enqueue
nip42_enqueue_auth_challenge cfg fresh c box =
    if not (relay_nip42_enabled cfg)
    then (c, box, none)
    else if c.nip42_auth_sent
    then (c, box, none)
    else let c' = record (nip42_ensure_challenge fresh c) { nip42_auth_sent = true } in
      elim (marshal_relay_auth c'.nip42_challenge) [
        | none ↦ (c', box, none)
        | some b ↦ let (box', r) = enqueue box b in (c', box', some r)
      ]
