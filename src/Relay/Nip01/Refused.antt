-- ===== src/Relay/Nip01/Refused.antt =====
-- What a REQ that is refused leaves behind.
use congee.Prelude.{
  ◌+◌, Text, bytes, any_of, lookup, ℤ, List, [], ◌∷◌, ◌++◌, Bool, true, false, not, ◌&&◌, Option,
  none, some, ◌≡◌, refl, ap, ◌∙◌, ◌⊎◌, inl, inr,
}
use congee.Config.{Config}
use congee.Nostr.Filter.{Filter, has_search}
use congee.Nostr.Wire.{RelayMessage, closed}
use congee.Plugin.Intercept.{
  Instance, InterceptResult, passthrough, reshape_req, respond, intercept_req,
}
use congee.Relay.Outbox.{Outbox}
use congee.Relay.Outbox.Queue.{HasRoom}
use congee.Relay.Subs.{AddError, add}
use congee.Relay.Subs.Open.{add-entry}
use congee.Relay.Auth.{subscribe_auth_required, nip42_has_any_auth}
use congee.Relay.Reader.{Round}
use congee.Relay.Nip01.{World, reply, challenge}
use congee.Relay.Nip01.Req.{
  add_error_text, or_filters, handle_req, open_req, answer_req, send_req_add_error,
}
use congee.Relay.Nip01.Replied.{
  IsChallenge, Sent, push-nil, challenge-queue, nothing-Sent, challenge-Sent, close-Sent,
  HasRoom-nothing,
}

-- The filters that a REQ is opened with, after the plugins' answer.
abbrev pub in_effect : InterceptResult → List Filter → List Filter
in_effect passthrough filters = filters
in_effect (reshape_req fs) filters = or_filters fs filters
in_effect (respond ids fs) filters = or_filters fs filters

abbrev pub is_answered : InterceptResult → Bool
is_answered passthrough = false
is_answered (reshape_req fs) = false
is_answered (respond ids fs) = true

abbrev pub needs_auth : Config → List Filter → World → Bool
needs_auth cfg filters w =
    subscribe_auth_required cfg filters && not (nip42_has_any_auth w.conn.auth)

-- The connection has not authenticated and has to; or a filter searches, which the relay does not
-- serve, and no plugin answers; or the manager refuses the subscription.
abbrev pub IsRefused :
    Config → InterceptResult → ℤ → Bool → Text → List Filter → World → Text → Type 0
IsRefused cfg i now search_enabled s filters w reason =
    let fs = in_effect i filters in
    let unserved = not (is_answered i) && (not search_enabled && any_of has_search fs) in
    ((needs_auth cfg filters w ≡ true)
      × (reason ≡ bytes "auth-required: subscription requires authentication"))
    ⊎ ((needs_auth cfg filters w ≡ false)
        × (unserved ≡ true)
        × (reason
            ≡ bytes "search filter is not supported (enable NIP-50 in nips.enabled and restart)"))
    ⊎ ((needs_auth cfg filters w ≡ false)
        × (unserved ≡ false)
        × ((e : AddError) × ((add now w.conn.id s fs w.state.manager).1 ≡ some e)
            × (reason ≡ add_error_text e)))

open_req-searches :
    (cfg : Config) (now : ℤ) (search_enabled : Bool) (r : Round) (rounds : List Round) (s : Text)
    (fs : List Filter) (w : World)
    → (not search_enabled && any_of has_search fs) ≡ true
    → open_req cfg now search_enabled r rounds s fs w
      ≡ some (
          reply
            (closed s
              (bytes "search filter is not supported (enable NIP-50 in nips.enabled and restart)"))
            w)
unfolding open_req
open_req-searches cfg now search_enabled r rounds s fs w h = rw (h, open_req) refl

-- The world of a subscription that the manager has refused.
abbrev unopened : ℤ → Text → List Filter → World → World
unopened now s fs w = record w {
  state = record w.state { manager = (add now w.conn.id s fs w.state.manager).0 };
}

open_req-unopened :
    (cfg : Config) (now : ℤ) (search_enabled : Bool) (r : Round) (rounds : List Round) (s : Text)
    (fs : List Filter) (w : World) (e : AddError)
    → (not search_enabled && any_of has_search fs) ≡ false
    → (add now w.conn.id s fs w.state.manager).1 ≡ some e
    → open_req cfg now search_enabled r rounds s fs w
      ≡ some (reply (closed s (add_error_text e)) (unopened now s fs w))
unfolding open_req send_req_add_error
open_req-unopened cfg now search_enabled r rounds s fs w e h q = rw (h, open_req, q) refl

answer_req-unopened :
    (now : ℤ) (r : Round) (s : Text) (ids : List Text) (fs : List Filter) (w : World) (e : AddError)
    → (add now w.conn.id s fs w.state.manager).1 ≡ some e
    → answer_req now r s ids fs w ≡ reply (closed s (add_error_text e)) (unopened now s fs w)
unfolding answer_req send_req_add_error
answer_req-unopened now r s ids fs w e q = rw (answer_req, q) refl

module _ (cfg : Config) (plugins : List Instance) (fresh : Text) (now : ℤ) (search_enabled : Bool)
    (r : Round) (rounds : List Round) (s : Text) (filters : List Filter) (w : World) where
  abbrev handled : Option (World × Option Text)
  handled = handle_req cfg plugins fresh now search_enabled r rounds s filters w

  handled-searches :
      (i : InterceptResult)
      → intercept_req plugins s filters ≡ i
      → needs_auth cfg filters w ≡ false
      → (not (is_answered i) && (not search_enabled && any_of has_search (in_effect i filters)))
        ≡ true
      → handled
        ≡ some (
            reply
              (closed s (
                bytes "search filter is not supported (enable NIP-50 in nips.enabled and restart)"))
              w)
  unfolding handle_req
  handled-searches passthrough q ok h =
      rw (ok, q) (open_req-searches cfg now search_enabled r rounds s filters w h)
  handled-searches (reshape_req fs) q ok h =
      rw (ok, q) (open_req-searches cfg now search_enabled r rounds s (or_filters fs filters) w h)
  handled-searches (respond ids fs) q ok h = cc

  handled-unopened :
      (i : InterceptResult) (e : AddError)
      → intercept_req plugins s filters ≡ i
      → needs_auth cfg filters w ≡ false
      → (not (is_answered i) && (not search_enabled && any_of has_search (in_effect i filters)))
        ≡ false
      → (add now w.conn.id s (in_effect i filters) w.state.manager).1 ≡ some e
      → handled
        ≡ some (reply (closed s (add_error_text e)) (unopened now s (in_effect i filters) w))
  unfolding handle_req
  handled-unopened passthrough e q ok h refused =
      rw (ok, q) (open_req-unopened cfg now search_enabled r rounds s filters w e h refused)
  handled-unopened (reshape_req fs) e q ok h refused =
      rw (ok, q)
        (open_req-unopened cfg now search_enabled r rounds s (or_filters fs filters) w e h refused)
  handled-unopened (respond ids fs) e q ok h refused =
      rw (ok, q)
        (ap (λ o. some o) (answer_req-unopened now r s ids (or_filters fs filters) w e refused))

  handled-needs_auth :
      needs_auth cfg filters w ≡ true
      → handled
        ≡ some (
            reply
              (closed s (bytes "auth-required: subscription requires authentication"))
              (challenge cfg fresh w))
  unfolding handle_req
  handled-needs_auth h = rw h refl

-- A REQ is refused where the connection has to authenticate and has not, where a filter searches,
-- search is off and no plugin answers, or where the manager does not add the subscription. With room
-- for two messages, the connection is sent CLOSED with the reason, and before it at most a challenge,
-- where authentication is what it lacks. Nothing is sent to any other connection, no subscription of
-- any connection changes, and no page is queued.
pub handle_req-refused :
    (cfg : Config) (plugins : List Instance) (fresh : Text) (now : ℤ) (search_enabled : Bool)
    (r : Round) (rounds : List Round) (s : Text) (filters : List Filter) (w : World) (reason : Text)
    (box : Outbox) (d c' s' : Text)
    → lookup w.conn.id w.state.net ≡ some box
    → HasRoom (1 + 1) box
    → IsRefused cfg (intercept_req plugins s filters) now search_enabled s filters w reason
    → (w' : World) × (bs : List RelayMessage) × (handle_req cfg plugins fresh now search_enabled r
          rounds s filters w
        ≡ some (w', none))
      × Sent w w' box (bs ++ closed s reason ∷ []) d c' s'
      × ((bs ≡ []) ⊎ ((needs_auth cfg filters w ≡ true) × IsChallenge bs))
handle_req-refused cfg plugins fresh now search_enabled r rounds s filters w reason box d c' s' p
      room refused =
    elim refused [
      | inl (needs, e) ↦
          let (bs, shape, q, same, manager, jobs, left) = challenge-queue cfg fresh w box p room in
          let (w', done, sent_it) =
            close-Sent w (challenge cfg fresh w) box bs s reason _ d c' s' _ e
              (handled-needs_auth cfg plugins fresh now search_enabled r rounds s filters w needs)
              same q left (challenge-Sent cfg fresh w box bs d c' s' q manager jobs) in
          (w', bs, done, sent_it, inr (needs, shape))
      | inr (inl (ok, searches, e)) ↦
          let (w', done, sent_it) =
            close-Sent w w box [] s reason _ d c' s' _ e
              (handled-searches cfg plugins fresh now search_enabled r rounds s filters w i refl ok
                searches)
              refl (p ∙ ap (λ x. some x) (push-nil box)) (HasRoom-nothing box room)
              (nothing-Sent w w box d c' s' p refl refl refl) in
          (w', [], done, sent_it, inl refl)
      | inr (inr (ok, plain, (e, err, reads))) ↦
          let (w', done, sent_it) =
            close-Sent w (unopened now s fs w) box [] s reason _ d c' s' _ reads
              (handled-unopened cfg plugins fresh now search_enabled r rounds s filters w i e refl
                ok plain err)
              refl (p ∙ ap (λ x. some x) (push-nil box)) (HasRoom-nothing box room)
              (nothing-Sent w (unopened now s fs w) box d c' s' p refl
                (add-entry now w.conn.id s fs w.state.manager c' s' ∙ rw err refl) refl) in
          (w', [], done, sent_it, inl refl)
    ]
  where
    i : InterceptResult
    i = intercept_req plugins s filters

    fs : List Filter
    fs = in_effect i filters
