-- ===== src/Relay/Nip01/Req.antt =====
-- internal/relay/nip01.go: the handler of REQ. What the store answers at each page is a round.
use congee.Prelude.{
  Text, bytes, lookup, any_of, ℤ, pos, List, [], ◌∷◌, Bool, true, not, ◌&&◌, Option, none, some,
  Result, success, failure, if◌then◌else◌,
}
use congee.Config.{Config, effective_query_page_size, effective_req_default_query_limit}
use congee.Nostr.Event.{Event}
use congee.Nostr.Filter.{Filter, has_search}
use congee.Nostr.Wire.{event, eose, closed}
use congee.Plugin.Intercept.{
  Instance, passthrough, reshape_req, respond, intercept_req, get_events_by_ids,
}
use congee.Relay.Outbox.{Outbox, send}
use congee.Relay.Subs.{
  AddError, subscription_id_too_long, too_many_filters, too_many_subscriptions, add,
  sub_opened_unix,
}
use congee.Relay.Fanout.Reach.{State}
use congee.Relay.Auth.{subscribe_auth_required, nip42_has_any_auth}
use congee.Relay.Query.{Page, new_req_query_state, fetch_req_page}
use congee.Relay.Reader.{
  Round, ReqPageJob, enqueue_job, deliver_page, end_snapshot, drain_remaining_pages,
}
use congee.Relay.Nip01.{World, error_text, reply, challenge, note_count}

abbrev pub add_error_text : AddError → Text
add_error_text subscription_id_too_long = bytes "subscription id too long"
add_error_text too_many_filters = bytes "too many filters"
add_error_text too_many_subscriptions = bytes "too many subscriptions"

-- `sendREQAddError`, and the same switch in `handleREQ`.
unfoldable pub send_req_add_error : Text → AddError → World → World × Option Text
unfolding reply
send_req_add_error sub_id e w = reply (closed sub_id (add_error_text e)) w

-- The end of a snapshot, and what the send of its EOSE answers.
unfoldable pub finish_req : Text → World → World × Option Text
unfolding send end_snapshot
finish_req sub_id w = (
  record w { state = end_snapshot w.conn.id sub_id w.state },
  error_text (send w.state.net w.conn.id (eose sub_id)).1,
)

abbrev pub finish_drained : Text → World → Option State → Option (World × Option Text)
finish_drained sub_id w none = none
finish_drained sub_id w (some x) = some (finish_req sub_id (record w { state = x }))

-- What follows the first page. `none` where there are more pages than rounds.
unfoldable pub finish_pages : List Round → ReqPageJob → Bool → World → Option (World × Option Text)
unfolding enqueue_job drain_remaining_pages finish_req
finish_pages rounds job has_more w =
    if has_more
    then (let (jobs', queued) = enqueue_job job w.jobs in
        if queued
        then some (record w { jobs = jobs' }, none)
        else finish_drained job.sub_id w
            (drain_remaining_pages rounds w.conn.id job.sub_id job.page_size job.query w.state))
    else some (finish_req job.sub_id w)

abbrev pub opened_or_zero : Option ℤ → ℤ
opened_or_zero none = pos 0
opened_or_zero (some t) = t

unfoldable pub first_page :
    Config → Round → List Round → Text → World → Result Page → Option (World × Option Text)
unfolding reply finish_pages deliver_page sub_opened_unix effective_query_page_size
first_page cfg r rounds sub_id w (failure e) =
    some (reply (closed sub_id (bytes "internal error")) w)
first_page cfg r rounds sub_id w (success p) =
    let c = w.conn.id in
    let w' = record w { state = deliver_page (r.visible c) c sub_id p.events w.state } in
    finish_pages rounds
      (record {
        conn_id = c;
        sub_id = sub_id;
        opened_unix = opened_or_zero (sub_opened_unix c sub_id w'.state.manager);
        query = p.state;
        page_size = effective_query_page_size cfg.query_page_size;
      })
      p.has_more w'

-- `handleREQ` from the test of search filters on, with the filters that are in effect.
unfoldable pub open_req :
    Config
    → ℤ
    → Bool
    → Round
    → List Round
    → Text
    → List Filter
    → World
    → Option (World × Option Text)
unfolding has_search reply send_req_add_error note_count add new_req_query_state fetch_req_page
    first_page effective_query_page_size effective_req_default_query_limit
open_req cfg now search_enabled r rounds sub_id filters w =
    let (m, err) = add now w.conn.id sub_id filters w.state.manager in
    let w' = record w { state = record w.state { manager = m } } in
    if not search_enabled && any_of has_search filters
    then some (
        reply
          (closed sub_id
            (bytes "search filter is not supported (enable NIP-50 in nips.enabled and restart)"))
          w)
    else elim err [
      | some e ↦ some (send_req_add_error sub_id e w')
      | none ↦ first_page cfg r rounds sub_id (note_count now w') (
          fetch_req_page r.store (effective_query_page_size cfg.query_page_size) (
            new_req_query_state filters (effective_req_default_query_limit cfg.default_query_limit)
              search_enabled))
    ]

abbrev pub is_done : Option Outbox → Bool
is_done none = true
is_done (some box) = box.ctx_done

-- The loop over the events that a plugin answered with.
unfoldable pub send_response : (Event → Bool) → Text → List Event → World → World × Option Text
unfolding reply
send_response visible sub_id [] w = (w, none)
send_response visible sub_id (ev ∷ evs) w =
    let skipped = send_response visible sub_id evs w in
    let shown = send_response visible sub_id evs (reply (event sub_id ev) w).0 in
    if is_done (lookup w.conn.id w.state.net)
    then (w, some (bytes "context canceled"))
    else if not (visible ev)
    then skipped
    else shown

abbrev pub finish_response : Text → World × Option Text → World × Option Text
finish_response sub_id (w, none) = finish_req sub_id w
finish_response sub_id (w, some e) = (w, some e)

abbrev pub hydrated : (Event → Bool) → Text → World → Result (List Event) → World × Option Text
hydrated visible sub_id w (failure e) = reply (closed sub_id (bytes "internal error")) w
hydrated visible sub_id w (success evs) =
    finish_response sub_id (send_response visible sub_id evs w)

-- The plugin's answer takes the place of the store's.
unfoldable pub answer_req : ℤ → Round → Text → List Text → List Filter → World → World × Option Text
unfolding add send_req_add_error note_count get_events_by_ids
answer_req now r sub_id event_ids filters w =
    let (m, err) = add now w.conn.id sub_id filters w.state.manager in
    let w' = record w { state = record w.state { manager = m } } in
    elim err [
      | some e ↦ send_req_add_error sub_id e w'
      | none ↦
          hydrated (r.visible w.conn.id) sub_id (note_count now w')
            (get_events_by_ids r.store event_ids)
    ]

abbrev pub or_filters : List Filter → List Filter → List Filter
or_filters [] filters = filters
or_filters (f ∷ fs) filters = f ∷ fs

unfoldable pub handle_req :
    Config
    → List Instance
    → Text
    → ℤ
    → Bool
    → Round
    → List Round
    → Text
    → List Filter
    → World
    → Option (World × Option Text)
unfolding subscribe_auth_required nip42_has_any_auth challenge reply intercept_req open_req
    answer_req
handle_req cfg plugins fresh now search_enabled r rounds sub_id filters w =
    if subscribe_auth_required cfg filters && not (nip42_has_any_auth w.conn.auth)
    then some (
        reply (closed sub_id (bytes "auth-required: subscription requires authentication"))
          (challenge cfg fresh w))
    else elim (intercept_req plugins sub_id filters) [
      | passthrough ↦ open_req cfg now search_enabled r rounds sub_id filters w
      | reshape_req fs ↦ open_req cfg now search_enabled r rounds sub_id (or_filters fs filters) w
      | respond event_ids fs ↦ some (answer_req now r sub_id event_ids (or_filters fs filters) w)
    ]
