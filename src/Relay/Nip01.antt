-- ===== src/Relay/Nip01.antt =====
-- internal/relay/nip01.go, middleware.go: the handlers of EVENT, REQ and CLOSE, with the answer of
-- an authentication challenge. What a handler returns to the dispatcher is an error or none.
pub mod Req
pub mod Snapshot
pub mod Failures
pub mod Replied
pub mod Refused
pub mod Answers
pub mod Publish
pub mod Queued
use congee.Prelude.{
  ℕ, Text, bytes, has_prefix, ltb, length, lookup, insert, is_empty, any_of, ℤ, pos, List, [], ◌∷◌,
  ◌++◌, Bool, true, false, not, ◌&&◌, Option, none, some, Result, success, failure, if◌then◌else◌,
}
use congee.Config.{Config, effective_query_page_size, effective_req_default_query_limit}
use congee.Nostr.Event.{Event}
use congee.Nostr.Kind.{is_ephemeral}
use congee.Nostr.Filter.{Filter, has_search}
use congee.Nostr.Wire.{RelayMessage, event, eose, closed, ok}
use congee.Storage.{EventStore}
use congee.Plugin.Intercept.{
  Instance, InterceptResult, passthrough, reshape_req, respond, intercept_req, get_events_by_ids,
}
use congee.Relay.Outbox.{Outbox, Net, SendResult, sent, canceled, slow_consumer, send, is_sent}
use congee.Relay.Subs.{
  Manager, AddError, subscription_id_too_long, too_many_filters, too_many_subscriptions, add,
  remove, sub_count, sub_opened_unix, note_sub_eose,
}
use congee.Relay.Fanout.Reach.{State}
use congee.Relay.Auth.{
  AuthState, subscribe_auth_required, nip42_has_any_auth, nip42_enqueue_auth_challenge,
}
use congee.Relay.Hooks.{HookChain, run_hooks}
use congee.Relay.Idle.{IdleClock, note_subscription_count}
use congee.Relay.Query.{ReqQueryState, Page, new_req_query_state, fetch_req_page}
use congee.Relay.Reader.{
  Round, ReqPageJob, enqueue_job, send_to, deliver_page, finish_state, end_snapshot,
  drain_remaining_pages, after_page,
}

-- A connection beside its outbox and its subscriptions.
pub record Conn : Type 0 where
  pub id : Text
  pub auth : AuthState
  pub idle : IdleClock

pub record World : Type 0 where
  pub state : State
  pub conn : Conn
  pub jobs : List ReqPageJob

abbrev pub error_text : SendResult → Option Text
error_text sent = none
error_text canceled = some (bytes "context canceled")
error_text slow_consumer = some (bytes "relay: send buffer full")

-- `return c.enqueue(b)`
unfoldable pub reply : RelayMessage → World → World × Option Text
unfolding send
reply b w =
    let (net', r) = send w.state.net w.conn.id b in
    (record w { state = record w.state { net = net' } }, error_text r)

-- `nip42EnqueueAuthChallenge` on a connection of the world, its answer dropped.
unfoldable pub challenge : Config → Text → World → World
unfolding nip42_enqueue_auth_challenge
challenge cfg fresh w = elim (lookup w.conn.id w.state.net) [
  | none ↦ w
  | some box ↦
      let (auth', box', _) = nip42_enqueue_auth_challenge cfg fresh w.conn.auth box in
      record w {
        state = record w.state { net = insert w.conn.id box' w.state.net };
        conn = record w.conn { auth = auth' };
      }
]

unfoldable pub note_count : ℤ → World → World
unfolding note_subscription_count sub_count
note_count now w = record w {
  conn = record w.conn {
    idle = note_subscription_count now (sub_count w.conn.id w.state.manager) w.conn.idle;
  };
}

unfoldable pub handle_close : ℤ → Text → World → World
unfolding reply remove note_count
handle_close now sub_id w =
    let w' = (reply (closed sub_id []) w).0 in
    note_count now (record w' {
      state = record w'.state { manager = remove w'.conn.id sub_id w'.state.manager };
    })

-- `ValidatorChain.Validate`: the first error.
unfoldable pub validate : List (Conn → Event → Option Text) → Conn → Event → Option Text
validate [] c ev = none
validate (v ∷ list) c ev =
    let rest = validate list c ev in elim (v c ev) [ some e ↦ some e | none ↦ rest ]

abbrev ignoring {ℓ} : {A : Type ℓ} → A × Option Text → A
ignoring (a, _) = a

-- `save_event` is the store's, and `hooks` the chain for an event that was stored or not.
module _ {Store : Type 0} (save_event : Event → Store → Store × Option Text)
    (hooks : Event → Bool → HookChain (World × Store)) where
  abbrev map_world : Store → World × Option Text → (World × Store) × Option Text
  map_world st (w, e) = ((w, st), e)

  abbrev hooks_if_sent : Event → Store → World × Option Text → (World × Store) × Option Text
  hooks_if_sent ev st (w, some e) = ((w, st), some e)
  hooks_if_sent ev st (w, none) = ((run_hooks (hooks ev false) (w, st)).0, none)

  abbrev stored_event : Event → World → Store × Option Text → (World × Store) × Option Text
  stored_event ev w (st, some reason) = map_world st (reply (ok ev.id false reason) w)
  stored_event ev w (st, none) =
      let (w', st') = (run_hooks (hooks ev true) (w, st)).0 in
      map_world st' (reply (ok ev.id true []) w')

  unfoldable pub handle_event :
      Config
      → Text
      → List (Conn → Event → Option Text)
      → Event
      → World
      → Store
      → (World × Store) × Option Text
  unfolding validate reply challenge is_ephemeral run_hooks
  handle_event cfg fresh validators ev w st = elim (validate validators w.conn ev) [
    | some reason ↦
        let w' = if has_prefix reason (bytes "auth-required:") then challenge cfg fresh w else w in
        map_world st (reply (ok ev.id false reason) w')
    | none ↦
        if is_ephemeral ev.kind
        then hooks_if_sent ev st (reply (ok ev.id true []) w)
        else stored_event ev w (save_event ev st)
  ]
