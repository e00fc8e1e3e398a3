-- ===== src/Relay/Reader.antt =====
-- internal/relay/readqueue.go: the queue of REQ pages, and the draining of a snapshot. What the store
-- answers and what is visible at each fetch is a `Round`.
pub mod Replies
pub mod Ending
pub mod Worker
pub mod Drains
pub mod Termination
use congee.Prelude.{
  ℕ, ltb, Text, bytes, length, lookup, is_some, ℤ, List, [], ◌∷◌, ◌++◌, Bool, true, false, not,
  Option, none, some, Result, success, failure, if◌then◌else◌,
}
use congee.Nostr.Event.{Event}
use congee.Nostr.Wire.{RelayMessage, event, eose, closed}
use congee.Storage.{EventStore}
use congee.Relay.Outbox.{Net, send, is_sent}
use congee.Relay.Subs.{Manager, remove, is_same_snapshot, note_sub_initial_delivery, note_sub_eose}
use congee.Relay.Fanout.{finish_snapshot}
use congee.Relay.Fanout.Reach.{State}
use congee.Relay.Query.{ReqQueryState, fetch_req_page, Page}

pub record Round : Type 0 where
  pub store : EventStore
  pub visible : Text → Event → Bool

pub record ReqPageJob : Type 0 where
  pub conn_id : Text
  pub sub_id : Text
  pub opened_unix : ℤ
  pub query : ReqQueryState
  pub page_size : ℤ

abbrev pub reader_queue_capacity : ℕ
reader_queue_capacity = 1024

-- `ReaderQueue.Enqueue`: the new queue, and whether there was room.
unfoldable pub enqueue_job : ReqPageJob → List ReqPageJob → List ReqPageJob × Bool
enqueue_job job jobs =
    if ltb (length jobs) reader_queue_capacity then (jobs ++ job ∷ [], true) else (jobs, false)

-- `Conn.sendEvent` and its kind, where only the outboxes change.
unfoldable pub send_to : Text → RelayMessage → State → State × Bool
unfolding send
send_to conn_id b x = let (net', r) = send x.net conn_id b in (record x { net = net' }, is_sent r)

-- The loop over the events of a page.
unfoldable pub deliver_page : (Event → Bool) → Text → Text → List Event → State → State
unfolding send_to note_sub_initial_delivery
deliver_page visible conn_id sub_id [] x = x
deliver_page visible conn_id sub_id (ev ∷ evs) x =
    let skipped = deliver_page visible conn_id sub_id evs x in
    let (x', ok) = send_to conn_id (event sub_id ev) x in
    let sent =
      deliver_page visible conn_id sub_id evs
        (record x' { manager = note_sub_initial_delivery conn_id sub_id ok x'.manager }) in
    if not (visible ev) then skipped else sent

unfoldable pub finish_state : Text → Text → State → State
unfolding finish_snapshot
finish_state conn_id sub_id x =
    let (net', m') = finish_snapshot conn_id sub_id x.net x.manager in
    record { net = net'; manager = m' }

unfoldable pub close_sub_on_query_error : Text → Text → State → State
unfolding send_to finish_state
close_sub_on_query_error conn_id sub_id x =
    let x' = (send_to conn_id (closed sub_id (bytes "internal error")) x).0 in
    finish_state conn_id sub_id (record x' { manager = remove conn_id sub_id x'.manager })

-- The end of a snapshot: EOSE, its count, and the buffered events.
unfoldable pub end_snapshot : Text → Text → State → State
unfolding send_to finish_state
end_snapshot conn_id sub_id x =
    let (x', ok) = send_to conn_id (eose sub_id) x in
    if ok
    then finish_state conn_id sub_id
        (record x' { manager = note_sub_eose conn_id sub_id x'.manager })
    else x'

-- `none` where there are more pages than rounds.
unfoldable pub drain_remaining_pages :
    List Round → Text → Text → ℤ → ReqQueryState → State → Option State
unfolding fetch_req_page deliver_page close_sub_on_query_error
drain_remaining_pages [] conn_id sub_id page_size st x = none
drain_remaining_pages (r ∷ rounds) conn_id sub_id page_size st x =
    elim (fetch_req_page r.store page_size st) [
      | failure e ↦ some (close_sub_on_query_error conn_id sub_id x)
      | success p ↦
          let x' = deliver_page (r.visible conn_id) conn_id sub_id p.events x in
          let rest = drain_remaining_pages rounds conn_id sub_id page_size p.state x' in
          if p.has_more then rest else some x'
    ]

abbrev pub map_end : Text → Text → Option State → Option State
map_end conn_id sub_id none = none
map_end conn_id sub_id (some x) = some (end_snapshot conn_id sub_id x)

-- What follows a page that was fetched: the job goes back to the queue, or the rest is drained.
unfoldable pub after_page :
    List Round → ReqPageJob → Bool → List ReqPageJob → State → List ReqPageJob × Option State
unfolding enqueue_job drain_remaining_pages end_snapshot
after_page rounds job has_more jobs x =
    if has_more
    then (let (jobs', queued) = enqueue_job job jobs in
        if queued then (jobs', some x) else (
          jobs,
          map_end job.conn_id job.sub_id
              (drain_remaining_pages rounds job.conn_id job.sub_id job.page_size job.query x),
        ))
    else (jobs, some (end_snapshot job.conn_id job.sub_id x))

-- What `runJob` does with what the store answered.
unfoldable pub run_page :
    Round
    → List Round
    → ReqPageJob
    → List ReqPageJob
    → State
    → Result Page
    → List ReqPageJob × Option State
unfolding deliver_page close_sub_on_query_error after_page
run_page r rounds job jobs x (failure e) =
    (jobs, some (close_sub_on_query_error job.conn_id job.sub_id x))
run_page r rounds job jobs x (success p) =
    after_page rounds (record job { query = p.state }) p.has_more jobs
      (deliver_page (r.visible job.conn_id) job.conn_id job.sub_id p.events x)

-- `runJob`: the first round is that of the job's page, the others those of draining. A connection is
-- known while it has an outbox.
unfoldable pub run_job :
    Round → List Round → ReqPageJob → List ReqPageJob → State → List ReqPageJob × Option State
unfolding is_same_snapshot fetch_req_page run_page
run_job r rounds job jobs x =
    if not (is_some (lookup job.conn_id x.net))
    then (jobs, some x)
    else if not (is_same_snapshot job.conn_id job.sub_id job.opened_unix x.manager)
    then (jobs, some x)
    else run_page r rounds job jobs x (fetch_req_page r.store job.page_size job.query)

abbrev then_on :
    (List ReqPageJob → State → Option State) → List ReqPageJob × Option State → Option State
then_on go (jobs, none) = none
then_on go (jobs, some x) = go jobs x

-- `worker`: one round for each job, the last of them put back by the job itself. `none` where there
-- are more jobs to run than rounds; the drains of a full queue have no rounds here.
unfoldable pub worker : List Round → List ReqPageJob → State → Option State
unfolding run_job
worker rounds [] x = some x
worker [] (job ∷ jobs) x = none
worker (r ∷ rounds) (job ∷ jobs) x =
    then_on (λ jobs' y. worker rounds jobs' y) (run_job r [] job jobs x)
