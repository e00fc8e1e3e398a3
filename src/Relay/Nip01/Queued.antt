-- ===== src/Relay/Nip01/Queued.antt =====
-- A REQ whose later pages go through the queue.
use mathlib.Core.Option
use congee.Prelude.{
  ℕ, ◌+◌, Text, length, lookup, is_some, any_of, ℤ, List, [], ◌∷◌, ◌++◌, Bool, true, false, not,
  ◌&&◌, Option, none, some, Result, success, failure, map, keep, if◌then◌else◌, ◌≡◌, refl, ◌∙◌,
  arith,
}
use congee.Config.{Config, effective_query_page_size, effective_req_default_query_limit}
use congee.Nostr.Event.{Event}
use congee.Nostr.Filter.{Filter, has_search}
use congee.Nostr.Wire.{event, eose}
use congee.Plugin.Intercept.{Instance, passthrough, intercept_req}
use congee.Relay.Outbox.{Outbox}
use congee.Relay.Outbox.Queue.{HasRoom, push}
use congee.Relay.Subs.{SubEntry, add, new_entry, sub_opened_unix}
use congee.Relay.Fanout.Reach.{State}
use congee.Relay.Auth.{subscribe_auth_required, nip42_has_any_auth}
use congee.Relay.Query.{ReqQueryState, Page, new_req_query_state, fetch_req_page}
use congee.Relay.Reader.{Round, ReqPageJob, enqueue_job, deliver_page, worker}
use congee.Relay.Reader.Worker.{worker-Ended}
use congee.Relay.Reader.Replies.{HasRoom-add}
use congee.Relay.Reader.Ending.{
  Ready, Ended, end_snapshot-Ended, shown, split_shown, page-Ready, page-Ended,
}
use congee.Relay.Nip01.{World, note_count}
use congee.Relay.Nip01.Req.{
  finish_req, finish_pages, first_page, open_req, handle_req, opened_or_zero,
}
use congee.Relay.Nip01.Snapshot.{opened-Ready}

open_stamp :
    (c s : Text) (n : ℕ) (e : SubEntry) (box : Outbox) (x : State)
    → Ready c s n e box x
    → e.closed ≡ false
    → e.opened_unix ≡ opened_or_zero (sub_opened_unix c s x.manager)
unfolding sub_opened_unix
open_stamp c s n e box x r live = rw (sub_opened_unix, r.found, live) refl

-- The rest of a snapshot, whose pages show `evs` more, through an empty queue.
finish_pages-worker :
    (rounds : List Round) (job : ReqPageJob) (has_more : Bool) (w : World) (evs : List Event)
    (e : SubEntry) (box : Outbox)
    → let s = job.sub_id in
      let c = job.conn_id in
      w.jobs ≡ []
      → w.conn.id ≡ c
      → e.closed ≡ false
      → e.opened_unix ≡ job.opened_unix
      → (if has_more then shown rounds c job.page_size job.query else some []) ≡ some evs
      → Ready c s (length (map (event s) evs) + (length e.pending_live + 1)) e box w.state
      → (w' : World) × (y : State) × (Option.map
            (λ (o : World × Option Text). o.0)
            (finish_pages rounds job has_more w)
          ≡ some w')
        × (worker rounds w'.jobs w'.state ≡ some y)
        × Ended c s (map (event s) evs ++ eose s ∷ e.pending_live) e box y
unfolding finish_pages enqueue_job worker
finish_pages-worker rounds job true w evs e box empty own live opened p r =
    let (y, d, ended) = worker-Ended rounds job w.state evs e box p live opened r in
    (record w { jobs = job ∷ [] }, y, rw empty refl, d, ended)
finish_pages-worker rounds job false w [] e box empty own live opened p r = (
  (finish_req job.sub_id w).0,
  (finish_req job.sub_id w).0.state,
  refl,
  rw (finish_req, empty) (idle rounds),
  rw (finish_req, own)
      (end_snapshot-Ended job.conn_id job.sub_id w.state e box (record {
        found = r.found;
        sender = r.sender;
        outbox = r.outbox;
        room = HasRoom-add _ (length e.pending_live + 1) box (omega arith) r.room;
      })),
)
  where
    idle :
        (rounds : List Round)
        → worker rounds [] (finish_req job.sub_id w).0.state
          ≡ some (finish_req job.sub_id w).0.state
    idle [] = refl
    idle (r ∷ rounds) = refl
finish_pages-worker rounds job false w (x ∷ evs) e box empty own live opened p r = cc

-- A first page and the rest, for a subscription that is ready.
first_page-worker :
    (cfg : Config) (r : Round) (rounds : List Round) (s : Text) (w : World) (st : ReqQueryState)
    (evs : List Event) (e : SubEntry) (box : Outbox)
    → let page_size = effective_query_page_size cfg.query_page_size in
      w.jobs ≡ []
      → e.closed ≡ false
      → shown (r ∷ rounds) w.conn.id page_size st ≡ some evs
      → Ready w.conn.id s (length (map (event s) evs) + (length e.pending_live + 1)) e box w.state
      → (w' : World) × (y : State) × (Option.map
            (λ (o : World × Option Text). o.0)
            (first_page cfg r rounds s w (fetch_req_page r.store page_size st))
          ≡ some w')
        × (worker rounds w'.jobs w'.state ≡ some y)
        × Ended w.conn.id s (map (event s) evs ++ eose s ∷ e.pending_live) e box y
unfolding first_page shown
first_page-worker cfg r rounds s w st evs e box empty live h ready =
    turn (fetch_req_page r.store page_size st) refl
  where
    page_size : ℤ
    page_size = effective_query_page_size cfg.query_page_size

    c : Text
    c = w.conn.id

    job : Page → State → ReqPageJob
    job p page = record {
      conn_id = c;
      sub_id = s;
      opened_unix = opened_or_zero (sub_opened_unix c s page.manager);
      query = p.state;
      page_size = page_size;
    }

    turn :
        (q : Result Page)
        → fetch_req_page r.store page_size st ≡ q
        → (w' : World) × (y : State) × (Option.map
              (λ (o : World × Option Text). o.0)
              (first_page cfg r rounds s w (fetch_req_page r.store page_size st))
            ≡ some w')
          × (worker rounds w'.jobs w'.state ≡ some y)
          × Ended c s (map (event s) evs ++ eose s ∷ e.pending_live) e box y
    turn (failure message) q = absurd (ground (arith, rw (q, shown) at h))
    turn (success p) q =
        let now_shown = keep (r.visible c) p.events in
        let page = deliver_page (r.visible c) c s p.events w.state in
        let (more, a, b) =
          split_shown p.has_more now_shown (shown rounds c page_size p.state) evs
            (rw (q, shown) at h) in
        let (f, same, ready') =
          page-Ready (r.visible c) c s p.events more evs w.state e box b ready in
        let live' = same.closed ∙ live in
        let (w', y, d, done, ended) =
          finish_pages-worker rounds (job p page) p.has_more (record w { state = page }) more f
            (push box (map (event s) now_shown)) empty refl live'
            (open_stamp c s _ f (push box (map (event s) now_shown)) page ready' live') a ready' in
        (w', y, rw q d, done, page-Ended s c now_shown more evs e f box y b same ended)

-- A REQ that is not refused and that no plugin takes, of a connection with a sender and enough room,
-- when no other snapshot is in the queue, where no query for a page fails and there are as many
-- rounds of stores as pages: once the handler and the queue's worker are done, the
-- client has been sent the visible events of every page in the order of the pages, and then EOSE,
-- and nothing else; the subscription is open to live events, with the filters that were asked for.
pub handle_req-worker :
    (cfg : Config) (plugins : List Instance) (fresh : Text) (now : ℤ) (search_enabled : Bool)
    (r : Round) (rounds : List Round) (s : Text) (filters : List Filter) (w : World)
    (evs : List Event) (box : Outbox)
    → let page_size = effective_query_page_size cfg.query_page_size in
      let default_limit = effective_req_default_query_limit cfg.default_query_limit in
      let st = new_req_query_state filters default_limit search_enabled in
      (subscribe_auth_required cfg filters && not (nip42_has_any_auth w.conn.auth)) ≡ false
      → intercept_req plugins s filters ≡ passthrough
      → (not search_enabled && any_of has_search filters) ≡ false
      → (add now w.conn.id s filters w.state.manager).1 ≡ none
      → is_some (lookup w.conn.id w.state.manager.senders) ≡ true
      → lookup w.conn.id w.state.net ≡ some box
      → HasRoom (length (map (event s) evs) + 1) box
      → w.jobs ≡ []
      → shown (r ∷ rounds) w.conn.id page_size st ≡ some evs
      → (w' : World) × (y : State) × (Option.map
            (λ (o : World × Option Text). o.0)
            (handle_req cfg plugins fresh now search_enabled r rounds s filters w)
          ≡ some w')
        × (worker rounds w'.jobs w'.state ≡ some y)
        × Ended w.conn.id s (map (event s) evs ++ eose s ∷ []) (new_entry filters now) box y
unfolding handle_req open_req note_count
handle_req-worker cfg plugins fresh now search_enabled r rounds s filters w evs box authed passed
      plain added sender p room empty h =
    let (w', y, d, done, ended) =
      first_page-worker cfg r rounds s (note_count now opened)
        (new_req_query_state filters (effective_req_default_query_limit cfg.default_query_limit)
          search_enabled)
        evs (new_entry filters now) box empty refl h
        (opened-Ready now s filters _ w box added sender p room) in
    (w', y, rw (authed, passed, plain, added) d, done, ended)
  where
    opened : World
    opened = record w {
      state = record w.state { manager = (add now w.conn.id s filters w.state.manager).0 };
    }
