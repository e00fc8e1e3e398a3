-- ===== src/Relay/Nip01/Snapshot.antt =====
-- What a client is sent for a REQ that is not refused.
use congee.Prelude.{
  ℕ, ◌+◌, Text, ==_refl, ltb, length, lookup, is_some, any_of, ℤ, List, [], ◌∷◌, ◌++◌, Bool, true,
  false, not, ◌&&◌, none, some, Result, success, failure, map, keep, if◌then◌else◌, ◌≡◌, refl, ap,
  sym, ◌∙◌, subst, arith,
}
use congee.Config.{Config, effective_query_page_size, effective_req_default_query_limit}
use congee.Nostr.Event.{Event}
use congee.Nostr.Filter.{Filter, has_search}
use congee.Nostr.Wire.{event, eose}
use congee.Plugin.Intercept.{Instance, passthrough, intercept_req}
use congee.Relay.Outbox.{Outbox}
use congee.Relay.Outbox.Queue.{HasRoom, push, send-HasRoom}
use congee.Relay.Subs.{SubEntry, add, new_entry, sub_opened_unix}
use congee.Relay.Subs.Open.{add-entry, add-senders}
use congee.Relay.Fanout.Reach.{State}
use congee.Relay.Auth.{subscribe_auth_required, nip42_has_any_auth}
use congee.Relay.Query.{ReqQueryState, Page, new_req_query_state, fetch_req_page}
use congee.Relay.Reader.{Round, ReqPageJob, reader_queue_capacity, enqueue_job, deliver_page}
use congee.Relay.Reader.Replies.{HasRoom-add}
use congee.Relay.Reader.Ending.{
  Ready, Ended, Served-Ready, Ended-after, end_snapshot-Ended, shown, drain-Served, split_shown,
  page-Ready, page-Ended,
}
use congee.Relay.Nip01.{World, note_count, error_text}
use congee.Relay.Nip01.Req.{
  finish_req, finish_pages, first_page, open_req, handle_req, opened_or_zero,
}

finish_req-Ended :
    (c s : Text) (w : World) (e : SubEntry) (box : Outbox)
    → w.conn.id ≡ c
    → Ready c s (length e.pending_live + 1) e box w.state
    → ((finish_req s w).1 ≡ none)
      × Ended c s (eose s ∷ e.pending_live) e box (finish_req s w).0.state
unfolding finish_req
finish_req-Ended c s w e box q r = (
  rw (q) (
      ap error_text
        (send-HasRoom (length e.pending_live) w.state.net c (eose s) box r.outbox r.room).1),
  rw (q) (end_snapshot-Ended c s w.state e box r),
)

-- The rest of a snapshot, whose pages show `evs` more, is drained when the queue is full.
finish_pages-Ended :
    (rounds : List Round) (job : ReqPageJob) (has_more : Bool) (w : World) (evs : List Event)
    (e : SubEntry) (box : Outbox)
    → ltb (length w.jobs) reader_queue_capacity ≡ false
    → (if has_more then shown rounds w.conn.id job.page_size job.query else some []) ≡ some evs
    → Ready w.conn.id job.sub_id
        (length (map (event job.sub_id) evs) + (length e.pending_live + 1))
        e
        box
        w.state
    → (w' : World) × (finish_pages rounds job has_more w ≡ some (w', none))
      × Ended w.conn.id job.sub_id
          (map (event job.sub_id) evs ++ eose job.sub_id ∷ e.pending_live)
          e
          box
          w'.state
unfolding finish_pages enqueue_job
finish_pages-Ended rounds job false w [] e box full p r =
    let (ok, ended) = finish_req-Ended w.conn.id job.sub_id w e box refl (record {
      found = r.found;
      sender = r.sender;
      outbox = r.outbox;
      room = HasRoom-add _ (length e.pending_live + 1) box (omega arith) r.room;
    }) in
    ((finish_req job.sub_id w).0, ap (λ o. some ((finish_req job.sub_id w).0, o)) ok, ended)
finish_pages-Ended rounds job false w (x ∷ evs) e box full p r = cc
finish_pages-Ended rounds job true w evs e box full p r =
    let (y, d, served) =
      drain-Served rounds w.conn.id job.sub_id job.page_size job.query w.state evs p in
    let (f, same, r') =
      Served-Ready w.conn.id job.sub_id (map (event job.sub_id) evs) w.state y
        (length e.pending_live + 1) e box served r in
    let (ok, ended) =
      finish_req-Ended w.conn.id job.sub_id (record w { state = y }) f
        (push box (map (event job.sub_id) evs)) refl
        (subst
          (λ l.
            Ready w.conn.id job.sub_id (length l + 1) f (push box (map (event job.sub_id) evs)) y)
          (sym same.pending_live) r') in
    (
      (finish_req job.sub_id (record w { state = y })).0,
      rw (full, d) (ap (λ o. some ((finish_req job.sub_id (record w { state = y })).0, o)) ok),
      Ended-after w.conn.id job.sub_id (map (event job.sub_id) evs)
          (eose job.sub_id ∷ e.pending_live) e f box
          (finish_req job.sub_id (record w { state = y })).0.state same
          (subst
            (λ l.
              Ended w.conn.id job.sub_id (eose job.sub_id ∷ l) f
                (push box (map (event job.sub_id) evs))
                (finish_req job.sub_id (record w { state = y })).0.state)
            same.pending_live ended),
    )

-- A first page and the rest, for a subscription that is ready.
first_page-Ended :
    (cfg : Config) (r : Round) (rounds : List Round) (s : Text) (w : World) (st : ReqQueryState)
    (evs : List Event) (e : SubEntry) (box : Outbox)
    → let page_size = effective_query_page_size cfg.query_page_size in
      ltb (length w.jobs) reader_queue_capacity ≡ false
      → shown (r ∷ rounds) w.conn.id page_size st ≡ some evs
      → Ready w.conn.id s (length (map (event s) evs) + (length e.pending_live + 1)) e box w.state
      → (w' : World) × (first_page cfg r rounds s w (fetch_req_page r.store page_size st)
          ≡ some (w', none))
        × Ended w.conn.id s (map (event s) evs ++ eose s ∷ e.pending_live) e box w'.state
unfolding first_page shown
first_page-Ended cfg r rounds s w st evs e box full h ready =
    turn (fetch_req_page r.store page_size st) refl
  where
    page_size : ℤ
    page_size = effective_query_page_size cfg.query_page_size

    c : Text
    c = w.conn.id

    job : Page → State → ReqPageJob
    job p page = record {
      conn_id = c;
      sub_id = s;
      opened_unix = opened_or_zero (sub_opened_unix c s page.manager);
      query = p.state;
      page_size = page_size;
    }

    turn :
        (q : Result Page)
        → fetch_req_page r.store page_size st ≡ q
        → (w' : World) × (first_page cfg r rounds s w (fetch_req_page r.store page_size st)
            ≡ some (w', none))
          × Ended c s (map (event s) evs ++ eose s ∷ e.pending_live) e box w'.state
    turn (failure message) q = absurd (ground (arith, rw (q, shown) at h))
    turn (success p) q =
        let now_shown = keep (r.visible c) p.events in
        let page = deliver_page (r.visible c) c s p.events w.state in
        let (more, a, b) =
          split_shown p.has_more now_shown (shown rounds c page_size p.state) evs
            (rw (q, shown) at h) in
        let (f, same, ready') =
          page-Ready (r.visible c) c s p.events more evs w.state e box b ready in
        let (w', d, ended) =
          finish_pages-Ended rounds (job p page) p.has_more (record w { state = page }) more f
            (push box (map (event s) now_shown)) full a ready' in
        (w', rw q d, page-Ended s c now_shown more evs e f box w'.state b same ended)

-- Registering the subscription leaves it ready, with a new entry.
pub opened-Ready :
    (now : ℤ) (s : Text) (filters : List Filter) (n : ℕ) (w : World) (box : Outbox)
    → (add now w.conn.id s filters w.state.manager).1 ≡ none
    → is_some (lookup w.conn.id w.state.manager.senders) ≡ true
    → lookup w.conn.id w.state.net ≡ some box
    → HasRoom n box
    → Ready w.conn.id s n
        (new_entry filters now)
        box
        (record w.state { manager = (add now w.conn.id s filters w.state.manager).0 })
opened-Ready now s filters n w box added sender p room = record {
  found = rw (add-entry, added, ==_refl w.conn.id, ==_refl s) refl;
  sender =
      ap (λ l. is_some (lookup w.conn.id l)) (add-senders now w.conn.id s filters w.state.manager)
      ∙ sender;
  outbox = p;
  room = room;
}

-- A REQ that is not refused and that no plugin takes, of a connection with a sender and enough room,
-- whose pages are all fetched in its own handler: the client is sent the visible events of every
-- page in the order of the pages, and then EOSE, and nothing else; the subscription is open to live
-- events, with the filters that were asked for.
pub handle_req-Ended :
    (cfg : Config) (plugins : List Instance) (fresh : Text) (now : ℤ) (search_enabled : Bool)
    (r : Round) (rounds : List Round) (s : Text) (filters : List Filter) (w : World)
    (evs : List Event) (box : Outbox)
    → let page_size = effective_query_page_size cfg.query_page_size in
      let st =
        new_req_query_state filters
          (effective_req_default_query_limit cfg.default_query_limit)
          search_enabled in
      (subscribe_auth_required cfg filters && not (nip42_has_any_auth w.conn.auth)) ≡ false
      → intercept_req plugins s filters ≡ passthrough
      → (not search_enabled && any_of has_search filters) ≡ false
      → (add now w.conn.id s filters w.state.manager).1 ≡ none
      → is_some (lookup w.conn.id w.state.manager.senders) ≡ true
      → lookup w.conn.id w.state.net ≡ some box
      → HasRoom (length (map (event s) evs) + 1) box
      → ltb (length w.jobs) reader_queue_capacity ≡ false
      → shown (r ∷ rounds) w.conn.id page_size st ≡ some evs
      → (w' : World) × (handle_req cfg plugins fresh now search_enabled r rounds s filters w
          ≡ some (w', none))
        × Ended w.conn.id s (map (event s) evs ++ eose s ∷ []) (new_entry filters now) box w'.state
unfolding handle_req open_req note_count
handle_req-Ended cfg plugins fresh now search_enabled r rounds s filters w evs box authed passed
      plain added sender p room full h =
    let ready = opened-Ready now s filters _ w box added sender p room in
    let (w', d, ended) =
      first_page-Ended cfg r rounds s (note_count now opened)
        (new_req_query_state filters (effective_req_default_query_limit cfg.default_query_limit)
          search_enabled)
        evs (new_entry filters now) box full h ready in
    (w', rw (authed, passed, plain, added) d, ended)
  where
    opened : World
    opened = record w {
      state = record w.state { manager = (add now w.conn.id s filters w.state.manager).0 };
    }
