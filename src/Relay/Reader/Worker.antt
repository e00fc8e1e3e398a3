-- ===== src/Relay/Reader/Worker.antt =====
-- The pages of one snapshot through the queue.
use congee.Prelude.{
  ℕ, ◌+◌, Text, length, ℤ, List, [], ◌∷◌, ◌++◌, Bool, true, false, some, Result, success, failure,
  map, keep, ◌≡◌, refl, ◌∙◌, arith, if◌then◌else◌, inl, inr, Bool-cases,
}
use congee.Nostr.Event.{Event}
use congee.Nostr.Wire.{event, eose}
use congee.Relay.Outbox.{Outbox}
use congee.Relay.Outbox.Queue.{push}
use congee.Relay.Subs.{SubEntry, is_same_snapshot}
use congee.Relay.Fanout.Reach.{State}
use congee.Relay.Query.{Page, fetch_req_page}
use congee.Relay.Reader.{
  Round, ReqPageJob, enqueue_job, deliver_page, end_snapshot, after_page, run_page, run_job, worker,
}
use congee.Relay.Reader.Replies.{HasRoom-add}
use congee.Relay.Reader.Ending.{
  Ready, Ended, end_snapshot-Ended, shown, split_shown, page-Ready, page-Ended,
}

same_snapshot :
    (c s : Text) (n : ℕ) (e : SubEntry) (box : Outbox) (t : ℤ) (x : State)
    → Ready c s n e box x
    → e.closed ≡ false
    → e.opened_unix ≡ t
    → is_same_snapshot c s t x.manager ≡ true
unfolding is_same_snapshot
same_snapshot c s n e box t x r live opened = rw (r.sender, r.found, live, opened) (ground arith)

-- The job of a ready subscription is run.
run_job-runs :
    (r : Round) (rounds : List Round) (job : ReqPageJob) (jobs : List ReqPageJob) (x : State)
    (n : ℕ) (e : SubEntry) (box : Outbox)
    → Ready job.conn_id job.sub_id n e box x
    → e.closed ≡ false
    → e.opened_unix ≡ job.opened_unix
    → run_job r rounds job jobs x
      ≡ run_page r rounds job jobs x (fetch_req_page r.store job.page_size job.query)
unfolding run_job
run_job-runs r rounds job jobs x n e box h live opened =
    rw (h.outbox, same_snapshot job.conn_id job.sub_id n e box job.opened_unix x h live opened) refl

worker-page :
    (r : Round) (rounds : List Round) (job : ReqPageJob) (x : State) (p : Page)
    → run_job r [] job [] x
      ≡ run_page r [] job [] x (fetch_req_page r.store job.page_size job.query)
    → fetch_req_page r.store job.page_size job.query ≡ success p
    → let page = deliver_page (r.visible job.conn_id) job.conn_id job.sub_id p.events x in
      worker (r ∷ rounds) (job ∷ []) x ≡ (
        if p.has_more
        then worker rounds (record job { query = p.state } ∷ []) page
        else some (end_snapshot job.conn_id job.sub_id page))
unfolding worker run_page after_page enqueue_job
worker-page r rounds job x p runs q = elim (Bool-cases p.has_more) [
  | inl on ↦ rw (worker, runs, q, on) refl
  | inr off ↦ rw (worker, runs, q, off) (ended rounds)
]
  where
    y : State
    y =
        end_snapshot job.conn_id job.sub_id
          (deliver_page (r.visible job.conn_id) job.conn_id job.sub_id p.events x)

    ended : (rounds : List Round) → worker rounds [] y ≡ some y
    ended [] = refl
    ended (r ∷ rounds) = refl

-- The rest of a snapshot after a page, where `ih` is what the worker does with it in the queue.
rest_of :
    (has_more : Bool) (rounds : List Round) (job : ReqPageJob) (x : State) (more : List Event)
    (f : SubEntry) (box : Outbox)
    → let s = job.sub_id in
      let c = job.conn_id in
      (if has_more then shown rounds c job.page_size job.query else some []) ≡ some more
      → Ready c s (length (map (event s) more) + (length f.pending_live + 1)) f box x
      → (shown rounds c job.page_size job.query ≡ some more
          → (y : State) × (worker rounds (job ∷ []) x ≡ some y)
            × Ended c s (map (event s) more ++ eose s ∷ f.pending_live) f box y)
      → (y : State) × ((if has_more then worker rounds (job ∷ []) x else some (end_snapshot c s x))
          ≡ some y)
        × Ended c s (map (event s) more ++ eose s ∷ f.pending_live) f box y
rest_of true rounds job x more f box a ready ih = ih a
rest_of false rounds job x [] f box a ready ih = (
  end_snapshot job.conn_id job.sub_id x,
  refl,
  end_snapshot-Ended job.conn_id job.sub_id x f box (record {
    found = ready.found;
    sender = ready.sender;
    outbox = ready.outbox;
    room = HasRoom-add _ (length f.pending_live + 1) box (omega arith) ready.room;
  }),
)
rest_of false rounds job x (ev ∷ more) f box a ready ih = cc

-- Starting from a queue that has only the snapshot's job, the worker sends the visible events of all
-- pages, one page for each job, then EOSE and what was buffered.
pub worker-Ended :
    (rounds : List Round) (job : ReqPageJob) (x : State) (evs : List Event) (e : SubEntry)
    (box : Outbox)
    → let s = job.sub_id in
      let c = job.conn_id in
      shown rounds c job.page_size job.query ≡ some evs
      → e.closed ≡ false
      → e.opened_unix ≡ job.opened_unix
      → Ready c s (length (map (event s) evs) + (length e.pending_live + 1)) e box x
      → (y : State) × (worker rounds (job ∷ []) x ≡ some y)
        × Ended c s (map (event s) evs ++ eose s ∷ e.pending_live) e box y
unfolding worker shown
worker-Ended [] job x evs e box h live opened ready = cc
worker-Ended (r ∷ rounds) job x evs e box h live opened ready =
    turn (fetch_req_page r.store job.page_size job.query) refl
      (λ job' x' evs' e' box'. worker-Ended rounds job' x' evs' e' box')
  where
    s : Text
    s = job.sub_id

    c : Text
    c = job.conn_id

    turn :
        (q : Result Page)
        → fetch_req_page r.store job.page_size job.query ≡ q
        → ((job' : ReqPageJob) (x' : State) (evs' : List Event) (e' : SubEntry) (box' : Outbox)
            → shown rounds job'.conn_id job'.page_size job'.query ≡ some evs'
            → e'.closed ≡ false
            → e'.opened_unix ≡ job'.opened_unix
            → Ready job'.conn_id job'.sub_id
                (length (map (event job'.sub_id) evs') + (length e'.pending_live + 1))
                e'
                box'
                x'
            → (y : State) × (worker rounds (job' ∷ []) x' ≡ some y)
              × Ended job'.conn_id job'.sub_id
                  (map (event job'.sub_id) evs' ++ eose job'.sub_id ∷ e'.pending_live)
                  e'
                  box'
                  y)
        → (y : State) × (worker (r ∷ rounds) (job ∷ []) x ≡ some y)
          × Ended c s (map (event s) evs ++ eose s ∷ e.pending_live) e box y
    turn (failure message) q ih = absurd (ground (arith, rw (q, shown) at h))
    turn (success p) q ih =
        let now_shown = keep (r.visible c) p.events in
        let page = deliver_page (r.visible c) c s p.events x in
        let (more, a, b) =
          split_shown p.has_more now_shown (shown rounds c job.page_size p.state) evs
            (rw (q, shown) at h) in
        let (f, same, ready') = page-Ready (r.visible c) c s p.events more evs x e box b ready in
        let (y, d, ended) =
          rest_of p.has_more rounds (record job { query = p.state }) page more f
            (push box (map (event s) now_shown)) a ready'
            (λ k.
              ih (record job { query = p.state }) page more f (push box (map (event s) now_shown)) k
                (same.closed ∙ live) (same.opened_unix ∙ opened) ready') in
        (
          y,
          worker-page r rounds job x p (run_job-runs r [] job [] x _ e box ready live opened) q ∙ d,
          page-Ended s c now_shown more evs e f box y b same ended,
        )
