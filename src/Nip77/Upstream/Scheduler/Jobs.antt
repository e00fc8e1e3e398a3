-- ===== src/Nip77/Upstream/Scheduler/Jobs.antt =====
-- Every order in which the jobs of the upstreams begin, record their results and end.
use congee.Prelude.{
  ℕ, Text, ==_refl, lookup, lookup-insert, In, NoDup, ℤ, pos, ◌≤ℤ◌, ◌-ℤ◌, List, [], ◌∷◌, ◌++◌, true,
  false, Option, some, ◌≡◌, refl, sym, subst, ◌∙◌, ◌↔◌, arith,
}
use congee.Nip77.Upstream.{SyncError}
use congee.Nip77.Upstream.Scheduler.{
  UpstreamEntry, JobStatus, SchedulerState, Gate, new_status, init_status, may_run, flag,
  status_or_new, begin_job, noted_result, record_result, end_job, tick_seconds,
}
use congee.Nip77.Upstream.Scheduler.Locks.{
  shown, NoDup-middle, shown_kept, noted_result-shown, begin_job_lem, joins, leaves, shown_begun,
  shown_ended, shown_new,
}

-- The scheduler, and the names of the runs between their beginning and their end.
pub record Jobs : Type 0 where
  pub scheduler : SchedulerState
  pub active : List Text

abbrev pub no_jobs : Jobs
no_jobs = record { scheduler = record { status = []; running = [] }; active = [] }

pub data JobStep (x : Jobs) : Jobs → Type 0 where
  -- `Start` sets a status before the loop of its upstream; the names are distinct.
  inits :
      (u : UpstreamEntry)
      → flag (lookup u.name x.scheduler.running) ≡ false
      → JobStep x (record x { scheduler = init_status u x.scheduler })
  begins :
      (g : Gate) (u : UpstreamEntry) (y : SchedulerState)
      → may_run g u ≡ true
      → begin_job u x.scheduler ≡ some y
      → JobStep x (record { scheduler = y; active = u.name ∷ x.active })
  records :
      (now : ℤ) (u : UpstreamEntry) (need imported : ℕ) (err : Option SyncError)
      → In u.name x.active
      → JobStep x (record x { scheduler = record_result now u need imported err x.scheduler })
  ends :
      (u : UpstreamEntry) (before after : List Text)
      → x.active ≡ before ++ u.name ∷ after
      → JobStep x (record { scheduler = end_job u x.scheduler; active = before ++ after })

pub data JobReach (x : Jobs) : Jobs → Type 0 where
  here : JobReach x x
  next : {y z : Jobs} → JobReach x y → JobStep y z → JobReach x z

pub record JobInv (x : Jobs) : Type 0 where
  pub once : NoDup x.active
  pub locked : (n : Text) → (flag (lookup n x.scheduler.running) ≡ true) ↔ In n x.active
  pub visible :
      (n : Text) → shown (lookup n x.scheduler.status) ≡ flag (lookup n x.scheduler.running)

JobStep-Inv : {x y : Jobs} → JobStep x y → JobInv x → JobInv y
unfolding init_status record_result end_job new_status
JobStep-Inv {x} (inits u idle) h = record {
  once = h.once;
  locked = h.locked;
  visible = λ n.
      shown_new u.name n x.scheduler.status x.scheduler.running (h.visible n) (new_status u) refl
        idle;
}
JobStep-Inv {x} (begins g u y may e) h =
    let (idle, q) = begin_job_lem u x.scheduler y e in
    subst (λ z. JobInv (record { scheduler = z; active = u.name ∷ x.active })) (sym q)
      (record {
        once = (λ i. cc (idle, (h.locked u.name).1 i), h.once);
        locked = λ n. joins u.name n x.active x.scheduler.running (h.locked n);
        visible = λ n.
            shown_begun u.name n x.scheduler.status x.scheduler.running (h.visible n)
              (status_or_new u (lookup u.name x.scheduler.status));
      })
JobStep-Inv {x} (records now u need imported err i) h = record {
  once = h.once;
  locked = h.locked;
  visible = λ n.
      shown_kept (noted_result now u need imported err) u.name n x.scheduler.status
        (noted_result-shown now u need imported err)
      ∙ h.visible n;
}
JobStep-Inv {x} (ends u before after e) h =
    let d : NoDup (before ++ u.name ∷ after) = subst NoDup e h.once in
    record {
      once = (NoDup-middle u.name before after d).0;
      locked = λ n.
          leaves u.name n before after x.scheduler.running d
            (subst (λ l. (flag (lookup n x.scheduler.running) ≡ true) ↔ In n l) e (h.locked n));
      visible = λ n. shown_ended u.name n x.scheduler.status x.scheduler.running (h.visible n);
    }

JobReach-Inv : {x y : Jobs} → JobReach x y → JobInv x → JobInv y
JobReach-Inv here h = h
JobReach-Inv (next r st) h = JobStep-Inv st (JobReach-Inv r h)

no_jobs-Inv : JobInv no_jobs
unfolding lookup
no_jobs-Inv = record { once = tt; locked = λ n. (λ t. cc, λ i. absurd i); visible = λ n. refl }

-- However the runs of the upstreams come in between one another, no two runs of a name are under way
-- at once; a name is locked, and shown as running, while its run is under way, and at no other time.
pub JobReach-exclusive :
    (x : Jobs)
    → JobReach no_jobs x
    → NoDup x.active
      × ((n : Text) → (flag (lookup n x.scheduler.running) ≡ true) ↔ In n x.active)
      × ((n : Text) → shown (lookup n x.scheduler.status) ≡ flag (lookup n x.scheduler.running))
JobReach-exclusive x r = let h = JobReach-Inv r no_jobs-Inv in (h.once, h.locked, h.visible)

-- An upstream without an interval of its own ticks every hour, and its status says that the next run
-- is no later than the last.
pub record_result-stale :
    (now : ℤ) (u : UpstreamEntry) (need imported : ℕ) (err : Option SyncError) (x : SchedulerState)
    (st : JobStatus)
    → u.interval_seconds ≤ℤ pos 0
    → lookup u.name x.status ≡ some st
    → (tick_seconds u ≡ pos 3600)
      × ((st' : JobStatus) × (lookup u.name (record_result now u need imported err x).status
            ≡ some st')
          × (st'.next_run_unix ≤ℤ st'.last_run_unix))
unfolding tick_seconds record_result ◌-ℤ◌
record_result-stale now u need imported err x st none_set there = (
  ground arith,
  (
    noted_result now u need imported err st,
    rw (there, record_result, lookup-insert, ==_refl u.name) refl,
    ground arith,
  ),
)
