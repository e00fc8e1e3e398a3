-- ===== src/Storage/Writer/Attempts.antt =====
-- How often a task is called.
use congee.Prelude.{
  ℕ, [], ◌+◌, ◌≤◌, Text, is_empty, false, Option, none, some, ◌≡◌, refl, ◌∙◌, inl, inr, arith,
  Bool-cases, Option-cases,
}
use congee.Storage.Writer.{
  Failure, Outcome, returned, panicked, timed_out, Opened, opened, refused, Driver, Handle, Run,
  is_reconnectable, reconnect, ping, notify_caller, run_task_once, retry, after_attempt, attempt_on,
  attempts, execute_task, settle, close_open, take_opened,
}

-- `calls` is what a world tells of the calls made so far: only a call of the task adds to it.
pub record Counts {World Db : Type 0} (driver : Driver World Db)
    (task : Db → World → World × Outcome) (calls : World → ℕ) : Type 0 where
  pub pings : (db : Db) (w : World) → calls (driver.ping db w).0 ≡ calls w
  pub closes : (db : Db) (w : World) → calls (driver.close db w) ≡ calls w
  pub opens :
      (open_with : Text → World → World × Opened Db)
      → driver.open_handles ≡ some open_with
      → (dsn : Text) (w : World) → calls (open_with dsn w).0 ≡ calls w
  pub adds : (db : Db) (w : World) → calls (task db w).0 ≡ calls w + 1

module _ {World Db : Type 0} (engine dsn : Text) (driver : Driver World Db)
    (task : Db → World → World × Outcome) (calls : World → ℕ) (c : Counts driver task calls) where
  close_open-calls :
      (o : Option Db) (w : World) → calls (close_open engine dsn driver o w) ≡ calls w
  close_open-calls none w = refl
  close_open-calls (some db) w = c.closes db w

  take_opened-calls :
      (o : World × Opened Db) → calls (take_opened engine dsn driver o).0.world ≡ calls o.0
  take_opened-calls (w, opened db) = refl
  take_opened-calls (w, refused e) = refl

  reconnect-calls :
      (h : Handle World Db) → calls (reconnect engine dsn driver h).0.world ≡ calls h.world
  unfolding reconnect
  reconnect-calls h = elim (Bool-cases (is_empty dsn)) [
    | inl bare ↦ rw (bare, reconnect) (close_open-calls h.db h.world)
    | inr named ↦ elim (Option-cases driver.open_handles) [
      | inl nothing ↦ rw (named, reconnect, nothing) (close_open-calls h.db h.world)
      | inr (open_with, there) ↦
          rw (named, reconnect, there)
            (take_opened-calls (open_with dsn (close_open engine dsn driver h.db h.world))
              ∙ c.opens open_with there dsn _
              ∙ close_open-calls h.db h.world)
    ]
  ]

  pinged-calls : (h : Handle World Db) → calls (ping engine dsn driver h).0.world ≡ calls h.world
  unfolding ping
  pinged-calls h = elim (Option-cases h.db) [
    | inl shut ↦ rw (shut, ping) refl
    | inr (db, there) ↦ rw (there, ping) (c.pings db h.world)
  ]

  notify_caller-calls :
      (e : Option Failure) (r : Run World Db)
      → calls (notify_caller engine dsn driver e r).handle.world ≡ calls r.handle.world
  unfolding notify_caller
  notify_caller-calls e r = elim (Bool-cases r.notified) [
    | inl told ↦ rw (told, notify_caller) refl
    | inr quiet ↦ rw (quiet, notify_caller) refl
  ]

  settle-calls :
      (r : Run World Db) (db : Db) (o : World × Outcome)
      → calls (settle engine dsn driver task r db o).0.handle.world ≡ calls o.0
  settle-calls r db (w, returned e) = refl
  settle-calls r db (w, panicked p) = refl
  settle-calls r db (w, timed_out) = reconnect-calls (record { world = w; db = some db })

  run_task_once-calls :
      (r : Run World Db)
      → calls (run_task_once engine dsn driver task r).0.handle.world ≤ calls r.handle.world + 1
  unfolding run_task_once
  run_task_once-calls r = elim (Option-cases r.handle.db) [
    | inl shut ↦ rw (shut, run_task_once) (omega arith)
    | inr (db, there) ↦
        rw (there, run_task_once)
          (omega (arith, settle-calls r db (task db r.handle.world), c.adds db r.handle.world))
  ]

  retry-calls :
      (e : Failure) (r : Run World Db) (o : Handle World Db × Option Failure)
      → calls (retry engine dsn driver task e r o).0.handle.world ≤ calls o.0.world + 1
  unfolding retry
  retry-calls e r (h, some x) = omega arith
  retry-calls e r (h, none) = run_task_once-calls (record r { handle = h })

  after_attempt-calls :
      (o : Run World Db × Option Failure)
      → calls (after_attempt engine dsn driver task o).0.handle.world ≤ calls o.0.handle.world + 1
  unfolding after_attempt
  after_attempt-calls (r, none) = omega arith
  after_attempt-calls (r, some e) = elim (Bool-cases (is_reconnectable (some e))) [
    | inl again ↦ rw again (
        omega
          (arith, retry-calls e r (reconnect engine dsn driver r.handle), reconnect-calls r.handle))
    | inr over ↦ rw over (omega arith)
  ]

  first-calls :
      (r : Run World Db) (h : Handle World Db)
      → calls
          (after_attempt engine dsn driver task
            (run_task_once engine dsn driver task (record r { handle = h }))).0.handle.world
        ≤ calls h.world + 2
  first-calls r h = omega (
    arith,
    after_attempt-calls (run_task_once engine dsn driver task (record r { handle = h })),
    run_task_once-calls (record r { handle = h }),
  )

  attempt_on-calls :
      (p : Failure) (r : Run World Db) (o : Handle World Db × Option Failure)
      → calls (attempt_on engine dsn driver task p r o).0.handle.world ≤ calls o.0.world + 2
  unfolding attempt_on
  attempt_on-calls p r (h, some e) = omega arith
  attempt_on-calls p r (h, none) = first-calls r h

  attempts-calls :
      (r : Run World Db) (o : Handle World Db × Option Failure)
      → calls (attempts engine dsn driver task r o).0.handle.world ≤ calls o.0.world + 2
  unfolding attempts
  attempts-calls r (h, none) = first-calls r h
  attempts-calls r (h, some p) =
      omega (arith, attempt_on-calls p r (reconnect engine dsn driver h), reconnect-calls h)

  -- A task is called at most twice, however its calls, the pings and the reconnects end.
  pub execute_task-calls :
      (h : Handle World Db)
      → calls (execute_task engine dsn driver task h).handle.world ≤ calls h.world + 2
  unfolding execute_task
  execute_task-calls h =
      let start : Run World Db = record { handle = h; notified = false; answers = [] } in
      let tried = attempts engine dsn driver task start (ping engine dsn driver h) in
      omega (
        arith,
        notify_caller-calls tried.1 tried.0,
        attempts-calls start (ping engine dsn driver h),
        pinged-calls h,
      )
