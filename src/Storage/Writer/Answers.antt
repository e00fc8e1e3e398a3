-- ===== src/Storage/Writer/Answers.antt =====
-- The caller of a task is told once, and what it is told.
use congee.Prelude.{
  Text, [], ◌∷◌, Bool, true, false, Option, none, some, ◌≡◌, refl, ap, ◌∙◌, ◌⊎◌, inl, inr, arith,
  Bool-cases, Option-cases,
}
use congee.Storage.Writer.{
  Failure, Outcome, returned, panicked, timed_out, Driver, Handle, Run, deadline_exceeded,
  is_reconnectable, reconnect, ping, notify_caller, run_task_once, retry, after_attempt, attempt_on,
  attempts, execute_task, settle,
}

abbrev is_late : Option Failure → Bool
is_late none = false
is_late (some e) = e.deadline

late-not_reconnectable : (e : Failure) → e.deadline ≡ true → is_reconnectable (some e) ≡ false
unfolding is_reconnectable
late-not_reconnectable e late = rw (late, is_reconnectable) refl

module _ {World Db : Type 0} (engine dsn : Text) (driver : Driver World Db)
    (task : Db → World → World × Outcome) where
  -- Some call of the task ended without an error.
  abbrev pub Succeeds : Type 0
  Succeeds = (db : Db) × (w : World) × ((task db w).1 ≡ returned none)

  abbrev Fresh : Run World Db → Type 0
  Fresh r = (r.notified ≡ false) × (r.answers ≡ [])

  abbrev Told : Run World Db → Option Failure → Type 0
  Told r e =
      (r.notified ≡ true) × (r.answers ≡ some deadline_exceeded ∷ []) × (e ≡ some deadline_exceeded)

  abbrev Settled : Run World Db × Option Failure → Type 0
  Settled (r, e) = (Fresh r × (e ≡ none → Succeeds)) ⊎ Told r e

  settle-Settled :
      (r : Run World Db) (db : Db) (w : World) (out : World × Outcome)
      → task db w ≡ out
      → Fresh r
      → Settled (settle engine dsn driver task r db out)
  unfolding notify_caller
  settle-Settled r db w (w', returned e) q f =
      inl (f, λ ok. (db, w, ap (λ (o : World × Outcome). o.1) q ∙ ap returned ok))
  settle-Settled r db w (w', panicked p) q f = inl (f, λ ok. cc)
  settle-Settled r db w (w', timed_out) q f = inr (ground arith)

  run_task_once-Settled :
      (r : Run World Db) → Fresh r → Settled (run_task_once engine dsn driver task r)
  unfolding run_task_once
  run_task_once-Settled r f = elim (Option-cases r.handle.db) [
    | inl shut ↦ rw (shut, run_task_once) (inl (f, λ ok. cc))
    | inr (db, there) ↦
        rw (there, run_task_once)
          (settle-Settled r db r.handle.world (task db r.handle.world) refl f)
  ]

  retry-Settled :
      (e : Failure) (r : Run World Db) (o : Handle World Db × Option Failure)
      → Fresh r
      → Settled (retry engine dsn driver task e r o)
  unfolding retry
  retry-Settled e r (h, some x) f = inl (f, λ ok. cc)
  retry-Settled e r (h, none) f = run_task_once-Settled (record r { handle = h }) f

  after_attempt-Settled :
      (o : Run World Db × Option Failure)
      → Settled o
      → Settled (after_attempt engine dsn driver task o)
  unfolding after_attempt
  after_attempt-Settled (r, none) h = h
  after_attempt-Settled (r, some e) (inl (f, ok)) = elim (Bool-cases (is_reconnectable (some e))) [
    | inl again ↦ rw again (retry-Settled e r (reconnect engine dsn driver r.handle) f)
    | inr over ↦ rw over (inl (f, λ bad. cc))
  ]
  after_attempt-Settled (r, some e) (inr (flag, sent, late)) =
      rw (late-not_reconnectable e (ap is_late late)) (inr (flag, sent, late))

  attempt_on-Settled :
      (p : Failure) (r : Run World Db) (o : Handle World Db × Option Failure)
      → Fresh r
      → Settled (attempt_on engine dsn driver task p r o)
  unfolding attempt_on
  attempt_on-Settled p r (h, some e) f = inl (f, λ ok. cc)
  attempt_on-Settled p r (h, none) f =
      after_attempt-Settled _ (run_task_once-Settled (record r { handle = h }) f)

  attempts-Settled :
      (r : Run World Db) (o : Handle World Db × Option Failure)
      → Fresh r
      → Settled (attempts engine dsn driver task r o)
  unfolding attempts
  attempts-Settled r (h, none) f =
      after_attempt-Settled _ (run_task_once-Settled (record r { handle = h }) f)
  attempts-Settled r (h, some p) f = attempt_on-Settled p r (reconnect engine dsn driver h) f

  notify_caller-Settled :
      (o : Run World Db × Option Failure)
      → Settled o
      → (e : Option Failure) × ((notify_caller engine dsn driver o.1 o.0).answers ≡ e ∷ [])
        × (e ≡ none → Succeeds)
  unfolding notify_caller
  notify_caller-Settled (r, e) (inl ((flag, sent), ok)) =
      (e, rw (flag, notify_caller, sent) refl, ok)
  notify_caller-Settled (r, e) (inr (flag, sent, late)) =
      (some deadline_exceeded, rw (flag, notify_caller) sent, λ bad. cc)

  -- Whatever the driver and the task do, panics and hard timeouts included, the caller of a task is
  -- sent exactly one answer, and that a task succeeded is answered only where a call of it did.
  pub execute_task-once :
      (h : Handle World Db)
      → (e : Option Failure) × ((execute_task engine dsn driver task h).answers ≡ e ∷ [])
        × (e ≡ none → Succeeds)
  unfolding execute_task
  execute_task-once h =
      let start : Run World Db = record { handle = h; notified = false; answers = [] } in
      let (e, sent, ok) =
        notify_caller-Settled _ (attempts-Settled start (ping engine dsn driver h) (refl, refl)) in
      (e, sent, ok)
