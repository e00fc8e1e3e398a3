-- ===== src/Storage/Writer.antt =====
-- internal/storage/sqlitewriter/writer.go: what the single writer does with one task. The SQL driver
-- and the task are arguments over a world; a driver panics only inside a task, as far as modelled. A
-- handle is the pair of `sql.DB` and `bun.DB`, which are opened, replaced and closed together.
pub mod Answers
pub mod Attempts
pub mod Queue
pub mod Served
pub mod Late
use congee.Prelude.{
  ℕ, Text, bytes, has_prefix, to_lower, is_empty, List, [], ◌∷◌, ◌++◌, Bool, true, false, ◌||◌, not,
  ◌&&◌, any_of, is_some, Option, none, some, if◌then◌else◌,
}

-- An error: its message, and whether it is or wraps `context.DeadlineExceeded`.
pub record Failure : Type 0 where
  pub text : Text
  pub deadline : Bool

-- How a call of a task ends: in time, by a panic, or only after the hard timeout.
pub data Outcome : Type 0 where
  returned : Option Failure → Outcome
  panicked : Text → Outcome
  timed_out : Outcome

pub data Opened (Db : Type 0) : Type 0 where
  opened : Db → Opened Db
  refused : Failure → Opened Db

-- What is not in this file: the driver, over a world.
pub record Driver (World Db : Type 0) : Type 0 where
  pub ping : Db → World → World × Option Failure
  pub open_handles : Option (Text → World → World × Opened Db)
  pub close : Db → World → World

pub record Handle (World Db : Type 0) : Type 0 where
  pub world : World
  pub db : Option Db

-- A task that runs: the handle, the flag `notified`, and what was sent on its channel `done`.
pub record Run (World Db : Type 0) : Type 0 where
  pub handle : Handle World Db
  pub notified : Bool
  pub answers : List (Option Failure)

abbrev pub deadline_exceeded : Failure
deadline_exceeded = record { text = bytes "context deadline exceeded"; deadline = true }

abbrev pub plain : Text → Failure
plain text = record { text = text; deadline = false }

-- `strings.Contains`
unfoldable pub contains : Text → Text → Bool
unfolding has_prefix
contains [] needle = is_empty needle
contains (c ∷ s) needle = has_prefix (c ∷ s) needle || contains s needle

abbrev pub needles : List Text
needles =
    bytes "unable to open database"
    ∷ bytes "disk i/o error"
    ∷ bytes "i/o error"
    ∷ bytes "database disk image is malformed"
    ∷ bytes "file is not a database"
    ∷ bytes "no such file"
    ∷ bytes "stale nfs"
    ∷ bytes "connection reset"
    ∷ bytes "broken pipe"
    ∷ bytes "bad file descriptor"
    ∷ bytes "invalid connection"
    ∷ []

unfoldable pub is_reconnectable : Option Failure → Bool
unfolding contains to_lower bytes
is_reconnectable none = false
is_reconnectable (some e) =
    if e.deadline then false else any_of (λ n. contains (to_lower e.text) n) needles

module _ {World Db : Type 0} (engine dsn : Text) (driver : Driver World Db) where
  abbrev close_open : Option Db → World → World
  close_open none w = w
  close_open (some db) w = driver.close db w

  abbrev take_opened : World × Opened Db → Handle World Db × Option Failure
  take_opened (w, opened db) = (record { world = w; db = some db }, none)
  take_opened (w, refused e) = (record { world = w; db = none }, some e)

  -- The handle is closed first, and is gone where the new one is not opened.
  unfoldable pub reconnect : Handle World Db → Handle World Db × Option Failure
  reconnect h =
      let w = close_open h.db h.world in
      let gone : Handle World Db = record { world = w; db = none } in
      if is_empty dsn
      then (gone, some (plain (bytes "reconnect: empty dsn")))
      else elim driver.open_handles [
        | none ↦ (gone, some (plain (bytes "reconnect: no opener configured")))
        | some open_with ↦ take_opened (open_with dsn w)
      ]

  abbrev pinged : Db → World × Option Failure → Handle World Db × Option Failure
  pinged db (w, e) = (record { world = w; db = some db }, e)

  unfoldable pub ping : Handle World Db → Handle World Db × Option Failure
  ping h = elim h.db [
    | none ↦ (h, some (plain (bytes "sql.DB is nil")))
    | some db ↦ pinged db (driver.ping db h.world)
  ]

  -- `notifyCaller`
  unfoldable pub notify_caller : Option Failure → Run World Db → Run World Db
  notify_caller e r =
      if r.notified then r else record r { notified = true; answers = r.answers ++ e ∷ [] }

  module _ (task : Db → World → World × Outcome) where
    -- After a hard timeout the caller is told, the call is waited for, and the handle replaced.
    abbrev settle : Run World Db → Db → World × Outcome → Run World Db × Option Failure
    settle r db (w, returned e) = (record r { handle = record { world = w; db = some db } }, e)
    settle r db (w, panicked p) = (
      record r { handle = record { world = w; db = some db } },
      some (plain (engine ++ (bytes ": writer task panic: " ++ p))),
    )
    settle r db (w, timed_out) =
        let told = notify_caller (some deadline_exceeded) r in
        (
          record told { handle = (reconnect (record { world = w; db = some db })).0 },
          some deadline_exceeded,
        )

    unfoldable pub run_task_once : Run World Db → Run World Db × Option Failure
    unfolding notify_caller reconnect
    run_task_once r = elim r.handle.db [
      | none ↦ (r, some (plain (engine ++ bytes ": database not open")))
      | some db ↦ settle r db (task db r.handle.world)
    ]

    abbrev reconnect_failed : Failure → Failure → Failure
    reconnect_failed e r = record {
      text = engine ++ (bytes ": " ++ (e.text ++ (bytes " (reconnect: " ++ (r.text ++ bytes ")"))));
      deadline = e.deadline;
    }

    -- `reconnect` and the second attempt.
    unfoldable pub retry :
        Failure → Run World Db → Handle World Db × Option Failure → Run World Db × Option Failure
    unfolding run_task_once
    retry e r (h, some x) = (record r { handle = h }, some (reconnect_failed e x))
    retry e r (h, none) = run_task_once (record r { handle = h })

    unfoldable pub after_attempt : Run World Db × Option Failure → Run World Db × Option Failure
    unfolding is_reconnectable reconnect retry
    after_attempt (r, none) = (r, none)
    after_attempt (r, some e) =
        if is_reconnectable (some e) then retry e r (reconnect r.handle) else (r, some e)

    abbrev ping_failed : Failure → Failure → Failure
    ping_failed p r = record {
      text =
          engine
          ++ (bytes ": ping failed and reconnect failed: ping="
              ++ (p.text ++ (bytes " reconnect=" ++ r.text)));
      deadline = p.deadline;
    }

    -- The first attempt on a handle, or on one that a reconnect gave.
    unfoldable pub attempt_on :
        Failure → Run World Db → Handle World Db × Option Failure → Run World Db × Option Failure
    unfolding run_task_once after_attempt
    attempt_on p r (h, some e) = (record r { handle = h }, some (ping_failed p e))
    attempt_on p r (h, none) = after_attempt (run_task_once (record r { handle = h }))

    -- What follows the ping: a failed one is answered by a reconnect.
    unfoldable pub attempts :
        Run World Db → Handle World Db × Option Failure → Run World Db × Option Failure
    unfolding run_task_once after_attempt attempt_on
    attempts r (h, none) = after_attempt (run_task_once (record r { handle = h }))
    attempts r (h, some p) = attempt_on p r (reconnect h)

    abbrev notified_with : Run World Db × Option Failure → Run World Db
    notified_with (r, e) = notify_caller e r

    -- `executeTask`: whatever happens, the deferred call tells the caller.
    unfoldable pub execute_task : Handle World Db → Run World Db
    unfolding ping attempts notify_caller
    execute_task h =
        notified_with (attempts (record { handle = h; notified = false; answers = [] }) (ping h))
