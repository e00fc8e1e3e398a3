-- ===== src/Tests/Writer.antt =====
-- The writer of SQLite at concrete values.
use congee.Prelude.{
  ℕ, eqb, if◌then◌else◌, ◌+◌, ◌≤◌, Text, bytes, In, length, All, [], ◌∷◌, ◌++◌, true, Option, none,
  some, ◌≡◌, refl, ap, sym, inl, arith,
}
use congee.Storage.Writer.{
  Failure, Outcome, returned, Opened, opened, Driver, Handle, plain, execute_task,
}
use congee.Storage.Writer.Answers.{Succeeds, execute_task-once}
use congee.Storage.Writer.Attempts.{Counts}
use congee.Storage.Writer.Queue.{
  running, stopped, executed, WriterQueue, new_queue, enters, submits, shuts, cancels, executes,
  QueueReach, here, next,
}
use congee.Storage.Writer.Served.{callers, Fits, QueueReach-served, QueueReach-drained}
use congee.Storage.Writer.Late.{late_write-unanswered}

abbrev sqlite : Text
sqlite = bytes "sqlite"

abbrev file : Text
file = bytes "a.db"

-- The world counts the calls of the task. Handle 1 is broken, and handle 2 is what an opener gives.
abbrev driver : Driver ℕ ℕ
driver = record {
  ping = λ db w. (w, none);
  open_handles = some (λ dsn w. (w, opened 2));
  close = λ db w. w;
}

abbrev attempt : ℕ → Outcome
attempt db = if eqb db 1 then returned (some (plain (bytes "Disk I/O error"))) else returned none

abbrev task : ℕ → ℕ → ℕ × Outcome
task db w = (w + 1, attempt db)

abbrev broken_handle : Handle ℕ ℕ
broken_handle = record { world = 0; db = some 1 }

abbrev calls : ℕ → ℕ
calls w = w

abbrev after_open : Option (Text → ℕ → ℕ × Opened ℕ) → Text → ℕ → ℕ
after_open none dsn w = w
after_open (some open_with) dsn w = (open_with dsn w).0

counts : Counts driver task calls
counts = record {
  pings = λ db w. refl;
  closes = λ db w. refl;
  opens = λ open_with there dsn w. ap (λ o. after_open o dsn w) (sym there);
  adds = λ db w. refl;
}

execute_task-once_example :
    (e : Option Failure) × ((execute_task sqlite file driver task broken_handle).answers ≡ e ∷ [])
    × (e ≡ none → Succeeds sqlite file driver task)
execute_task-once_example = execute_task-once sqlite file driver task broken_handle

-- Two callers have put their tasks into the channel, the first was answered, and `Close` has canceled.
abbrev closing : WriterQueue
closing = record {
  shutdown = true;
  canceled = true;
  phase = running;
  capacity = 4;
  tasks = 1 ∷ [];
  task_seq = 2;
  admitted = [];
  submitted = 0 ∷ 1 ∷ [];
  answered = (0, executed none) ∷ [];
}

closing-QueueReach : QueueReach (new_queue 4) closing
unfolding new_queue
closing-QueueReach =
    next
      (next
        (next
          (next
            (next (next (next here (enters refl)) (submits 0 [] [] refl (omega arith)))
              (enters refl))
            (submits 1 [] [] refl (omega arith)))
          (executes 0 (1 ∷ []) none refl refl))
        shuts)
      (cancels refl)

QueueReach-served_example :
    (callers closing.answered ++ closing.tasks ≡ closing.submitted)
    × (length closing.tasks ≤ closing.capacity)
    × All (λ a. Fits closing.canceled a.1) closing.answered
QueueReach-served_example = QueueReach-served 4 closing closing-QueueReach

QueueReach-drained_example :
    (y : WriterQueue) × QueueReach closing y
    × (y.phase ≡ stopped)
    × (callers y.answered ≡ closing.submitted)
QueueReach-drained_example = QueueReach-drained 4 closing closing-QueueReach refl (inl refl)

late_write-unanswered_example :
    (x : WriterQueue) × QueueReach (new_queue 4) x
    × In 0 x.submitted
    × ((y : WriterQueue) → QueueReach x y → y.answered ≡ [])
late_write-unanswered_example = late_write-unanswered 4 (omega arith)
