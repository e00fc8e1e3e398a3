-- ===== src/Storage/Writer/Late.antt =====
-- A task that enters the channel after the writer has stopped.
use congee.Prelude.{ℕ, ◌<◌, In, [], ◌∷◌, true, ◌≡◌, refl, inl}
use congee.Storage.Writer.Queue.{
  stopped, WriterQueue, new_queue, QueueStep, enters, submits, gives_up, shuts, cancels, executes,
  turns, drains, stops, QueueReach, here, next,
}

record Quiet (x y : WriterQueue) : Type 0 where
  phase : y.phase ≡ stopped
  answered : y.answered ≡ x.answered

QueueStep-Quiet : {x y z : WriterQueue} → QueueStep y z → Quiet x y → Quiet x z
QueueStep-Quiet (enters up) h = record { phase = h.phase; answered = h.answered }
QueueStep-Quiet (submits id before after waits room) h = record {
  phase = h.phase;
  answered = h.answered;
}
QueueStep-Quiet (gives_up id before after waits) h = record {
  phase = h.phase;
  answered = h.answered;
}
QueueStep-Quiet shuts h = record { phase = h.phase; answered = h.answered }
QueueStep-Quiet (cancels down) h = record { phase = h.phase; answered = h.answered }
QueueStep-Quiet (executes id rest e runs q) h = cc
QueueStep-Quiet (turns runs down) h = cc
QueueStep-Quiet (drains id rest p q) h = cc
QueueStep-Quiet (stops p q) h = record { phase = refl; answered = h.answered }

QueueReach-Quiet : {x y : WriterQueue} → x.phase ≡ stopped → QueueReach x y → Quiet x y
QueueReach-Quiet p here = record { phase = p; answered = refl }
QueueReach-Quiet p (next r st) = QueueStep-Quiet st (QueueReach-Quiet p r)

-- The writer has stopped, and the first caller's task is in the channel.
abbrev late : ℕ → WriterQueue
late capacity = record {
  shutdown = true;
  canceled = true;
  phase = stopped;
  capacity = capacity;
  tasks = 0 ∷ [];
  task_seq = 1;
  admitted = [];
  submitted = 0 ∷ [];
  answered = [];
}

late-QueueReach : (capacity : ℕ) → 0 < capacity → QueueReach (new_queue capacity) (late capacity)
unfolding new_queue
late-QueueReach capacity room =
    next
      (next (next (next (next (next here (enters refl)) shuts) (cancels refl)) (turns refl refl))
        (stops refl refl))
      (submits 0 [] [] refl room)

-- With a channel of any capacity but 0, a state is reached in which a caller's task is in the channel
-- and no run from there ever answers it: `RunWrite` tests `shutdown` before its `select`, which may
-- take the channel after the writer has drained it and stopped.
pub late_write-unanswered :
    (capacity : ℕ)
    → 0 < capacity
    → (x : WriterQueue) × QueueReach (new_queue capacity) x
      × In 0 x.submitted
      × ((y : WriterQueue) → QueueReach x y → y.answered ≡ [])
late_write-unanswered capacity room = (
  late capacity,
  late-QueueReach capacity room,
  inl refl,
  λ y r. (QueueReach-Quiet refl r).answered,
)
