-- ===== src/Storage/Writer/Queue.antt =====
-- internal/storage/sqlitewriter/writer.go: the callers of `RunWrite`, the channel of tasks, the loop
-- of the writer and `Close`, as a relation of steps. A `select` with several ready cases takes any.
use congee.Prelude.{ℕ, ◌+◌, ◌<◌, length, List, [], ◌∷◌, ◌++◌, Bool, true, false, Option, ◌≡◌}
use congee.Storage.Writer.{Failure}

pub data Phase : Type 0 where
  running draining stopped : Phase

-- What a caller is told: the answer of its task, or that the store is closed.
pub data Answer : Type 0 where
  executed : Option Failure → Answer
  store_closed : Answer

-- A task is the number of its caller, from `taskSeq`. `admitted` are the callers past the test of `shutdown`,
-- `submitted` those whose task has entered the channel, in order, and `answered` what was sent on the
-- channels `done`, in order.
pub record WriterQueue : Type 0 where
  pub shutdown : Bool
  pub canceled : Bool
  pub phase : Phase
  pub capacity : ℕ
  pub tasks : List ℕ
  pub task_seq : ℕ
  pub admitted : List ℕ
  pub submitted : List ℕ
  pub answered : List (ℕ × Answer)

unfoldable pub new_queue : ℕ → WriterQueue
new_queue capacity = record {
  shutdown = false;
  canceled = false;
  phase = running;
  capacity = capacity;
  tasks = [];
  task_seq = 0;
  admitted = [];
  submitted = [];
  answered = [];
}

abbrev pub admit : WriterQueue → WriterQueue
admit x = record x { task_seq = x.task_seq + 1; admitted = x.task_seq ∷ x.admitted }

-- A caller among those admitted leaves them, with its task in the channel or with none.
abbrev pub submit : ℕ → List ℕ → WriterQueue → WriterQueue
submit id others x = record x {
  tasks = x.tasks ++ id ∷ [];
  submitted = x.submitted ++ id ∷ [];
  admitted = others;
}

abbrev pub leave : List ℕ → WriterQueue → WriterQueue
leave others x = record x { admitted = others }

-- The writer takes the first task and tells its caller.
abbrev pub take_task : ℕ → List ℕ → Answer → WriterQueue → WriterQueue
take_task id rest a x = record x { tasks = rest; answered = x.answered ++ (id, a) ∷ [] }

-- A step of a caller, of `Close`, or of the writer.
pub data QueueStep (x : WriterQueue) : WriterQueue → Type 0 where
  -- `RunWrite` tests `shutdown`, and goes on.
  enters : x.shutdown ≡ false → QueueStep x (admit x)
  -- Its `select` puts the task into the channel, or gives up.
  submits :
      (id : ℕ) (before after : List ℕ)
      → x.admitted ≡ before ++ id ∷ after
      → length x.tasks < x.capacity
      → QueueStep x (submit id (before ++ after) x)
  gives_up :
      (id : ℕ) (before after : List ℕ)
      → x.admitted ≡ before ++ id ∷ after
      → QueueStep x (leave (before ++ after) x)
  -- `Close`
  shuts : QueueStep x (record x { shutdown = true })
  cancels : x.shutdown ≡ true → QueueStep x (record x { canceled = true })
  -- `writerLoop` and `executeTask`
  executes :
      (id : ℕ) (rest : List ℕ) (e : Option Failure)
      → x.phase ≡ running
      → x.tasks ≡ id ∷ rest
      → QueueStep x (take_task id rest (executed e) x)
  -- `drainOnShutdown`
  turns : x.phase ≡ running → x.canceled ≡ true → QueueStep x (record x { phase = draining })
  drains :
      (id : ℕ) (rest : List ℕ)
      → x.phase ≡ draining
      → x.tasks ≡ id ∷ rest
      → QueueStep x (take_task id rest store_closed x)
  stops : x.phase ≡ draining → x.tasks ≡ [] → QueueStep x (record x { phase = stopped })

pub data QueueReach (x : WriterQueue) : WriterQueue → Type 0 where
  here : QueueReach x x
  next : {y z : WriterQueue} → QueueReach x y → QueueStep y z → QueueReach x z

-- Runs one after another.
pub QueueReach-trans : {x y z : WriterQueue} → QueueReach x y → QueueReach y z → QueueReach x z
QueueReach-trans r here = r
QueueReach-trans r (next q st) = next (QueueReach-trans r q) st
