-- ===== src/Nip77/Upstream/Scheduler.antt =====
-- internal/nip77/upstream/scheduler.go: the jobs of the upstreams and their status. The part of
-- `runOnce` before the pull, the record of its result and the deferred end each hold the lock once.
pub mod Locks
pub mod Jobs
use congee.Prelude.{
  ℕ, ◌+◌, Text, lookup, insert, Map, ℤ, pos, negsuc, leb_ℤ, ltb_ℤ, ◌-ℤ◌, List, Bool, true, false,
  not, ◌&&◌, Option, none, some, if◌then◌else◌,
}
use congee.Nip77.Upstream.{SyncError}

-- `NIP77Upstream` without its filters.
pub record UpstreamEntry : Type 0 where
  pub name : Text
  pub url : Text
  pub interval_seconds : ℤ
  pub enabled : Bool

pub record JobStatus : Type 0 where
  pub name : Text
  pub url : Text
  pub enabled : Bool
  pub last_run_unix : ℤ
  pub next_run_unix : ℤ
  pub last_error : Option SyncError
  pub last_need_count : ℕ
  pub last_imported : ℕ
  pub running : Bool

pub record SchedulerState : Type 0 where
  pub status : Map JobStatus
  pub running : Map Bool

-- The settings that a run looks at, and whether the relay is busy.
pub record Gate : Type 0 where
  pub nip77_enabled : Bool
  pub upstream_enabled : Bool
  pub upstream_pause_when_busy : Bool
  pub relay_busy : Bool

-- a + b, without overflow.
abbrev add_ℤ : ℤ → ℤ → ℤ
add_ℤ a b = a -ℤ (pos 0 -ℤ b)

unfoldable pub new_status : UpstreamEntry → JobStatus
new_status u = record {
  name = u.name;
  url = u.url;
  enabled = u.enabled;
  last_run_unix = pos 0;
  next_run_unix = pos 0;
  last_error = none;
  last_need_count = 0;
  last_imported = 0;
  running = false;
}

unfoldable pub init_status : UpstreamEntry → SchedulerState → SchedulerState
unfolding new_status
init_status u x = record x { status = insert u.name (new_status u) x.status }

-- The seconds between the ticks of an upstream, from `Start`.
unfoldable pub tick_seconds : UpstreamEntry → ℤ
tick_seconds u = if leb_ℤ u.interval_seconds (pos 0) then pos 3600 else u.interval_seconds

unfoldable pub may_run : Gate → UpstreamEntry → Bool
may_run g u =
    if not (g.nip77_enabled && g.upstream_enabled && u.enabled)
    then false
    else not (g.upstream_pause_when_busy && g.relay_busy)

abbrev pub flag : Option Bool → Bool
flag none = false
flag (some b) = b

abbrev status_or_new : UpstreamEntry → Option JobStatus → JobStatus
status_or_new u none = new_status u
status_or_new u (some st) = st

-- `none` where a job of the name is running.
unfoldable pub begin_job : UpstreamEntry → SchedulerState → Option SchedulerState
unfolding new_status
begin_job u x =
    if flag (lookup u.name x.running)
    then none
    else some (record {
      status =
          insert u.name (record (status_or_new u (lookup u.name x.status)) { running = true })
            x.status;
      running = insert u.name true x.running;
    })

abbrev update_status :
    (JobStatus → JobStatus) → Text → Option JobStatus → Map JobStatus → Map JobStatus
update_status f name none m = m
update_status f name (some st) m = insert name (f st) m

abbrev noted_result : ℤ → UpstreamEntry → ℕ → ℕ → Option SyncError → JobStatus → JobStatus
noted_result now u need imported err st = record st {
  last_run_unix = now;
  next_run_unix = add_ℤ now u.interval_seconds;
  last_need_count = need;
  last_imported = imported;
  last_error = err;
}

-- What follows the pull. The status is there, since the job put it.
unfoldable pub record_result :
    ℤ → UpstreamEntry → ℕ → ℕ → Option SyncError → SchedulerState → SchedulerState
unfolding ◌-ℤ◌
record_result now u need imported err x = record x {
  status =
      update_status (noted_result now u need imported err) u.name (lookup u.name x.status) x.status;
}

abbrev idle_again : JobStatus → JobStatus
idle_again st = record st { running = false }

-- The deferred end.
unfoldable pub end_job : UpstreamEntry → SchedulerState → SchedulerState
end_job u x = record {
  status = update_status idle_again u.name (lookup u.name x.status) x.status;
  running = insert u.name false x.running;
}

-- `runOnce` when no other run comes in between. `pull` is what `pullUpstream` answers.
unfoldable pub run_once :
    Gate → UpstreamEntry → ℤ → ℕ × ℕ × Option SyncError → SchedulerState → SchedulerState
unfolding may_run begin_job record_result end_job
run_once g u now (need, imported, err) x = if not (may_run g u) then x else elim (begin_job u x) [
  | none ↦ x
  | some y ↦ end_job u (record_result now u need imported err y)
]
