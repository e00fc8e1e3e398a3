-- ===== src/Tests/Upstream.antt =====
-- The upstream side of NIP-77 at concrete values.
use congee.Prelude.{
  ℕ, ◌≤◌, Text, bytes, In, NoDup, lookup, insert, pos, List, [], ◌∷◌, true, false, Option, none,
  some, Result, success, ◌≡◌, ◌↔◌, refl,
}
use congee.Nostr.Event.{Event}
use congee.Nostr.Filter.{Filter}
use congee.Nip77.Upstream.{Read, received, Environment}
use congee.Nip77.Upstream.Sync.{Client, Importer, Pull, pull_upstream}
use congee.Nip77.Upstream.Sync.Imports.{Imported, pull_upstream-Imported}
use congee.Nip77.Upstream.Scheduler.{
  UpstreamEntry, JobStatus, Gate, new_status, begin_job, may_run, flag,
}
use congee.Nip77.Upstream.Scheduler.Locks.{shown}
use congee.Nip77.Upstream.Scheduler.Jobs.{
  Jobs, no_jobs, JobReach, here, next, begins, JobReach-exclusive,
}
use congee.Tests.{every, note, s1}

abbrev env : Environment
env = record {
  sign = none;
  normalize = λ url. success url;
  now = pos 100;
  send_error = λ sent b. none;
}

abbrev client : Client (List Event) ℕ
client = record {
  query_sync_items = λ f st. success 0;
  start = λ neg. (1, bytes "61");
  reconcile = λ neg text. (2, success []);
  need_ids = λ neg. note.id ∷ [];
  sub_id = λ sent. bytes "sync";
}

abbrev importer : Importer (List Event)
importer = record {
  verify_sig = λ ev. none;
  has_event_id = λ id st. success false;
  save_event = λ ev st. (ev ∷ st, none);
}

abbrev message : Text → Option Event → Read
message typ ev =
    received (record { typ = typ; text1 = []; text2 = []; text3 = []; bool2 = false; event2 = ev })

-- The upstream answers the reconciliation, and then the request for the event.
abbrev start : Pull (List Event)
start = record {
  link = record {
    reads = message (bytes "NEG-MSG") none ∷ message (bytes "EVENT") (some note) ∷ [];
    sent = [];
  };
  store = [];
  notified = [];
}

abbrev parse : Text → Result Filter
parse raw = success every

abbrev url : Text
url = bytes "wss://relay"

pull_upstream-Imported_example :
    let out = pull_upstream env client importer parse none (pos 0) url (s1 ∷ []) start in
    Imported env importer start.notified out.0.notified out.2 × (out.2 ≤ out.1)
pull_upstream-Imported_example =
    pull_upstream-Imported env client importer parse none (pos 0) url (s1 ∷ []) start

abbrev hourly : UpstreamEntry
hourly = record { name = s1; url = url; interval_seconds = pos 0; enabled = true }

abbrev open_gate : Gate
open_gate = record {
  nip77_enabled = true;
  upstream_enabled = true;
  upstream_pause_when_busy = true;
  relay_busy = false;
}

abbrev hourly_status : JobStatus
hourly_status = record {
  name = s1;
  url = url;
  enabled = true;
  last_run_unix = pos 0;
  next_run_unix = pos 0;
  last_error = none;
  last_need_count = 0;
  last_imported = 0;
  running = true;
}

abbrev one_job : Jobs
one_job = record {
  scheduler = record { status = (s1, hourly_status) ∷ []; running = (s1, true) ∷ [] };
  active = s1 ∷ [];
}

one_job-JobReach : JobReach no_jobs one_job
unfolding begin_job may_run new_status lookup insert
one_job-JobReach = next here (begins open_gate hourly one_job.scheduler refl refl)

JobReach-exclusive_example :
    NoDup one_job.active
    × ((n : Text) → (flag (lookup n one_job.scheduler.running) ≡ true) ↔ In n one_job.active)
    × ((n : Text)
        → shown (lookup n one_job.scheduler.status) ≡ flag (lookup n one_job.scheduler.running))
JobReach-exclusive_example = JobReach-exclusive one_job one_job-JobReach
