-- ===== src/Tests/Sync.antt =====
-- Reconciliation sessions, the rate of events, and what a plugin names.
use congee.Prelude.{
  ℕ, ◌+◌, ◌≤◌, ◌==◌, Text, bytes, length, lookup, is_some, keep, pos, ℤ, ◌≤ℤ◌, ◌<ℤ◌, List, [], ◌∷◌,
  true, false, Option, none, some, Result, success, failure, ◌≡◌, refl, arith,
}
use congee.Config.{Config, nip77_max_concurrent_sessions}
use congee.Nostr.Wire.{ClientMessage, event_message}
use congee.Relay.Auth.{AuthState}
use congee.Relay.Limiter.{RateConfig, minute}
use congee.Relay.Limiter.Window.{between}
use congee.Relay.Idle.{IdleClock}
use congee.Relay.Inbound.{new_inbound}
use congee.Relay.Inbound.Rates.{Arrival, handed, handed_bounded}
use congee.Relay.Neg.{Session, NegOpenJob, NegState, neg_open_reserve, handle_neg_open}
use congee.Relay.Neg.Run.{neg_worker, new_neg_state}
use congee.Relay.Neg.Sessions.{total}
use congee.Relay.Neg.Bounds.{here, next, opens, NegReach-limit}
use congee.Relay.Neg.Leak.{neg_open_reserve-race, neg_worker-replaces}
use congee.Tests.{c1, c2, s1, every, note, config}

abbrev rates : RateConfig
rates = record {
  connections_per_minute_per_ip = 10;
  messages_per_minute_per_ip = 100;
  events_per_minute_per_connection = 1;
  reqs_per_minute_per_connection = 10;
  bytes_per_second_per_connection = 1000;
  neg_open_per_minute_per_connection = 6;
  neg_msg_per_minute_per_connection = 120;
}

abbrev clock : IdleClock
clock = record { started_unix = pos 1; idle_since_unix = pos 1; client_event_total = 0 }

abbrev arrival : ℕ → Arrival
arrival t = record {
  at = t;
  payload = bytes "x";
  windows = record { messages = []; connections = [] };
}

abbrev reads_note : Text → Option ClientMessage
reads_note payload = some (event_message note)

handed_bounded_example :
    length (
      keep
        (between 5 (5 + minute))
        (handed reads_note rates c1 (arrival 5 ∷ arrival 6 ∷ []) (new_inbound rates clock)))
    ≤ 1
handed_bounded_example =
    handed_bounded reads_note rates c1 (arrival 5 ∷ arrival 6 ∷ []) clock 5
      (omega arith, (omega arith, tt))

-- A reconciliation that always goes on, with NIP-77 enabled.
abbrev goes_on : ℕ → Text → ℕ × Result Text
goes_on n m = (n, success (bytes "61"))

abbrev settings : Config
settings = config (pos 77 ∷ [])

abbrev silent : AuthState
silent = record { nip42_challenge = []; nip42_auth_sent = false; nip42_pubkeys = [] }

abbrev job_of : Text → NegOpenJob
job_of c = record { conn_id = c; sub_id = s1; filter = every; initial_hex = bytes "61" }

abbrev started : NegState ℕ
started = new_neg_state settings []

abbrev one_queued : NegState ℕ
one_queued = handle_neg_open settings silent 0 (job_of c1) started

NegReach-limit_example :
    (pos (total one_queued.sessions + length one_queued.jobs) ≤ℤ one_queued.active)
    × (one_queued.active ≤ℤ nip77_max_concurrent_sessions settings)
    × (pos (total one_queued.sessions) ≤ℤ nip77_max_concurrent_sessions settings)
NegReach-limit_example =
    NegReach-limit goes_on settings [] one_queued (next here (opens silent 0 (job_of c1)))

abbrev open_session : Session ℕ
open_session = record {
  uid = 0;
  record_count = 1;
  opened_unix = pos 1;
  rounds = 0;
  last_act_unix = pos 1;
  neg = 0;
}

-- One session, and a slot of the counter that nothing holds.
abbrev leaking : NegState ℕ
leaking = record started { active = pos 2; sessions = (c1, (s1, open_session) ∷ []) ∷ [] }

neg_worker-replaces_example :
    let x = record leaking { jobs = job_of c1 ∷ [] } in
    let y =
      neg_worker goes_on settings
        (pos 5)
        (record { count = success 1; items = success (1, 4) })
        x in
    (y.active ≡ pos 2) × (y.jobs ≡ []) × (total y.sessions ≡ total x.sessions)
unfolding new_neg_state bytes lookup congee.Relay.Neg.sessions_of ◌==◌
neg_worker-replaces_example =
    neg_worker-replaces goes_on settings (pos 5)
      (record { count = success 1; items = success (1, 4) }) (job_of c1) [] 1 1 4 (bytes "61")
      (record leaking { jobs = job_of c1 ∷ [] }) refl refl refl refl refl refl refl refl

abbrev almost_full : NegState ℕ
almost_full = record started { active = pos 7 }

neg_open_reserve-race_example :
    nip77_max_concurrent_sessions settings
    <ℤ (neg_open_reserve (job_of c2) (neg_open_reserve (job_of c1) almost_full)).active
unfolding nip77_max_concurrent_sessions congee.Relay.Neg.neg_open_blocked congee.Prelude.trim_space
    congee.Prelude.◌-ℤ◌ lookup congee.Relay.Neg.sessions_of new_neg_state
neg_open_reserve-race_example =
    neg_open_reserve-race settings silent silent 0 (job_of c1) (job_of c2) almost_full refl refl
      refl refl refl (omega arith)
