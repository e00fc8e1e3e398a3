-- ===== src/Relay/Neg/Bounds.antt =====
-- The limit on reconciliation sessions, over every run of the handlers, the worker, the timers and
-- the teardowns, each of them a step.
use congee.Prelude.{
  ℕ, ◌+◌, ◌≤◌, Text, length, lookup, ℤ, pos, ◌≤ℤ◌, leb_ℤ, ◌-ℤ◌, [], false, none, Result, ◌≡◌, arith,
  inl, inr, Bool-cases, Option-cases,
}
use congee.Config.{Config, nip77_max_concurrent_sessions}
use congee.Nostr.Filter.{Filter}
use congee.Relay.Outbox.{Net}
use congee.Relay.Auth.{AuthState}
use congee.Relay.Neg.{
  NegOpenJob, NegState, sessions_of, put_sessions, remove_session, is_session, neg_open_blocked,
  handle_neg_open,
}
use congee.Relay.Neg.Run.{
  Load, neg_worker, handle_neg_msg, handle_neg_close, neg_idle, close_sessions, new_neg_state,
}
use congee.Relay.Neg.Sessions.{
  total, live, Fits, live-put, remove_session-Fits, net-Fits, send_neg_err-Fits,
  neg_open_reserve-Fits,
}
use congee.Relay.Neg.Steps.{neg_worker-Fits, handle_neg_msg-Fits}

-- A step of the relay's reconciliation: a message of a client, a job of the worker, a timer that
-- fires, or the end of a connection.
pub data NegStep {Neg : Type 0} (reconcile : Neg → Text → Neg × Result Text) (cfg : Config)
    (x : NegState Neg) : NegState Neg → Type 0 where
  opens :
      (auth : AuthState) (pending : ℕ) (job : NegOpenJob)
      → NegStep reconcile cfg x (handle_neg_open cfg auth pending job x)
  works :
      (now : ℤ) (load : Load Neg) → NegStep reconcile cfg x (neg_worker reconcile cfg now load x)
  messages :
      (now : ℤ) (c s message_hex : Text)
      → NegStep reconcile cfg x (handle_neg_msg reconcile cfg now c s message_hex x)
  closes : (c s : Text) → NegStep reconcile cfg x (handle_neg_close c s x)
  idles : (c s : Text) (uid : ℕ) → NegStep reconcile cfg x (neg_idle c s uid x)
  tears_down : (c : Text) → NegStep reconcile cfg x (close_sessions c x)
  others : (net : Net) → NegStep reconcile cfg x (record x { net = net })

pub data NegReach {Neg : Type 0} (reconcile : Neg → Text → Neg × Result Text) (cfg : Config)
    (x : NegState Neg) : NegState Neg → Type 0 where
  here : NegReach reconcile cfg x x
  next :
      {y z : NegState Neg}
      → NegReach reconcile cfg x y
      → NegStep reconcile cfg y z
      → NegReach reconcile cfg x z

not_blocked-room :
    (cfg : Config) (auth : AuthState) (pending : ℕ) (s : Text) (f : Filter) (active : ℤ)
    → neg_open_blocked cfg auth pending s f active ≡ none
    → leb_ℤ (nip77_max_concurrent_sessions cfg) active ≡ false
unfolding neg_open_blocked
not_blocked-room cfg auth pending s f active fine = ground arith

handle_neg_open-Fits :
    {Neg : Type 0} (k : ℕ) (cfg : Config) (auth : AuthState) (pending : ℕ) (job : NegOpenJob)
    (x : NegState Neg)
    → Fits (nip77_max_concurrent_sessions cfg) k x
    → Fits (nip77_max_concurrent_sessions cfg) k (handle_neg_open cfg auth pending job x)
unfolding handle_neg_open
handle_neg_open-Fits k cfg auth pending job x h =
    elim (Option-cases (neg_open_blocked cfg auth pending job.sub_id job.filter x.active)) [
      | inr (reason, blocked) ↦
          rw (blocked, handle_neg_open) (send_neg_err-Fits _ k job.conn_id job.sub_id reason x h)
      | inl fine ↦
          rw (fine, handle_neg_open)
            (neg_open_reserve-Fits _ k job x
              (not_blocked-room cfg auth pending job.sub_id job.filter x.active fine) h)
    ]

sub-le : (a : ℤ) (n m k : ℕ) → pos n ≤ℤ a → m + k ≤ n → pos m ≤ℤ (a -ℤ pos k)
unfolding ◌-ℤ◌
sub-le a n m k h le = ground arith

sub-below : (a : ℤ) (k : ℕ) → (a -ℤ pos k) ≤ℤ a
unfolding ◌-ℤ◌
sub-below a k = ground arith

close_sessions-Fits :
    {Neg : Type 0} (k : ℕ) (limit : ℤ) (c : Text) (x : NegState Neg)
    → Fits limit k x
    → Fits limit k (close_sessions c x)
unfolding close_sessions live put_sessions
close_sessions-Fits k limit c x h =
    let put = live-put c [] x in
    record {
      covered =
          sub-le x.active (live x + k) _ (length (sessions_of c x)) h.covered (omega (arith, put));
      within = omega (arith, h.within, sub-below x.active (length (sessions_of c x)));
    }

NegStep-Fits :
    {Neg : Type 0} (k : ℕ) (reconcile : Neg → Text → Neg × Result Text) (cfg : Config)
    {x y : NegState Neg}
    → NegStep reconcile cfg x y
    → Fits (nip77_max_concurrent_sessions cfg) k x
    → Fits (nip77_max_concurrent_sessions cfg) k y
unfolding handle_neg_close neg_idle
NegStep-Fits k reconcile cfg {x} (opens auth pending job) h =
    handle_neg_open-Fits k cfg auth pending job x h
NegStep-Fits k reconcile cfg {x} (works now load) h = neg_worker-Fits reconcile k cfg _ now load x h
NegStep-Fits k reconcile cfg {x} (messages now c s message_hex) h =
    handle_neg_msg-Fits reconcile k cfg _ now c s message_hex x h
NegStep-Fits k reconcile cfg {x} (closes c s) h = remove_session-Fits _ k c s x h
NegStep-Fits k reconcile cfg {x} (idles c s uid) h =
    elim (Bool-cases (is_session uid (lookup s (sessions_of c x)))) [
      | inl there ↦
          rw there
            (send_neg_err-Fits _ k c s _ (remove_session c s x) (remove_session-Fits _ k c s x h))
      | inr gone ↦ rw gone h
    ]
NegStep-Fits k reconcile cfg {x} (tears_down c) h = close_sessions-Fits k _ c x h
NegStep-Fits k reconcile cfg {x} (others net) h = net-Fits _ k net x h

NegReach-Fits :
    {Neg : Type 0} (k : ℕ) (reconcile : Neg → Text → Neg × Result Text) (cfg : Config)
    {x y : NegState Neg}
    → NegReach reconcile cfg x y
    → Fits (nip77_max_concurrent_sessions cfg) k x
    → Fits (nip77_max_concurrent_sessions cfg) k y
NegReach-Fits k reconcile cfg here h = h
NegReach-Fits k reconcile cfg (next r st) h =
    NegStep-Fits k reconcile cfg st (NegReach-Fits k reconcile cfg r h)

start-Fits :
    {Neg : Type 0} (cfg : Config) (net : Net)
    → Fits {Neg = Neg} (nip77_max_concurrent_sessions cfg) 0 (new_neg_state cfg net)
unfolding new_neg_state live total nip77_max_concurrent_sessions
start-Fits cfg net = record { covered = omega arith; within = ground arith }

-- Slots that the counter holds for no session and no waiting job are never given back: whatever the
-- clients, the worker, the timers and the teardowns do, it goes on holding as many.
pub NegReach-leak :
    {Neg : Type 0} (reconcile : Neg → Text → Neg × Result Text) (cfg : Config) (leaked : ℕ)
    (x y : NegState Neg)
    → x.active ≤ℤ nip77_max_concurrent_sessions cfg
    → pos (total x.sessions + length x.jobs + leaked) ≤ℤ x.active
    → NegReach reconcile cfg x y
    → pos (total y.sessions + length y.jobs + leaked) ≤ℤ y.active
unfolding live
NegReach-leak reconcile cfg leaked x y within held r =
    (NegReach-Fits leaked reconcile cfg r (record { covered = held; within = within })).covered

-- In every state that a relay reaches from its start, in any order of the messages of its clients,
-- the jobs, the timers that fire and the connections that end, when each of them runs as one step, the
-- test and the reservation of NEG-OPEN together: the counter covers the sessions that are open and the
-- jobs that wait, and is within the configured limit; so there are never more sessions than the limit.
pub NegReach-limit :
    {Neg : Type 0} (reconcile : Neg → Text → Neg × Result Text) (cfg : Config) (net : Net)
    (x : NegState Neg)
    → NegReach reconcile cfg (new_neg_state cfg net) x
    → (pos (total x.sessions + length x.jobs) ≤ℤ x.active)
      × (x.active ≤ℤ nip77_max_concurrent_sessions cfg)
      × (pos (total x.sessions) ≤ℤ nip77_max_concurrent_sessions cfg)
unfolding live
NegReach-limit reconcile cfg net x r =
    let h = NegReach-Fits 0 reconcile cfg r (start-Fits cfg net) in
    (omega (arith, h.covered), h.within, omega (arith, h.covered, h.within))
