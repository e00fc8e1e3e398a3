-- ===== src/Relay/Idle.antt =====
-- internal/relay/conn_idle.go: the idle clock of a connection and the sweep that closes idle ones.
use congee.Prelude.{
  ℕ, ltb, eqb, ℤ, pos, negsuc, ltb_ℤ, leb_ℤ, sub64, Bool, true, false, not, ◌&&◌, if◌then◌else◌,
}
pub mod Sweep

pub record IdleClock : Type 0 where
  pub started_unix : ℤ
  pub idle_since_unix : ℤ
  pub client_event_total : ℕ

abbrev pub idle_exempt_event : ℤ
idle_exempt_event = pos 0

abbrev pub idle_active_subs : ℤ
idle_active_subs = negsuc 0

unfoldable pub init_idle_clock : IdleClock → IdleClock
init_idle_clock c = record c { idle_since_unix = c.started_unix }

unfoldable pub note_client_event : IdleClock → IdleClock
note_client_event c = record c { idle_since_unix = idle_exempt_event }

unfoldable pub note_subscription_count : ℤ → ℕ → IdleClock → IdleClock
note_subscription_count now n c =
    if ltb 0 n
    then record c { idle_since_unix = idle_active_subs }
    else if ltb 0 c.client_event_total
    then record c { idle_since_unix = idle_exempt_event }
    else record c { idle_since_unix = now }

-- `sub_count` is what `SubCount` of the subscription manager answers for the connection.
unfoldable pub idle_eligible : ℕ → IdleClock → Bool
idle_eligible sub_count c =
    if leb_ℤ c.idle_since_unix idle_exempt_event
    then false
    else if ltb 0 c.client_event_total
    then false
    else eqb sub_count 0

unfoldable pub idle_seconds : ℤ → IdleClock → ℤ
unfolding sub64
idle_seconds now c =
    if leb_ℤ c.idle_since_unix idle_exempt_event then pos 0 else sub64 now c.idle_since_unix

-- The body of the sweep's loop: whether it shuts the connection down.
unfoldable pub sweeps : ℤ → ℤ → ℕ → IdleClock → Bool
unfolding idle_eligible idle_seconds
sweeps limit now sub_count c =
    if not (idle_eligible sub_count c)
    then false
    else if ltb_ℤ (idle_seconds now c) limit
    then false
    else true
