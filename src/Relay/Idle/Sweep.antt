-- ===== src/Relay/Idle/Sweep.antt =====
-- Which connections the sweep closes.
use congee.Prelude.{
  ℕ, ℤ, pos, ◌≤ℤ◌, ◌<ℤ◌, ◌-ℤ◌, sub64, IsInt64, wrap64_of_IsInt64, true, ◌≡◌, ◌↔◌, arith,
}
use congee.Relay.Idle.{IdleClock, note_subscription_count, sweeps}

-- A connection is closed exactly when its clock runs, it has sent no event, it has no subscription,
-- and the clock has run for the limit; where the time since then is an int64.
pub sweeps_iff :
    (limit now : ℤ) (sub_count : ℕ) (c : IdleClock)
    → IsInt64 (now -ℤ c.idle_since_unix)
    → (sweeps limit now sub_count c ≡ true) ↔ (
        (pos 0 <ℤ c.idle_since_unix)
        × (c.client_event_total ≡ 0)
        × (sub_count ≡ 0)
        × (limit ≤ℤ now -ℤ c.idle_since_unix))
unfolding sweeps sub64
sweeps_iff limit now sub_count c h = ground (arith, wrap64_of_IsInt64 (now -ℤ c.idle_since_unix) h)

-- After its last subscription ends, a connection that has sent no event is closed exactly when the
-- limit has passed since then; one that has sent an event is not closed.
pub sweeps-note_subscription_count :
    (limit now since : ℤ) (c : IdleClock)
    → pos 0 <ℤ since
    → IsInt64 (now -ℤ since)
    → (sweeps limit now 0 (note_subscription_count since 0 c) ≡ true)
      ↔ ((c.client_event_total ≡ 0) × (limit ≤ℤ now -ℤ since))
unfolding sweeps sub64 note_subscription_count
sweeps-note_subscription_count limit now since c p h =
    ground (arith, wrap64_of_IsInt64 (now -ℤ since) h)
