-- ===== src/Relay/Ip.antt =====
-- internal/relay/ip_conn_tracker.go: open connections per address.
pub mod Limits
use congee.Prelude.{
  ℕ, ◌+◌, ◌-◌, Text, leb, ltb, leb_ℤ, ltb_ℤ, ℤ, pos, Map, lookup, insert, delete, Bool, true, false,
  ◌&&◌, Option, none, some, if◌then◌else◌,
}

abbrev pub IpConnTracker : Type 0
IpConnTracker = Map ℕ

abbrev count_or_zero : Option ℕ → ℕ
count_or_zero none = 0
count_or_zero (some n) = n

unfoldable pub open_count : Text → IpConnTracker → ℕ
open_count ip t = count_or_zero (lookup ip t)

-- The tracker, the count for the address, and whether a slot was reserved.
unfoldable pub try_acquire : Text → ℤ → IpConnTracker → IpConnTracker × ℕ × Bool
unfolding open_count
try_acquire ip max t =
    let n = open_count ip t in
    if ltb_ℤ (pos 0) max && leb_ℤ max (pos n)
    then (t, n, false)
    else (insert ip (n + 1) t, n + 1, true)

unfoldable pub release : Text → IpConnTracker → IpConnTracker
unfolding open_count
release ip t = let n = open_count ip t in if leb n 1 then delete ip t else insert ip (n - 1) t
