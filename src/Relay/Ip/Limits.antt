-- ===== src/Relay/Ip/Limits.antt =====
-- The counts of the address tracker: the cap, and a slot that is given back.
use congee.Prelude.{
  ◌+◌, ◌-◌, ◌≤◌, ◌<◌, Text, ◌==◌, ==_iff, ℕ, ℤ, pos, lookup-insert, lookup-delete, [], true, ◌≡◌,
  refl, arith, if◌then◌else◌,
}
use congee.Relay.Ip.{IpConnTracker, open_count, try_acquire, release}

-- The counts after an attempt: one more for the address if a slot was reserved.
pub try_acquire-count :
    (ip j : Text) (max : ℤ) (t : IpConnTracker)
    → open_count j (try_acquire ip max t).0 ≡ (
        if (try_acquire ip max t).2
        then (if ip == j then open_count j t + 1 else open_count j t)
        else open_count j t)
unfolding try_acquire open_count
try_acquire-count ip j max t =
    ground (arith, ==_iff ip j, lookup-insert ip j (open_count ip t + 1) t)

-- The counts after a release: one less for the address, down to 0.
pub release-count :
    (ip j : Text) (t : IpConnTracker)
    → open_count j (release ip t) ≡ (if ip == j then open_count j t - 1 else open_count j t)
unfolding release open_count
release-count ip j t =
    ground (arith, ==_iff ip j, lookup-insert ip j (open_count ip t - 1) t, lookup-delete ip j t)

-- Giving back a slot that was reserved restores the count of every address.
pub release-try_acquire :
    (ip j : Text) (max : ℤ) (t : IpConnTracker)
    → (try_acquire ip max t).2 ≡ true
    → open_count j (release ip (try_acquire ip max t).0) ≡ open_count j t
release-try_acquire ip j max t h =
    ground (arith, try_acquire-count ip j max t, release-count ip j (try_acquire ip max t).0)

-- The trackers that connections reach by opening and closing, in any order, under one cap.
pub data Reach (max : ℤ) : IpConnTracker → Type 0 where
  start : Reach max []
  opens : (ip : Text) (t : IpConnTracker) → Reach max t → Reach max (try_acquire ip max t).0
  closes : (ip : Text) (t : IpConnTracker) → Reach max t → Reach max (release ip t)

try_acquire-reserved :
    (ip : Text) (m : ℕ) (t : IpConnTracker)
    → 0 < m
    → (try_acquire ip (pos m) t).2 ≡ true
    → open_count ip t < m
unfolding try_acquire
try_acquire-reserved ip m t p h = ground arith

opens-le :
    (ip j : Text) (m : ℕ) (t : IpConnTracker)
    → 0 < m
    → open_count j t ≤ m
    → open_count j (try_acquire ip (pos m) t).0 ≤ m
opens-le ip j m t p h =
    ground (arith, try_acquire-count ip j (pos m) t, try_acquire-reserved ip m t p, ==_iff ip j)

empty-count : (j : Text) → open_count j [] ≡ 0
unfolding open_count congee.Prelude.lookup
empty-count j = refl

-- No address ever has more connections open than a cap above 0.
pub Reach-capped :
    (m : ℕ) (t : IpConnTracker) → 0 < m → Reach (pos m) t → (j : Text) → open_count j t ≤ m
Reach-capped m _ p start j = omega (arith, p, empty-count j)
Reach-capped m _ p (opens ip t r) j = opens-le ip j m t p (Reach-capped m t p r j)
Reach-capped m _ p (closes ip t r) j = ground (arith, Reach-capped m t p r j, release-count ip j t)
