-- ===== src/Relay/Limiter/Bytes.antt =====
-- The byte window: what it holds and what it lets through.
use congee.Prelude.{ℕ, ◌+◌, ◌≤◌, eqb, List, [], ◌∷◌, ◌++◌, true, ◌≡◌, ◌↔◌, arith, if◌then◌else◌}
use congee.Relay.Limiter.{ByteEntry, ByteWindow, sum_bytes, expire_entries, allow_bytes}

expire_entries_le :
    (w now : ℕ) (es : List ByteEntry) → sum_bytes (expire_entries w now es) ≤ sum_bytes es
unfolding expire_entries
expire_entries_le w now [] = omega arith
expire_entries_le w now (e ∷ es) = ground (arith, expire_entries_le w now es)

sum_bytes-append : (es fs : List ByteEntry) → sum_bytes (es ++ fs) ≡ sum_bytes es + sum_bytes fs
sum_bytes-append [] fs = omega arith
sum_bytes-append (e ∷ es) fs = omega (arith, sum_bytes-append es fs)

-- The bytes that are counted never exceed the cap, and `n` more are let through exactly when they
-- are none or fit beside those that have not expired.
pub allow_bytes_bounded :
    (now n : ℕ) (b : ByteWindow)
    → sum_bytes b.entries ≤ b.max_bytes
    → (sum_bytes (allow_bytes now n b).0.entries ≤ b.max_bytes)
      × (((allow_bytes now n b).1 ≡ true) ↔ (
          n + (if eqb n 0 then 0 else sum_bytes (expire_entries b.window now b.entries))
          ≤ b.max_bytes))
unfolding allow_bytes
allow_bytes_bounded now n b h = ground (
  arith,
  expire_entries_le b.window now b.entries,
  sum_bytes-append (expire_entries b.window now b.entries) (record { t = now; n = n } ∷ []),
)
