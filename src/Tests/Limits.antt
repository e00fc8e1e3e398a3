-- ===== src/Tests/Limits.antt =====
-- The limiters and the counts of connections.
use congee.Prelude.{◌≤◌, pos, [], ◌∷◌, ◌≡◌, arith}
use congee.Relay.Limiter.{ByteWindow, new_sliding_events}
use congee.Relay.Limiter.Window.{accepts, ideal, accepts-ideal}
use congee.Relay.Ip.{open_count, try_acquire}
use congee.Relay.Ip.Limits.{Reach-capped, start, opens}
use congee.Tests.{c1}

accepts-ideal_example :
    accepts (5 ∷ 6 ∷ 7 ∷ 16 ∷ []) (new_sliding_events 10 2) ≡ ideal 10 2 [] (5 ∷ 6 ∷ 7 ∷ 16 ∷ [])
accepts-ideal_example =
    accepts-ideal 10 2 (5 ∷ 6 ∷ 7 ∷ 16 ∷ [])
      (omega arith, (omega arith, (omega arith, (omega arith, tt))))

abbrev window : ByteWindow
window = record { window = 10; max_bytes = 100; entries = record { t = 3; n = 60 } ∷ [] }

Reach-capped_example : open_count c1 (try_acquire c1 (pos 1) (try_acquire c1 (pos 1) []).0).0 ≤ 1
Reach-capped_example =
    Reach-capped 1 (try_acquire c1 (pos 1) (try_acquire c1 (pos 1) []).0).0 (omega arith)
      (opens c1 _ (opens c1 [] start)) c1
