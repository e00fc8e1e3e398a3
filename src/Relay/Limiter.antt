-- ===== src/Relay/Limiter.antt =====
-- internal/relay/limiter.go. The clock is an argument, in nanoseconds; limits are not negative: a
-- limit below 0 acts as 0 does.
pub mod Window
pub mod Bytes
use congee.Prelude.{
  ℕ, ◌+◌, Text, ltb, leb, eqb, length, Map, lookup, insert, List, [], ◌∷◌, ◌++◌, Bool, true, false,
  Option, none, some, if◌then◌else◌,
}

pub record SlidingEvents : Type 0 where
  pub window : ℕ
  pub max : ℕ
  pub stamps : List ℕ

unfoldable pub new_sliding_events : ℕ → ℕ → SlidingEvents
new_sliding_events window max = record { window = window; max = max; stamps = [] }

-- `t.Before(now.Add(-window))`
abbrev pub before_cutoff : ℕ → ℕ → ℕ → Bool
before_cutoff window now t = ltb (t + window) now

-- The loop that skips the stamps before the cutoff, and the copy of the rest.
unfoldable pub expire : ℕ → ℕ → List ℕ → List ℕ
expire window now [] = []
expire window now (t ∷ ts) =
    let rest = expire window now ts in if before_cutoff window now t then rest else t ∷ ts

unfoldable pub allow : ℕ → SlidingEvents → SlidingEvents × Bool
unfolding expire
allow now s =
    let stamps = expire s.window now s.stamps in
    if leb s.max (length stamps)
    then (record s { stamps = stamps }, false)
    else (record s { stamps = stamps ++ now ∷ [] }, true)

pub record ByteEntry : Type 0 where
  pub t : ℕ
  pub n : ℕ

pub record ByteWindow : Type 0 where
  pub window : ℕ
  pub max_bytes : ℕ
  pub entries : List ByteEntry

unfoldable pub new_byte_window : ℕ → ℕ → ByteWindow
new_byte_window window max_bytes = record { window = window; max_bytes = max_bytes; entries = [] }

unfoldable pub expire_entries : ℕ → ℕ → List ByteEntry → List ByteEntry
expire_entries window now [] = []
expire_entries window now (e ∷ es) =
    let rest = expire_entries window now es in if before_cutoff window now e.t then rest else e ∷ es

abbrev pub sum_bytes : List ByteEntry → ℕ
sum_bytes [] = 0
sum_bytes (e ∷ es) = e.n + sum_bytes es

unfoldable pub allow_bytes : ℕ → ℕ → ByteWindow → ByteWindow × Bool
unfolding expire_entries
allow_bytes now n b =
    if eqb n 0
    then (b, true)
    else let entries = expire_entries b.window now b.entries in
      if ltb b.max_bytes (sum_bytes entries + n)
      then (record b { entries = entries }, false)
      else (record b { entries = entries ++ record { t = now; n = n } ∷ [] }, true)

-- Per-IP windows, shared by the connections of an address.
pub record IpWindows : Type 0 where
  pub messages : Map SlidingEvents
  pub connections : Map SlidingEvents

abbrev pub minute : ℕ
minute = 60000000000

abbrev pub second : ℕ
second = 1000000000

-- The window of an address, made when it is missing.
unfoldable pub window_of : Text → ℕ → Map SlidingEvents → SlidingEvents
unfolding new_sliding_events
window_of ip max_per_minute m = elim (lookup ip m) [
  | some x ↦ x
  | none ↦ new_sliding_events minute max_per_minute
]

unfoldable pub allow_ip : ℕ → Text → ℕ → Map SlidingEvents → Map SlidingEvents × Bool
unfolding window_of allow
allow_ip now ip max_per_minute m =
    let (x, ok) = allow now (window_of ip max_per_minute m) in (insert ip x m, ok)

pub record RateConfig : Type 0 where
  pub connections_per_minute_per_ip : ℕ
  pub messages_per_minute_per_ip : ℕ
  pub events_per_minute_per_connection : ℕ
  pub reqs_per_minute_per_connection : ℕ
  pub bytes_per_second_per_connection : ℕ
  pub neg_open_per_minute_per_connection : ℕ
  pub neg_msg_per_minute_per_connection : ℕ

unfoldable pub allow_new_connection : RateConfig → ℕ → Text → IpWindows → IpWindows × Bool
unfolding allow_ip
allow_new_connection cfg now ip w =
    let (m, ok) = allow_ip now ip cfg.connections_per_minute_per_ip w.connections in
    (record w { connections = m }, ok)

unfoldable pub allow_message : RateConfig → ℕ → Text → IpWindows → IpWindows × Bool
unfolding allow_ip
allow_message cfg now ip w =
    let (m, ok) = allow_ip now ip cfg.messages_per_minute_per_ip w.messages in
    (record w { messages = m }, ok)

pub record ConnLimiter : Type 0 where
  pub events : SlidingEvents
  pub reqs : SlidingEvents
  pub neg_open : SlidingEvents
  pub neg_msg : SlidingEvents
  pub bytes : ByteWindow

abbrev unless_zero : ℕ → ℕ → ℕ
unless_zero n d = if eqb n 0 then d else n

-- The two NEG fields are the effective values: a limit that the settings leave at 0 is the default,
-- before it comes here.
unfoldable pub new_conn_limiter : RateConfig → ConnLimiter
unfolding new_sliding_events new_byte_window
new_conn_limiter cfg = record {
  events = new_sliding_events minute cfg.events_per_minute_per_connection;
  reqs = new_sliding_events minute cfg.reqs_per_minute_per_connection;
  neg_open =
      new_sliding_events minute (unless_zero cfg.neg_open_per_minute_per_connection 0x40000000);
  neg_msg =
      new_sliding_events minute (unless_zero cfg.neg_msg_per_minute_per_connection 0x40000000);
  bytes = new_byte_window second cfg.bytes_per_second_per_connection;
}

unfoldable pub allow_inbound_bytes : ℕ → ℕ → ConnLimiter → ConnLimiter × Bool
unfolding allow_bytes
allow_inbound_bytes now n cl =
    let (b, ok) = allow_bytes now n cl.bytes in (record cl { bytes = b }, ok)

unfoldable pub allow_event : ℕ → ConnLimiter → ConnLimiter × Bool
unfolding allow
allow_event now cl = let (s, ok) = allow now cl.events in (record cl { events = s }, ok)

unfoldable pub allow_req : ℕ → ConnLimiter → ConnLimiter × Bool
unfolding allow
allow_req now cl = let (s, ok) = allow now cl.reqs in (record cl { reqs = s }, ok)

unfoldable pub allow_neg_open : ℕ → ConnLimiter → ConnLimiter × Bool
unfolding allow
allow_neg_open now cl = let (s, ok) = allow now cl.neg_open in (record cl { neg_open = s }, ok)

unfoldable pub allow_neg_msg : ℕ → ConnLimiter → ConnLimiter × Bool
unfolding allow
allow_neg_msg now cl = let (s, ok) = allow now cl.neg_msg in (record cl { neg_msg = s }, ok)
