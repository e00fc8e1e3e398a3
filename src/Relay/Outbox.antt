-- ===== src/Relay/Outbox.antt =====
-- The outbound side of a connection (internal/relay/handler.go, conn_shutdown.go): the buffered
-- channel that the write loop drains.
pub mod Queue
use congee.Prelude.{
  ℕ, Text, ltb, length, Map, lookup, insert, List, [], ◌∷◌, ◌++◌, Bool, true, false, ◌&&◌, Option,
  none, some, if◌then◌else◌,
}
use congee.Nostr.Wire.{RelayMessage}

-- `prefer_done` is the scheduler's choice in a select of which both cases are ready.
pub record Outbox : Type 0 where
  pub queue : List RelayMessage
  pub capacity : ℕ
  pub outbound_closed : Bool
  pub ctx_done : Bool
  pub prefer_done : Bool

-- What `enqueue` returns: nil, `context.Canceled` or `ErrSlowConsumer`.
pub data SendResult : Type 0 where
  sent canceled slow_consumer : SendResult

abbrev pub is_sent : SendResult → Bool
is_sent sent = true
is_sent canceled = false
is_sent slow_consumer = false

unfoldable pub enqueue : Outbox → RelayMessage → Outbox × SendResult
enqueue c b =
    if c.outbound_closed
    then (c, slow_consumer)
    else if c.ctx_done && c.prefer_done
    then (c, canceled)
    else if ltb (length c.queue) c.capacity
    then (record c { queue = c.queue ++ b ∷ [] }, sent)
    else if c.ctx_done
    then (c, canceled)
    else (c, slow_consumer)

-- `initiateShutdown`: the context is cancelled, and the channel closed once.
unfoldable pub initiate_shutdown : Outbox → Outbox
initiate_shutdown c = record c { ctx_done = true; outbound_closed = true }

-- The connections' outboxes by connection id. A sender is the `enqueue` of one of them.
abbrev pub Net : Type 0
Net = Map Outbox

unfoldable pub send : Net → Text → RelayMessage → Net × SendResult
unfolding enqueue
send net conn_id b = elim (lookup conn_id net) [
  | none ↦ (net, slow_consumer)
  | some c ↦ let (c', r) = enqueue c b in (insert conn_id c' net, r)
]
