-- ===== src/Relay/Outbox/Queue.antt =====
-- The outbox as a bounded queue.
use congee.Prelude.{
  ℕ, ◌+◌, ◌≤◌, Text, ◌==◌, ==_refl, length, length-append, lookup, lookup-insert, List, [], ◌∷◌,
  ◌++◌, false, some, ◌≡◌, refl, ◌≢◌, ◌⊎◌, inl, inr, arith, Option-cases,
}
use congee.Nostr.Wire.{RelayMessage}
use congee.Relay.Outbox.{Outbox, sent, slow_consumer, enqueue, initiate_shutdown, Net, send}

-- The queue stays within its capacity; a message that is sent goes to its end, and any other
-- outcome leaves the queue as it was. Nothing is sent after a shutdown.
pub enqueue_lem :
    (c : Outbox) (b : RelayMessage)
    → length c.queue ≤ c.capacity
    → (length (enqueue c b).0.queue ≤ c.capacity)
      × (((enqueue c b).1 ≡ sent) × ((enqueue c b).0.queue ≡ c.queue ++ b ∷ [])
          ⊎ ((enqueue c b).1 ≢ sent) × ((enqueue c b).0 ≡ c))
      × ((enqueue (initiate_shutdown c) b).1 ≡ slow_consumer)
unfolding enqueue initiate_shutdown
enqueue_lem c b h = ground (arith, length-append c.queue (b ∷ []))

-- An outbox that is open and has room for `n` more messages.
pub record HasRoom (n : ℕ) (c : Outbox) : Type 0 where
  pub is_open : c.outbound_closed ≡ false
  pub running : c.ctx_done ≡ false
  pub room : length c.queue + n ≤ c.capacity

abbrev pub push : Outbox → List RelayMessage → Outbox
push c bs = record c { queue = c.queue ++ bs }

pub enqueue-HasRoom :
    (n : ℕ) (c : Outbox) (b : RelayMessage)
    → HasRoom (n + 1) c
    → enqueue c b ≡ (push c (b ∷ []), sent)
unfolding enqueue
enqueue-HasRoom n c b h = ground arith

pub push-HasRoom :
    (n : ℕ) (c : Outbox) (b : RelayMessage) → HasRoom (n + 1) c → HasRoom n (push c (b ∷ []))
push-HasRoom n c b h = record {
  is_open = h.is_open;
  running = h.running;
  room = omega (arith, length-append c.queue (b ∷ []), h.room);
}

-- Sending to one connection leaves the others' outboxes alone.
pub send_other :
    (net : Net) (c d : Text) (b : RelayMessage)
    → (c == d) ≡ false
    → lookup d (send net c b).0 ≡ lookup d net
unfolding send
send_other net c d b ne = elim (Option-cases (lookup c net)) [
  | inl e ↦ rw (e, send)
  | inr (x, e) ↦ rw (e, send, lookup-insert, ne)
]

pub send-HasRoom :
    (n : ℕ) (net : Net) (c : Text) (b : RelayMessage) (x : Outbox)
    → lookup c net ≡ some x
    → HasRoom (n + 1) x
    → (lookup c (send net c b).0 ≡ some (push x (b ∷ []))) × ((send net c b).1 ≡ sent)
unfolding send
send-HasRoom n net c b x e h =
    rw (e, send, enqueue-HasRoom n x b h) (rw (lookup-insert, ==_refl c), refl)
