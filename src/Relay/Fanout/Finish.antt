-- ===== src/Relay/Fanout/Finish.antt =====
-- `FinishSnapshot` sends what was buffered, in order, and lets live events through from then on.
use congee.Prelude.{
  ℕ, suc, ◌+◌, Text, ==_refl, length, is_some, lookup, List, [], ◌∷◌, Bool, true, false, some, ◌≡◌,
  refl, ap, ◌∙◌, arith,
}
use mathlib.Core.List.{append-nil, append_assoc}
use congee.Nostr.Wire.{RelayMessage}
use congee.Relay.Outbox.{Outbox, Net, send, is_sent}
use congee.Relay.Outbox.Queue.{HasRoom, push, push-HasRoom, send-HasRoom}
use congee.Relay.Subs.{SubEntry, Manager, update_entry}
use congee.Relay.Subs.Open.{entry, update_entry-entry}
use congee.Relay.Fanout.{take_pending, flush, finish_snapshot, note_broadcast}

HasRoom-suc : (n : ℕ) (x : Outbox) → HasRoom (suc n) x → HasRoom (n + 1) x
HasRoom-suc n x h = record {
  is_open = h.is_open;
  running = h.running;
  room = omega (arith, h.room);
}

-- Sending the buffered messages one by one.
flush-queue :
    (c s : Text) (bs : List RelayMessage) (net : Net) (m : Manager) (x : Outbox)
    → lookup c net ≡ some x
    → HasRoom (length bs) x
    → lookup c (flush c s bs net m).0 ≡ some (push x bs)
unfolding flush
flush-queue c s [] net m x p h = rw append-nil p
flush-queue c s (b ∷ bs) net m x p h =
    let room = HasRoom-suc (length bs) x h in
    let (q, _) = send-HasRoom (length bs) net c b x p room in
    flush-queue c s bs (send net c b).0
      (update_entry c s (note_broadcast (is_sent (send net c b).1)) m) (push x (b ∷ [])) q
      (push-HasRoom (length bs) x b room)
    ∙ ap (λ l. some (record x { queue = l })) (append_assoc x.queue (b ∷ []) bs)

-- The part of an entry that counting a delivery leaves alone.
pub record SameSnapshot (e f : SubEntry) : Type 0 where
  pub filters : f.filters ≡ e.filters
  pub closed : f.closed ≡ e.closed
  pub opened_unix : f.opened_unix ≡ e.opened_unix
  pub snapshot_done : f.snapshot_done ≡ e.snapshot_done
  pub pending_live : f.pending_live ≡ e.pending_live

pub note_broadcast-SameSnapshot : (ok : Bool) (e : SubEntry) → SameSnapshot e (note_broadcast ok e)
note_broadcast-SameSnapshot true e = record {
  filters = refl;
  closed = refl;
  opened_unix = refl;
  snapshot_done = refl;
  pending_live = refl;
}
note_broadcast-SameSnapshot false e = record {
  filters = refl;
  closed = refl;
  opened_unix = refl;
  snapshot_done = refl;
  pending_live = refl;
}

flush-entry :
    (c s : Text) (bs : List RelayMessage) (net : Net) (m : Manager) (e : SubEntry)
    → entry c s m ≡ some e
    → (f : SubEntry) × (entry c s (flush c s bs net m).1 ≡ some f) × SameSnapshot e f
unfolding flush
flush-entry c s [] net m e p = (
  e,
  p,
  record {
    filters = refl;
    closed = refl;
    opened_unix = refl;
    snapshot_done = refl;
    pending_live = refl;
  },
)
flush-entry c s (b ∷ bs) net m e p =
    let ok = is_sent (send net c b).1 in
    let e' = note_broadcast ok e in
    let k = note_broadcast-SameSnapshot ok e in
    let (f, q, r) =
      flush-entry c s bs (send net c b).0 (update_entry c s (note_broadcast ok) m) e'
        (rw (update_entry-entry, ==_refl c, ==_refl s, p)) in
    (
      f,
      q,
      record {
        filters = r.filters ∙ k.filters;
        closed = r.closed ∙ k.closed;
        opened_unix = r.opened_unix ∙ k.opened_unix;
        snapshot_done = r.snapshot_done ∙ k.snapshot_done;
        pending_live = r.pending_live ∙ k.pending_live;
      },
    )

-- Where the connection has a sender and its outbox has room, finishing the snapshot of a
-- subscription sends its buffered messages in their order, and leaves its entry with the same
-- filters, with an empty buffer and its snapshot done, and closed exactly if it was closed before.
pub finish_snapshot_lem :
    (c s : Text) (net : Net) (m : Manager) (e : SubEntry) (x : Outbox)
    → entry c s m ≡ some e
    → is_some (lookup c m.senders) ≡ true
    → lookup c net ≡ some x
    → HasRoom (length e.pending_live) x
    → (lookup c (finish_snapshot c s net m).0 ≡ some (push x e.pending_live))
      × ((f : SubEntry) × (entry c s (finish_snapshot c s net m).1 ≡ some f)
          × (f.filters ≡ e.filters)
          × (f.closed ≡ e.closed)
          × (f.snapshot_done ≡ true)
          × (f.pending_live ≡ []))
unfolding finish_snapshot take_pending
finish_snapshot_lem c s net m e x p r q h =
    rw (p, take_pending, r)
      (
        flush-queue c s e.pending_live net done x q h,
        let (f, found, k) =
              flush-entry c s e.pending_live net done e'
                (rw (update_entry-entry, ==_refl c, ==_refl s, p)) in
            (f, found, k.filters, k.closed, k.snapshot_done, k.pending_live),
      )
  where
    e' : SubEntry
    e' = record e { snapshot_done = true; pending_live = [] }

    done : Manager
    done = update_entry c s (λ e. record e { snapshot_done = true; pending_live = [] }) m
