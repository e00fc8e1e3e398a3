-- ===== src/Tests/Delivery.antt =====
-- Subscriptions and fan-out on a connection or two.
use congee.Prelude.{
  ◌==◌, length, lookup, take, ltb, pos, [], ◌∷◌, ◌++◌, true, false, some, ◌≡◌, refl, arith,
}
use congee.Nostr.Wire.{RelayMessage, eose}
use congee.Relay.Outbox.{Outbox}
use congee.Relay.Outbox.Queue.{push}
use congee.Relay.Subs.{
  Manager, SubEntry, add, subs_of, is_same_snapshot, new_entry, pending_live_cap,
}
use congee.Relay.Subs.Invariant.{Inv}
use congee.Relay.Subs.Open.{entry, is_same_snapshot-add}
use congee.Relay.Fanout.{reachable, broadcast, finish_snapshot}
use congee.Relay.Fanout.Delivery.{broadcast_due, due_messages}
use congee.Relay.Fanout.Buffer.{deliver_run, deliver_run-new_entry, matching}
use congee.Relay.Fanout.Finish.{finish_snapshot_lem}
use congee.Relay.Fanout.Reach.{State, Reach-Inv, here, next, adds, broadcasts}
use congee.Tests.{c1, s1, every, note, open_entry, manager, outbox}

abbrev message : RelayMessage
message = eose s1

abbrev one_open : Manager
one_open = manager ((c1, (s1, open_entry) ∷ []) ∷ [])

is_same_snapshot-add_example :
    is_same_snapshot c1 s1 (pos 7) (add (pos 7) c1 s1 (every ∷ []) one_open).0 ≡ true
unfolding add subs_of lookup ◌==◌
is_same_snapshot-add_example =
    is_same_snapshot-add (pos 7) (pos 7) c1 s1 (every ∷ []) one_open refl refl

broadcast_due_example :
    (y : Outbox) × (lookup c1 (broadcast (λ c e. true) note ((c1, outbox) ∷ []) one_open).0
      ≡ some y)
    × (y.queue ≡ [] ++ due_messages note ((s1, open_entry) ∷ []))
unfolding reachable lookup ◌==◌
broadcast_due_example =
    broadcast_due (λ c e. true) c1 note ((c1, outbox) ∷ []) one_open ((s1, open_entry) ∷ []) outbox
      refl (refl, tt) refl refl (record { is_open = refl; running = refl; room = omega arith })

deliver_run-new_entry_example :
    let (net', e) =
      deliver_run c1 s1 (note ∷ []) ((c1, outbox) ∷ []) (new_entry (every ∷ []) (pos 7)) in
    (net' ≡ (c1, outbox) ∷ [])
    × (e.snapshot_done ≡ false)
    × (e.pending_live ≡ take pending_live_cap (matching s1 (every ∷ []) (note ∷ [])))
    × (e.overflow ≡ ltb pending_live_cap (length (matching s1 (every ∷ []) (note ∷ []))))
deliver_run-new_entry_example =
    deliver_run-new_entry c1 s1 (every ∷ []) (pos 7) (note ∷ []) ((c1, outbox) ∷ [])

abbrev pending_entry : SubEntry
pending_entry = record open_entry { snapshot_done = false; pending_live = message ∷ [] }

abbrev one_pending : Manager
one_pending = manager ((c1, (s1, pending_entry) ∷ []) ∷ [])

finish_snapshot_lem_example :
    (lookup c1 (finish_snapshot c1 s1 ((c1, outbox) ∷ []) one_pending).0
      ≡ some (push outbox (message ∷ [])))
    × ((f : SubEntry) × (entry c1 s1 (finish_snapshot c1 s1 ((c1, outbox) ∷ []) one_pending).1
          ≡ some f)
        × (f.filters ≡ every ∷ [])
        × (f.closed ≡ false)
        × (f.snapshot_done ≡ true)
        × (f.pending_live ≡ []))
unfolding subs_of lookup ◌==◌
finish_snapshot_lem_example =
    finish_snapshot_lem c1 s1 ((c1, outbox) ∷ []) one_pending pending_entry outbox refl refl refl
      (record { is_open = refl; running = refl; room = omega arith })

abbrev start : State
start = record { net = (c1, outbox) ∷ []; manager = manager [] }

abbrev added : Manager
added = (add (pos 7) c1 s1 (every ∷ []) (manager [])).0

Reach-Inv_example : Inv (broadcast (λ c e. true) note ((c1, outbox) ∷ []) added).1
Reach-Inv_example =
    Reach-Inv {x = start}
      (next (next here (adds (pos 7) c1 s1 (every ∷ []))) (broadcasts (λ c e. true) note))
      (record { some_allowed = omega arith; distinct = tt; conns = tt })
