-- ===== src/Relay/Fanout/Reach.antt =====
-- Every state of the manager that its operations can reach, in any order and from any goroutine.
-- A locked part of a method is one step; what other goroutines send moves the outboxes alone.
use congee.Prelude.{
  ◌≤◌, Text, length, length-append, All, All-lookup, Map, Distinct, lookup, ℤ, pos, ◌≤ℤ◌, List, [],
  ◌∷◌, Bool, true, false, none, some, ◌≡◌, refl, inl, inr, arith, Bool-cases, Option-cases,
}
use congee.Nostr.Event.{Event}
use congee.Nostr.Filter.{Filter}
use congee.Nostr.Wire.{RelayMessage, event}
use congee.Relay.Outbox.{Net, send, is_sent}
use congee.Relay.Subs.{
  SubEntry, Manager, pending_live_cap, subs_of, register_sender, unregister_sender, add,
  remove_mark, remove_delete, update_entry, note_sub_initial_delivery, note_sub_eose,
}
use congee.Relay.Subs.Invariant.{
  EntryInv, ConnInv, Inv, add-Inv, update_entry-Inv, remove_mark-Inv, remove_delete-Inv,
  register_sender-Inv, unregister_sender-Inv,
}
use congee.Relay.Fanout.{
  note_broadcast, deliver, deliver_all, reachable, broadcast_conn, broadcast_loop, broadcast,
  take_pending,
}

pub record State : Type 0 where
  pub net : Net
  pub manager : Manager

abbrev pub with_manager : State → Manager → State
with_manager x m = record x { manager = m }

pub data Step (x : State) : State → Type 0 where
  registers : (c : Text) → Step x (with_manager x (register_sender c x.manager))
  unregisters : (c : Text) → Step x (with_manager x (unregister_sender c x.manager).0)
  adds :
      (now : ℤ) (c s : Text) (fs : List Filter)
      → Step x (with_manager x (add now c s fs x.manager).0)
  marks : (c s : Text) → Step x (with_manager x (remove_mark c s x.manager))
  deletes : (c s : Text) → Step x (with_manager x (remove_delete c s x.manager))
  broadcasts :
      (visible : Text → Event → Bool) (ev : Event)
      → Step x (record {
        net = (broadcast visible ev x.net x.manager).0;
        manager = (broadcast visible ev x.net x.manager).1;
      })
  takes : (c s : Text) → Step x (with_manager x (take_pending c s x.manager).0)
  flushes :
      (c s : Text) (b : RelayMessage)
      → Step x (record {
        net = (send x.net c b).0;
        manager = update_entry c s (note_broadcast (is_sent (send x.net c b).1)) x.manager;
      })
  notes_initial :
      (c s : Text) (sent : Bool)
      → Step x (with_manager x (note_sub_initial_delivery c s sent x.manager))
  notes_eose : (c s : Text) → Step x (with_manager x (note_sub_eose c s x.manager))
  others : (net : Net) → Step x (record x { net = net })

pub data Reach (x : State) : State → Type 0 where
  here : Reach x x
  next : {y z : State} → Reach x y → Step y z → Reach x z

-- Runs one after another.
pub Reach-trans : {x y z : State} → Reach x y → Reach y z → Reach x z
Reach-trans r here = r
Reach-trans r (next q st) = next (Reach-trans r q) st

deliver-EntryInv :
    (max_len max_filters : ℤ) (c s : Text) (ev : Event) (net : Net) (e : SubEntry)
    → EntryInv max_len max_filters (s, e)
    → EntryInv max_len max_filters (s, (deliver c s ev net e).1)
unfolding deliver
deliver-EntryInv max_len max_filters c s ev net e h = record {
  id_short = h.id_short;
  few_filters = ground (arith, h.few_filters);
  buffer_bounded = ground (arith, h.buffer_bounded, length-append e.pending_live (event s ev ∷ []));
  flushed = λ d. ground (arith, h.flushed);
}

deliver_all-entries :
    (max_len max_filters : ℤ) (c : Text) (ev : Event) (net : Net) (cmap : Map SubEntry)
    → All (EntryInv max_len max_filters) cmap
    → All (EntryInv max_len max_filters) (deliver_all c ev net cmap).1
      × (length (deliver_all c ev net cmap).1 ≡ length cmap)
unfolding deliver_all
deliver_all-entries max_len max_filters c ev net [] h = (tt, refl)
deliver_all-entries max_len max_filters c ev net ((s, e) ∷ cmap) h =
    let (rest, len) =
      deliver_all-entries max_len max_filters c ev (deliver c s ev net e).0 cmap h.1 in
    ((deliver-EntryInv max_len max_filters c s ev net e h.0, rest), omega (arith, len))

broadcast_conn-ConnInv :
    (max_subs max_len max_filters : ℤ) (senders : Map (Unit {0})) (visible : Text → Event → Bool)
    (ev : Event) (net : Net) (c : Text) (cmap : Map SubEntry)
    → ConnInv max_subs max_len max_filters (c, cmap)
    → ConnInv max_subs max_len max_filters (c, (broadcast_conn senders visible ev net c cmap).1)
unfolding broadcast_conn
broadcast_conn-ConnInv max_subs max_len max_filters senders visible ev net c cmap h =
    elim (Bool-cases (reachable senders visible c ev)) [
      | inl yes_reachable ↦
          let (entries, len) = deliver_all-entries max_len max_filters c ev net cmap h.entries in
          rw yes_reachable (record { few = omega (arith, len, h.few); entries = entries })
      | inr unreachable ↦ rw unreachable h
    ]

-- A broadcast keeps the connections of the map.
broadcast_loop-absent :
    (senders : Map (Unit {0})) (visible : Text → Event → Bool) (ev : Event) (net : Net)
    (subs : Map (Map SubEntry)) (d : Text)
    → lookup d subs ≡ none
    → lookup d (broadcast_loop senders visible ev net subs).1 ≡ none
unfolding broadcast_loop lookup
broadcast_loop-absent senders visible ev net [] d h = refl
broadcast_loop-absent senders visible ev net ((c, cmap) ∷ subs) d h = ground (
  arith,
  broadcast_loop-absent senders visible ev (broadcast_conn senders visible ev net c cmap).0 subs d,
)

broadcast_loop-Inv :
    (max_subs max_len max_filters : ℤ) (senders : Map (Unit {0})) (visible : Text → Event → Bool)
    (ev : Event) (net : Net) (subs : Map (Map SubEntry))
    → Distinct subs
    → All (ConnInv max_subs max_len max_filters) subs
    → Distinct (broadcast_loop senders visible ev net subs).1
      × All (ConnInv max_subs max_len max_filters) (broadcast_loop senders visible ev net subs).1
unfolding broadcast_loop
broadcast_loop-Inv max_subs max_len max_filters senders visible ev net [] d h = (tt, tt)
broadcast_loop-Inv max_subs max_len max_filters senders visible ev net ((c, cmap) ∷ subs) d h =
    let net' = (broadcast_conn senders visible ev net c cmap).0 in
    let (distinct, conns) =
      broadcast_loop-Inv max_subs max_len max_filters senders visible ev net' subs d.1 h.1 in
    (
      (broadcast_loop-absent senders visible ev net' subs c d.0, distinct),
      (
        broadcast_conn-ConnInv max_subs max_len max_filters senders visible ev net c cmap h.0,
        conns,
      ),
    )

broadcast-Inv :
    (visible : Text → Event → Bool) (ev : Event) (net : Net) (m : Manager)
    → Inv m
    → Inv (broadcast visible ev net m).1
unfolding broadcast
broadcast-Inv visible ev net m h =
    let (distinct, conns) =
      broadcast_loop-Inv m.max_subs_per_conn m.max_sub_id_len m.max_filters m.senders visible ev net
        m.subs h.distinct h.conns in
    record { some_allowed = h.some_allowed; distinct = distinct; conns = conns }

take_pending-Inv : (c s : Text) (m : Manager) → Inv m → Inv (take_pending c s m).0
unfolding take_pending
take_pending-Inv c s m h = elim (Option-cases (lookup s (subs_of c m))) [
  | inl e ↦ rw (e, take_pending) h
  | inr (x, e) ↦
      rw (e, take_pending)
        (update_entry-Inv c s _ m
          (λ e k. record {
            id_short = k.id_short;
            few_filters = k.few_filters;
            buffer_bounded = omega arith;
            flushed = λ _. refl;
          })
          h)
]

-- A change that is only to the counters.
counters-Inv :
    (c s : Text) (f : SubEntry → SubEntry) (m : Manager)
    → ((e : SubEntry)
        → (f e ≡ record e {
          initial_sent = (f e).initial_sent;
          initial_dropped = (f e).initial_dropped;
          broadcast_ok = (f e).broadcast_ok;
          broadcast_drop = (f e).broadcast_drop;
          eose_sent = (f e).eose_sent;
        }))
    → Inv m
    → Inv (update_entry c s f m)
counters-Inv c s f m same = update_entry-Inv c s f m λ e k. record {
  id_short = k.id_short;
  few_filters = ground (arith, k.few_filters, same e);
  buffer_bounded = ground (arith, k.buffer_bounded, same e);
  flushed = ground (arith, k.flushed, same e);
}

note_broadcast-counters :
    (ok : Bool) (c s : Text) (m : Manager) → Inv m → Inv (update_entry c s (note_broadcast ok) m)
note_broadcast-counters true c s m = counters-Inv c s _ m (λ e. refl)
note_broadcast-counters false c s m = counters-Inv c s _ m (λ e. refl)

note_initial-Inv :
    (ok : Bool) (c s : Text) (m : Manager) → Inv m → Inv (note_sub_initial_delivery c s ok m)
unfolding note_sub_initial_delivery
note_initial-Inv true c s m = counters-Inv c s _ m (λ e. refl)
note_initial-Inv false c s m = counters-Inv c s _ m (λ e. refl)

-- Every step keeps the limits.
pub Step-Inv : {x y : State} → Step x y → Inv x.manager → Inv y.manager
unfolding note_sub_eose
Step-Inv {x} (registers c) h = register_sender-Inv c x.manager h
Step-Inv {x} (unregisters c) h = unregister_sender-Inv c x.manager h
Step-Inv {x} (adds now c s fs) h = add-Inv now c s fs x.manager h
Step-Inv {x} (marks c s) h = remove_mark-Inv c s x.manager h
Step-Inv {x} (deletes c s) h = remove_delete-Inv c s x.manager h
Step-Inv {x} (broadcasts visible ev) h = broadcast-Inv visible ev x.net x.manager h
Step-Inv {x} (takes c s) h = take_pending-Inv c s x.manager h
Step-Inv {x} (flushes c s b) h = note_broadcast-counters _ c s x.manager h
Step-Inv {x} (notes_initial c s ok) h = note_initial-Inv ok c s x.manager h
Step-Inv {x} (notes_eose c s) h = counters-Inv c s _ x.manager (λ e. refl) h
Step-Inv {x} (others net) h = h

-- In every state that the operations reach, in any order, no connection has more subscriptions than
-- the limit, no subscription id or filter list is longer than its limit, and no buffer of live
-- events is longer than 256, or kept after the snapshot is done.
pub Reach-Inv : {x y : State} → Reach x y → Inv x.manager → Inv y.manager
Reach-Inv here h = h
Reach-Inv (next r st) h = Step-Inv st (Reach-Inv r h)

-- From a state within the limits, every reachable state has them for each subscription: the number
-- of its connection, its id, its filters and its buffer.
pub Reach-limits :
    {x y : State} (c s : Text) (cmap : Map SubEntry) (e : SubEntry)
    → Inv x.manager
    → Reach x y
    → lookup c y.manager.subs ≡ some cmap
    → lookup s cmap ≡ some e
    → (pos (length cmap) ≤ℤ y.manager.max_subs_per_conn)
      × (pos (length s) ≤ℤ y.manager.max_sub_id_len)
      × (pos (length e.filters) ≤ℤ y.manager.max_filters)
      × (length e.pending_live ≤ pending_live_cap)
Reach-limits {y = y} c s cmap e h r p q =
    let k = All-lookup _ c y.manager.subs p (Reach-Inv r h).conns in
    let i = All-lookup _ s cmap q k.entries in (k.few, i.id_short, i.few_filters, i.buffer_bounded)
