-- ===== src/Relay/Fanout/Delivery.antt =====
-- Who gets a broadcast event: nobody to whom it is not visible, and else every open subscription
-- that matches, once.
use mathlib.Core.List.{append-nil, append_assoc}
use congee.Prelude.{
  ℕ, ◌+◌, ◌≤◌, Text, ◌==◌, ==_iff, length, Map, Distinct, lookup, List, [], ◌∷◌, ◌++◌, Bool, true,
  false, not, ◌&&◌, none, some, ◌≡◌, refl, sym, ◌∙◌, inl, inr, arith, Bool-cases, subst,
  if◌then◌else◌,
}
use congee.Nostr.Event.{Event}
use congee.Nostr.Filter.{filters_match}
use congee.Nostr.Wire.{RelayMessage, event}
use congee.Relay.Outbox.{Outbox, Net}
use congee.Relay.Outbox.Queue.{HasRoom, push, send_other, send-HasRoom, push-HasRoom}
use congee.Relay.Subs.{SubEntry, Manager}
use congee.Relay.Fanout.{deliver, deliver_all, reachable, broadcast_conn, broadcast_loop, broadcast}

deliver_other :
    (c d s : Text) (ev : Event) (net : Net) (e : SubEntry)
    → (c == d) ≡ false
    → lookup d (deliver c s ev net e).0 ≡ lookup d net
unfolding deliver
deliver_other c d s ev net e ne = ground (arith, send_other net c d (event s ev) ne)

deliver_all_other :
    (c d : Text) (ev : Event) (net : Net) (cmap : Map SubEntry)
    → (c == d) ≡ false
    → lookup d (deliver_all c ev net cmap).0 ≡ lookup d net
unfolding deliver_all
deliver_all_other c d ev net [] ne = refl
deliver_all_other c d ev net ((s, e) ∷ cmap) ne =
    deliver_all_other c d ev (deliver c s ev net e).0 cmap ne ∙ deliver_other c d s ev net e ne

broadcast_conn_other :
    (senders : Map (Unit {0})) (visible : Text → Event → Bool) (c d : Text) (ev : Event) (net : Net)
    (cmap : Map SubEntry)
    → (c == d) ≡ false
    → lookup d (broadcast_conn senders visible ev net c cmap).0 ≡ lookup d net
unfolding broadcast_conn
broadcast_conn_other senders visible c d ev net cmap ne =
    ground (arith, deliver_all_other c d ev net cmap ne)

broadcast_conn_unreachable :
    (senders : Map (Unit {0})) (visible : Text → Event → Bool) (c d : Text) (ev : Event) (net : Net)
    (cmap : Map SubEntry)
    → reachable senders visible d ev ≡ false
    → (c == d) ≡ true
    → broadcast_conn senders visible ev net c cmap ≡ (net, cmap)
unfolding broadcast_conn
broadcast_conn_unreachable senders visible c d ev net cmap h e =
    rw (subst (λ x. reachable senders visible x ev ≡ false) (sym ((==_iff c d).0 e)) h)

-- The loop leaves alone a connection that has no sender or may not see the event.
broadcast_loop_unreachable :
    (senders : Map (Unit {0})) (visible : Text → Event → Bool) (d : Text) (ev : Event) (net : Net)
    (subs : Map (Map SubEntry))
    → reachable senders visible d ev ≡ false
    → (lookup d (broadcast_loop senders visible ev net subs).0 ≡ lookup d net)
      × (lookup d (broadcast_loop senders visible ev net subs).1 ≡ lookup d subs)
unfolding broadcast_loop lookup
broadcast_loop_unreachable senders visible d ev net [] h = (refl, refl)
broadcast_loop_unreachable senders visible d ev net ((c, cmap) ∷ subs) h =
    elim (Bool-cases (c == d)) [
      | inl e ↦
          let same = broadcast_conn_unreachable senders visible c d ev net cmap h e in
          rw (same, e) ((broadcast_loop_unreachable senders visible d ev net subs h).0, refl)
      | inr e ↦
          let next = (broadcast_conn senders visible ev net c cmap).0 in
          let (sent, kept) = broadcast_loop_unreachable senders visible d ev next subs h in
          rw e (sent ∙ broadcast_conn_other senders visible c d ev net cmap e, kept)
    ]

-- A broadcast leaves alone the outbox and the subscriptions of a connection that has no sender, or
-- to which the event is not visible.
pub broadcast_unreachable :
    (visible : Text → Event → Bool) (d : Text) (ev : Event) (net : Net) (m : Manager)
    → reachable m.senders visible d ev ≡ false
    → (lookup d (broadcast visible ev net m).0 ≡ lookup d net)
      × (lookup d (broadcast visible ev net m).1.subs ≡ lookup d m.subs)
unfolding broadcast
broadcast_unreachable visible d ev net m h =
    broadcast_loop_unreachable m.senders visible d ev net m.subs h

-- A subscription to which the event is due at once.
abbrev pub is_due : Event → SubEntry → Bool
is_due ev e = not e.closed && (filters_match e.filters ev && e.snapshot_done)

-- The messages of one broadcast to one connection.
abbrev pub due_messages : Event → Map SubEntry → List RelayMessage
due_messages ev [] = []
due_messages ev ((s, e) ∷ cmap) =
    let rest = due_messages ev cmap in if is_due ev e then event s ev ∷ rest else rest

HasRoom-le : (n k : ℕ) (x : Outbox) → k ≤ n → HasRoom n x → HasRoom k x
HasRoom-le n k x le h = record {
  is_open = h.is_open;
  running = h.running;
  room = omega (arith, h.room);
}

deliver_due :
    (n : ℕ) (c s : Text) (ev : Event) (net : Net) (e : SubEntry) (x : Outbox)
    → lookup c net ≡ some x
    → HasRoom (n + 1) x
    → (y : Outbox) × (lookup c (deliver c s ev net e).0 ≡ some y)
      × (y.queue ≡ (if is_due ev e then x.queue ++ event s ev ∷ [] else x.queue))
      × HasRoom n y
unfolding deliver
deliver_due n c s ev net e x p h = elim (Bool-cases (is_due ev e)) [
  | inl due ↦ (
    push x (event s ev ∷ []),
    ground (arith, send-HasRoom n net c (event s ev) x p h),
    rw due,
    push-HasRoom n x (event s ev) h,
  )
  | inr later ↦ (x, ground arith, rw later, HasRoom-le (n + 1) n x (omega arith) h)
]

deliver_all_due :
    (c : Text) (ev : Event) (net : Net) (cmap : Map SubEntry) (x : Outbox)
    → lookup c net ≡ some x
    → HasRoom (length cmap) x
    → (y : Outbox) × (lookup c (deliver_all c ev net cmap).0 ≡ some y)
      × (y.queue ≡ x.queue ++ due_messages ev cmap)
unfolding deliver_all
deliver_all_due c ev net [] x p h = (x, p, sym (append-nil x.queue))
deliver_all_due c ev net ((s, e) ∷ cmap) x p h =
    let (y, q, queue, room) =
      deliver_due (length cmap) c s ev net e x p
        (HasRoom-le (length ((s, e) ∷ cmap)) (length cmap + 1) x (omega arith) h) in
    let (z, r, rest) = deliver_all_due c ev (deliver c s ev net e).0 cmap y q room in
    (
      z,
      r,
      elim (Bool-cases (is_due ev e)) [
        | inl due ↦ rw due (rest ∙ rw (queue, due, append_assoc))
        | inr later ↦ rw later (rest ∙ rw (queue, later))
      ],
    )

broadcast_loop_absent :
    (senders : Map (Unit {0})) (visible : Text → Event → Bool) (d : Text) (ev : Event) (net : Net)
    (subs : Map (Map SubEntry))
    → lookup d subs ≡ none
    → lookup d (broadcast_loop senders visible ev net subs).0 ≡ lookup d net
unfolding broadcast_loop lookup
broadcast_loop_absent senders visible d ev net [] h = refl
broadcast_loop_absent senders visible d ev net ((c, cmap) ∷ subs) h = elim (Bool-cases (c == d)) [
  | inl e ↦ ground arith
  | inr e ↦
      broadcast_loop_absent senders visible d ev (broadcast_conn senders visible ev net c cmap).0
        subs (ground arith)
      ∙ broadcast_conn_other senders visible c d ev net cmap e
]

broadcast_conn-reachable :
    (senders : Map (Unit {0})) (visible : Text → Event → Bool) (c d : Text) (ev : Event) (net : Net)
    (cmap : Map SubEntry)
    → reachable senders visible d ev ≡ true
    → (c == d) ≡ true
    → broadcast_conn senders visible ev net c cmap ≡ deliver_all d ev net cmap
unfolding broadcast_conn
broadcast_conn-reachable senders visible c d ev net cmap r e =
    subst (λ k. broadcast_conn senders visible ev net k cmap ≡ deliver_all d ev net cmap)
      (sym ((==_iff c d).0 e)) (rw r)

broadcast_loop_due :
    (senders : Map (Unit {0})) (visible : Text → Event → Bool) (d : Text) (ev : Event) (net : Net)
    (subs : Map (Map SubEntry)) (cmap : Map SubEntry) (x : Outbox)
    → reachable senders visible d ev ≡ true
    → Distinct subs
    → lookup d subs ≡ some cmap
    → lookup d net ≡ some x
    → HasRoom (length cmap) x
    → (y : Outbox) × (lookup d (broadcast_loop senders visible ev net subs).0 ≡ some y)
      × (y.queue ≡ x.queue ++ due_messages ev cmap)
unfolding broadcast_loop lookup
broadcast_loop_due senders visible d ev net [] cmap x r u e p h = cc
broadcast_loop_due senders visible d ev net ((c, cm) ∷ subs) cmap x r u e p h =
    elim (Bool-cases (c == d)) [
      | inl same ↦
          let q : c ≡ d = (==_iff c d).0 same in
          let mine : cm ≡ cmap = ground arith in
          let (y, found, queue) = deliver_all_due d ev net cmap x p h in
          (
            y,
            broadcast_loop_absent senders visible d ev
                  (broadcast_conn senders visible ev net c cm).0 subs
                  (subst (λ k. lookup k subs ≡ none) q u.0)
                ∙ rw (broadcast_conn-reachable senders visible c d ev net cm r same, mine) found,
            queue,
          )
      | inr other ↦
          broadcast_loop_due senders visible d ev (broadcast_conn senders visible ev net c cm).0
            subs cmap x r u.1 (ground arith)
            (broadcast_conn_other senders visible c d ev net cm other ∙ p) h
    ]

-- To a connection that may see the event and whose outbox has room for one message to each of its
-- subscriptions, a broadcast sends the event once for every open subscription that matches and
-- whose snapshot is done, and nothing else.
pub broadcast_due :
    (visible : Text → Event → Bool) (d : Text) (ev : Event) (net : Net) (m : Manager)
    (cmap : Map SubEntry) (x : Outbox)
    → reachable m.senders visible d ev ≡ true
    → Distinct m.subs
    → lookup d m.subs ≡ some cmap
    → lookup d net ≡ some x
    → HasRoom (length cmap) x
    → (y : Outbox) × (lookup d (broadcast visible ev net m).0 ≡ some y)
      × (y.queue ≡ x.queue ++ due_messages ev cmap)
unfolding broadcast
broadcast_due visible d ev net m cmap x r u e p h =
    broadcast_loop_due m.senders visible d ev net m.subs cmap x r u e p h
