-- ===== src/Relay/Reader/Replies.antt =====
-- What a connection is sent for a snapshot, and what is left of its subscription.
use mathlib.Core.List.{append-nil, append_assoc}
use congee.Prelude.{
  ℕ, ◌+◌, Text, ==_refl, List, [], ◌∷◌, ◌++◌, Bool, true, false, some, ◌≡◌, refl, ap, sym, ◌∙◌,
  subst, arith, Bool-cases, inl, inr, lookup, length, length-append, keep, map,
}
use congee.Nostr.Event.{Event}
use congee.Nostr.Wire.{RelayMessage, event}
use congee.Relay.Outbox.{Outbox}
use congee.Relay.Outbox.Queue.{HasRoom, push, push-HasRoom, send-HasRoom}
use congee.Relay.Subs.{SubEntry, Manager, update_entry, note_sub_initial_delivery, note_sub_eose}
use congee.Relay.Subs.Open.{entry, update_entry-entry}
use congee.Relay.Fanout.Finish.{SameSnapshot}
use congee.Relay.Fanout.Reach.{State}
use congee.Relay.Reader.{send_to, deliver_page}

SameSnapshot-trans : {e f g : SubEntry} → SameSnapshot e f → SameSnapshot f g → SameSnapshot e g
SameSnapshot-trans h k = record {
  filters = k.filters ∙ h.filters;
  closed = k.closed ∙ h.closed;
  opened_unix = k.opened_unix ∙ h.opened_unix;
  snapshot_done = k.snapshot_done ∙ h.snapshot_done;
  pending_live = k.pending_live ∙ h.pending_live;
}

-- From `x` to `y` a connection with room is sent `bs`, its subscription keeps its filters and its
-- buffer, and no sender comes or goes.
pub record Served (c s : Text) (bs : List RelayMessage) (x y : State) : Type 0 where
  pub queue :
      (n : ℕ) (box : Outbox)
      → lookup c x.net ≡ some box
      → HasRoom (length bs + n) box
      → (lookup c y.net ≡ some (push box bs)) × HasRoom n (push box bs)
  pub kept :
      (e : SubEntry)
      → entry c s x.manager ≡ some e
      → (f : SubEntry) × (entry c s y.manager ≡ some f) × SameSnapshot e f
  pub senders : y.manager.senders ≡ x.manager.senders

pub push-push :
    (box : Outbox) (bs cs : List RelayMessage) → push (push box bs) cs ≡ push box (bs ++ cs)
push-push box bs cs = ap (λ l. record box { queue = l }) (append_assoc box.queue bs cs)

pub HasRoom-add : (k n : ℕ) (box : Outbox) → k ≡ n → HasRoom k box → HasRoom n box
HasRoom-add k n box e h = subst (λ j. HasRoom j box) e h

pub Served-trans :
    (c s : Text) (bs cs : List RelayMessage) (x y z : State)
    → Served c s bs x y
    → Served c s cs y z
    → Served c s (bs ++ cs) x z
Served-trans c s bs cs x y z h k = record {
  queue = λ n box p room.
      let (q, r) =
        h.queue (length cs + n) box p
          (HasRoom-add _ _ box (omega (arith, length-append bs cs)) room) in
      subst (λ o. (lookup c z.net ≡ some o) × HasRoom n o) (push-push box bs cs)
        (k.queue n (push box bs) q r);
  kept = λ e p.
      let (f, q, same) = h.kept e p in
      let (g, r, same') = k.kept f q in (g, r, SameSnapshot-trans same same');
  senders = k.senders ∙ h.senders;
}

same_SameSnapshot : (e : SubEntry) → SameSnapshot e e
same_SameSnapshot e = record {
  filters = refl;
  closed = refl;
  opened_unix = refl;
  snapshot_done = refl;
  pending_live = refl;
}

pub here-Served : (c s : Text) (x : State) → Served c s [] x x
here-Served c s x = record {
  queue = λ n box p room.
      let h = HasRoom-add (length {A = RelayMessage} [] + n) n box (omega arith) room in
      subst (λ o. (lookup c x.net ≡ some o) × HasRoom n o)
        (ap (λ l. record box { queue = l }) (sym (append-nil box.queue))) (p, h);
  kept = λ e p. (e, p, same_SameSnapshot e);
  senders = refl;
}

pub send_to-Served :
    (c s : Text) (b : RelayMessage) (x : State) → Served c s (b ∷ []) x (send_to c b x).0
unfolding send_to
send_to-Served c s b x = record {
  queue = λ n box p room.
      let h = HasRoom-add (length (b ∷ []) + n) (n + 1) box (omega arith) room in
      ((send-HasRoom n x.net c b box p h).0, push-HasRoom n box b h);
  kept = λ e p. (e, p, same_SameSnapshot e);
  senders = refl;
}

update_entry-senders :
    (c s : Text) (f : SubEntry → SubEntry) (m : Manager)
    → (update_entry c s f m).senders ≡ m.senders
unfolding update_entry
update_entry-senders c s f m = ground arith

-- A change that is only to the counters of the subscription sends nothing.
pub counters-Served :
    (c s : Text) (f : SubEntry → SubEntry) (x : State)
    → ((e : SubEntry) → SameSnapshot e (f e))
    → Served c s [] x (record x { manager = update_entry c s f x.manager })
counters-Served c s f x same = record {
  queue = (here-Served c s x).queue;
  kept = λ e p. (f e, rw (update_entry-entry, ==_refl c, ==_refl s, p) refl, same e);
  senders = update_entry-senders c s f x.manager;
}

note_initial-Served :
    (ok : Bool) (c s : Text) (x : State)
    → Served c s [] x (record x { manager = note_sub_initial_delivery c s ok x.manager })
unfolding note_sub_initial_delivery
note_initial-Served true c s x = counters-Served c s _ x λ e. record {
  filters = refl;
  closed = refl;
  opened_unix = refl;
  snapshot_done = refl;
  pending_live = refl;
}
note_initial-Served false c s x = counters-Served c s _ x λ e. record {
  filters = refl;
  closed = refl;
  opened_unix = refl;
  snapshot_done = refl;
  pending_live = refl;
}

pub note_eose-Served :
    (c s : Text) (x : State) → Served c s [] x (record x { manager = note_sub_eose c s x.manager })
unfolding note_sub_eose
note_eose-Served c s x = counters-Served c s _ x λ e. record {
  filters = refl;
  closed = refl;
  opened_unix = refl;
  snapshot_done = refl;
  pending_live = refl;
}

-- A page sends its visible events, in order.
pub deliver_page-Served :
    (visible : Event → Bool) (c s : Text) (evs : List Event) (x : State)
    → Served c s (map (event s) (keep visible evs)) x (deliver_page visible c s evs x)
unfolding deliver_page
deliver_page-Served visible c s [] x = here-Served c s x
deliver_page-Served visible c s (ev ∷ evs) x = elim (Bool-cases (visible ev)) [
  | inl seen ↦
      let sent = send_to-Served c s (event s ev) x in
      let noted =
        Served-trans c s (event s ev ∷ []) [] x _ _ sent
          (note_initial-Served (send_to c (event s ev) x).1 c s (send_to c (event s ev) x).0) in
      rw seen (
        Served-trans c s (event s ev ∷ []) (map (event s) (keep visible evs)) x _ _ noted
          (deliver_page-Served visible c s evs _))
  | inr hidden ↦ rw hidden (deliver_page-Served visible c s evs x)
]
