-- ===== src/Relay/Reader/Drains.antt =====
-- A page that fails while the rest of a snapshot is drained.
use congee.Prelude.{
  ◌+◌, Text, bytes, ==_refl, lookup, ℤ, List, [], ◌∷◌, none, some, failure, ◌≡◌, refl, ap, ◌∙◌,
  arith, inl, inr, Option-cases,
}
use congee.Nostr.Wire.{RelayMessage, closed, eose}
use congee.Relay.Outbox.{Outbox, Net, send}
use congee.Relay.Outbox.Queue.{HasRoom, push, push-HasRoom, send-HasRoom}
use congee.Relay.Subs.{SubEntry, Manager, subs_of, update_entry, remove, note_sub_eose, add32}
use congee.Relay.Subs.Open.{entry, remove-entry}
use congee.Relay.Fanout.{take_pending, flush, finish_snapshot}
use congee.Relay.Fanout.Reach.{State}
use congee.Relay.Query.{ReqQueryState, fetch_req_page}
use congee.Relay.Reader.{
  Round, send_to, finish_state, close_sub_on_query_error, end_snapshot, drain_remaining_pages,
  map_end,
}
use congee.Relay.Reader.Replies.{push-push}
use congee.Relay.Reader.Ending.{Ready}

update_entry-absent :
    (c s : Text) (f : SubEntry → SubEntry) (m : Manager)
    → entry c s m ≡ none
    → update_entry c s f m ≡ m
unfolding update_entry subs_of
update_entry-absent c s f m h = elim (Option-cases (lookup c m.subs)) [
  | inl e ↦ rw (e, update_entry) refl
  | inr (cmap, e) ↦ rw (e, update_entry, rw (e, subs_of) at h) refl
]

finish_state-absent : (c s : Text) (x : State) → entry c s x.manager ≡ none → finish_state c s x ≡ x
unfolding finish_state finish_snapshot take_pending flush
finish_state-absent c s x h = rw (h, finish_state, finish_snapshot, take_pending) refl

close_sub-sends :
    (c s : Text) (x : State)
    → close_sub_on_query_error c s x ≡ record {
      net = (send x.net c (closed s (bytes "internal error"))).0;
      manager = remove c s x.manager;
    }
unfolding close_sub_on_query_error send_to
close_sub-sends c s x = finish_state-absent c s _ (rw (remove-entry, ==_refl c, ==_refl s) refl)

end_snapshot-absent :
    (c s : Text) (x : State) (box : Outbox)
    → entry c s x.manager ≡ none
    → lookup c x.net ≡ some box
    → HasRoom 1 box
    → end_snapshot c s x ≡ record { net = (send x.net c (eose s)).0; manager = x.manager }
unfolding end_snapshot send_to note_sub_eose
end_snapshot-absent c s x box h p room =
    let (_, b) = send-HasRoom 0 x.net c (eose s) box p (HasRoom-one box room) in
    let same =
      update_entry-absent c s (λ e. record e { eose_sent = add32 e.eose_sent }) x.manager h in
    rw (b, end_snapshot, note_sub_eose, same)
      (finish_state-absent c s (record { net = (send x.net c (eose s)).0; manager = x.manager }) h)
  where
    HasRoom-one : (box : Outbox) → HasRoom 1 box → HasRoom (0 + 1) box
    HasRoom-one box h = record {
      is_open = h.is_open;
      running = h.running;
      room = omega (arith, h.room);
    }

-- Where the store fails on a page that is drained, from a connection with room: the subscription is
-- removed and the client is sent CLOSED, and then EOSE for the subscription that was just closed.
pub drain_remaining_pages-query_error :
    (r : Round) (rounds : List Round) (c s : Text) (page_size : ℤ) (st : ReqQueryState) (x : State)
    (message : Text) (e : SubEntry) (box : Outbox)
    → fetch_req_page r.store page_size st ≡ failure message
    → Ready c s 2 e box x
    → (y : State) × (map_end c s (drain_remaining_pages (r ∷ rounds) c s page_size st x) ≡ some y)
      × (lookup c y.net ≡ some (push box (closed s (bytes "internal error") ∷ eose s ∷ [])))
      × (entry c s y.manager ≡ none)
unfolding drain_remaining_pages
drain_remaining_pages-query_error r rounds c s page_size st x message e box q ready =
    let (a, _) = send-HasRoom 1 x.net c shut box ready.outbox two in
    let room = push-HasRoom 1 box shut two in
    let (b, _) = send-HasRoom 0 net c (eose s) (push box (shut ∷ [])) a (one room) in
    let gone : entry c s (remove c s x.manager) ≡ none =
      rw (remove-entry, ==_refl c, ==_refl s) refl in
    (
      record { net = (send net c (eose s)).0; manager = remove c s x.manager },
      rw (q, drain_remaining_pages, close_sub-sends c s x)
          (ap some (
            end_snapshot-absent c s (record { net = net; manager = remove c s x.manager })
              (push box (shut ∷ [])) gone a room)),
      b ∙ ap some (push-push box (shut ∷ []) (eose s ∷ [])),
      gone,
    )
  where
    shut : RelayMessage
    shut = closed s (bytes "internal error")

    net : Net
    net = (send x.net c shut).0

    two : HasRoom (1 + 1) box
    two = record {
      is_open = ready.room.is_open;
      running = ready.room.running;
      room = omega (arith, ready.room.room);
    }

    one : {b : Outbox} → HasRoom 1 b → HasRoom (0 + 1) b
    one h = record { is_open = h.is_open; running = h.running; room = omega (arith, h.room) }
