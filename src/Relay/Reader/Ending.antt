-- ===== src/Relay/Reader/Ending.antt =====
-- The end of a snapshot, and all of its pages when they are fetched one after another.
use congee.Prelude.{
  ℕ, ◌+◌, Text, List, [], ◌∷◌, ◌++◌, Bool, true, false, Option, none, some, Result, success,
  failure, ◌≡◌, refl, ap, sym, ◌∙◌, subst, arith, Bool-cases, inl, inr, lookup, is_some, ℤ, length,
  length-append, keep, map, if◌then◌else◌,
}
use mathlib.Core.Option
use mathlib.Core.List.{append-nil, append_assoc, map-append}
use congee.Nostr.Event.{Event}
use congee.Nostr.Wire.{RelayMessage, event, eose}
use congee.Relay.Outbox.{Outbox, is_sent}
use congee.Relay.Outbox.Queue.{HasRoom, push, send-HasRoom}
use congee.Relay.Subs.{SubEntry, note_sub_eose}
use congee.Relay.Subs.Open.{entry}
use congee.Relay.Fanout.Finish.{SameSnapshot, finish_snapshot_lem}
use congee.Relay.Fanout.Reach.{State}
use congee.Relay.Query.{ReqQueryState, fetch_req_page, Page}
use congee.Relay.Reader.{
  Round, send_to, deliver_page, finish_state, end_snapshot, drain_remaining_pages,
}
use congee.Relay.Reader.Replies.{
  Served, Served-trans, push-push, HasRoom-add, send_to-Served, note_eose-Served,
  deliver_page-Served,
}

-- A connection that is registered, with an open subscription, and room for `bs`.
pub record Ready (c s : Text) (n : ℕ) (e : SubEntry) (box : Outbox) (x : State) : Type 0 where
  pub found : entry c s x.manager ≡ some e
  pub sender : is_some (lookup c x.manager.senders) ≡ true
  pub outbox : lookup c x.net ≡ some box
  pub room : HasRoom n box

-- The subscription after its snapshot: the connection has been sent `bs`, and the entry has an empty
-- buffer and lets live events through.
pub record Ended (c s : Text) (bs : List RelayMessage) (e : SubEntry) (box : Outbox) (y : State)
    : Type 0 where
  pub outbox : lookup c y.net ≡ some (push box bs)
  pub entry_done :
      (f : SubEntry) × (entry c s y.manager ≡ some f)
      × (f.filters ≡ e.filters)
      × (f.closed ≡ e.closed)
      × (f.snapshot_done ≡ true)
      × (f.pending_live ≡ [])

-- What is served leaves the connection ready for the rest.
pub Served-Ready :
    (c s : Text) (bs : List RelayMessage) (x y : State) (n : ℕ) (e : SubEntry) (box : Outbox)
    → Served c s bs x y
    → Ready c s (length bs + n) e box x
    → (f : SubEntry) × SameSnapshot e f × Ready c s n f (push box bs) y
Served-Ready c s bs x y n e box h r =
    let (q, room) = h.queue n box r.outbox r.room in
    let (f, found, same) = h.kept e r.found in
    (
      f,
      same,
      record {
        found = found;
        sender = ap (λ m. is_some (lookup c m)) h.senders ∙ r.sender;
        outbox = q;
        room = room;
      },
    )

finish_state-Ended :
    (c s : Text) (x : State) (e : SubEntry) (box : Outbox)
    → Ready c s (length e.pending_live) e box x
    → Ended c s e.pending_live e box (finish_state c s x)
unfolding finish_state
finish_state-Ended c s x e box r =
    let (q, done) =
      finish_snapshot_lem c s x.net x.manager e box r.found r.sender r.outbox r.room in
    record { outbox = q; entry_done = done }

-- What came before the end.
pub Ended-after :
    (c s : Text) (bs cs : List RelayMessage) (e f : SubEntry) (box : Outbox) (y : State)
    → SameSnapshot e f
    → Ended c s cs f (push box bs) y
    → Ended c s (bs ++ cs) e box y
Ended-after c s bs cs e f box y same h =
    let (g, found, filters, shut, done, empty) = h.entry_done in
    record {
      outbox = h.outbox ∙ ap some (push-push box bs cs);
      entry_done = (g, found, filters ∙ same.filters, shut ∙ same.closed, done, empty);
    }

send_to-ok :
    (c s : Text) (b : RelayMessage) (n : ℕ) (x : State) (e : SubEntry) (box : Outbox)
    → Ready c s (n + 1) e box x
    → (send_to c b x).1 ≡ true
unfolding send_to
send_to-ok c s b n x e box r = ap is_sent (send-HasRoom n x.net c b box r.outbox r.room).1

-- The end of a snapshot sends EOSE and then what was buffered.
pub end_snapshot-Ended :
    (c s : Text) (x : State) (e : SubEntry) (box : Outbox)
    → Ready c s (length e.pending_live + 1) e box x
    → Ended c s (eose s ∷ e.pending_live) e box (end_snapshot c s x)
unfolding end_snapshot
end_snapshot-Ended c s x e box r =
    let (f, same, r') =
      Served-Ready c s (eose s ∷ []) x noted (length e.pending_live) e box
        (Served-trans c s (eose s ∷ []) [] x x' noted (send_to-Served c s (eose s) x)
          (note_eose-Served c s x'))
        (record {
          found = r.found;
          sender = r.sender;
          outbox = r.outbox;
          room = HasRoom-add (length e.pending_live + 1) _ box (omega arith) r.room;
        }) in
    let ended = finish_state-Ended c s noted f (push box (eose s ∷ [])) (record {
      found = r'.found;
      sender = r'.sender;
      outbox = r'.outbox;
      room =
          subst (λ l. HasRoom (length l) (push box (eose s ∷ []))) (sym same.pending_live) r'.room;
    }) in
    rw (send_to-ok c s (eose s) (length e.pending_live) x e box r) (
      Ended-after c s (eose s ∷ []) e.pending_live e f box _ same (
        subst (λ l. Ended c s l f (push box (eose s ∷ [])) (finish_state c s noted))
          same.pending_live ended))
  where
    x' : State
    x' = (send_to c (eose s) x).0

    noted : State
    noted = record x' { manager = note_sub_eose c s x'.manager }

-- The visible events of a run of pages, none where a page fails or there are more of them than
-- rounds.
unfoldable pub shown : List Round → Text → ℤ → ReqQueryState → Option (List Event)
shown [] c page_size st = none
shown (r ∷ rounds) c page_size st = elim (fetch_req_page r.store page_size st) [
  | failure e ↦ none
  | success p ↦
      let rest = shown rounds c page_size p.state in
      let evs = keep (r.visible c) p.events in
      if p.has_more then Option.map (λ more. evs ++ more) rest else some evs
]

Option-map-some :
    {A B : Type 0} (f : A → B) (o : Option A) (b : B)
    → Option.map f o ≡ some b
    → (a : A) × (o ≡ some a) × (f a ≡ b)
Option-map-some f none b h = cc
Option-map-some f (some a) b h = (a, refl, ground (arith, h))

pub split_shown :
    (has_more : Bool) (now_shown : List Event) (rest : Option (List Event)) (evs : List Event)
    → (if has_more then Option.map (λ more. now_shown ++ more) rest else some now_shown) ≡ some evs
    → (more : List Event) × ((if has_more then rest else some []) ≡ some more)
      × (now_shown ++ more ≡ evs)
split_shown true now_shown rest evs h = Option-map-some (λ more. now_shown ++ more) rest evs h
split_shown false now_shown rest evs h = ([], refl, append-nil now_shown ∙ ground (arith, h))

-- A page of a snapshot that shows `evs` in all, of which `more` come after it, from a connection that
-- is ready for all of it to one that is ready for the rest.
pub page-Ready :
    (visible : Event → Bool) (c s : Text) (page more evs : List Event) (x : State) (e : SubEntry)
    (box : Outbox)
    → keep visible page ++ more ≡ evs
    → Ready c s (length (map (event s) evs) + (length e.pending_live + 1)) e box x
    → (f : SubEntry) × SameSnapshot e f
      × Ready c s
          (length (map (event s) more) + (length f.pending_live + 1))
          f
          (push box (map (event s) (keep visible page)))
          (deliver_page visible c s page x)
page-Ready visible c s page more evs x e box all r =
    let (f, same, r') =
      Served-Ready c s (map (event s) (keep visible page)) x (deliver_page visible c s page x)
        (length (map (event s) more) + (length e.pending_live + 1)) e box
        (deliver_page-Served visible c s page x)
        (record {
          found = r.found;
          sender = r.sender;
          outbox = r.outbox;
          room =
              HasRoom-add _ _ box
                (omega (
                  arith,
                  ap (λ l. length (map (event s) l)) all,
                  ap length (map-append (event s) (keep visible page) more),
                  length-append (map (event s) (keep visible page)) (map (event s) more),
                ))
                r.room;
        }) in
    (
      f,
      same,
      subst
          (λ l.
            Ready c s (length (map (event s) more) + (length l + 1)) f
              (push box (map (event s) (keep visible page))) (deliver_page visible c s page x))
          (sym same.pending_live) r',
    )

-- What is sent for the page and what is sent for the rest, together.
pub page-Ended :
    (s c : Text) (now_shown more evs : List Event) (e f : SubEntry) (box : Outbox) (y : State)
    → now_shown ++ more ≡ evs
    → SameSnapshot e f
    → Ended c s
        (map (event s) more ++ eose s ∷ f.pending_live)
        f
        (push box (map (event s) now_shown))
        y
    → Ended c s (map (event s) evs ++ eose s ∷ e.pending_live) e box y
page-Ended s c now_shown more evs e f box y all same h =
    let tail =
      subst
        (λ l. Ended c s (map (event s) more ++ eose s ∷ l) f (push box (map (event s) now_shown)) y)
        same.pending_live h in
    subst (λ l. Ended c s l e box y)
      (sym (append_assoc (map (event s) now_shown) (map (event s) more) (eose s ∷ e.pending_live))
        ∙ ap (λ l. l ++ eose s ∷ e.pending_live)
            (sym (map-append (event s) now_shown more) ∙ ap (map (event s)) all))
      (Ended-after c s (map (event s) now_shown) (map (event s) more ++ eose s ∷ e.pending_live) e f
        box y same tail)

-- Draining sends the visible events of all pages, in their order.
pub drain-Served :
    (rounds : List Round) (c s : Text) (page_size : ℤ) (st : ReqQueryState) (x : State)
    (evs : List Event)
    → shown rounds c page_size st ≡ some evs
    → (y : State) × (drain_remaining_pages rounds c s page_size st x ≡ some y)
      × Served c s (map (event s) evs) x y
unfolding drain_remaining_pages shown
drain-Served [] c s page_size st x evs h = cc
drain-Served (r ∷ rounds) c s page_size st x evs h =
    turn (fetch_req_page r.store page_size st) refl
      (λ st' x' evs'. drain-Served rounds c s page_size st' x' evs')
  where
    turn :
        (q : Result Page)
        → fetch_req_page r.store page_size st ≡ q
        → ((st' : ReqQueryState) (x' : State) (evs' : List Event)
            → shown rounds c page_size st' ≡ some evs'
            → (y : State) × (drain_remaining_pages rounds c s page_size st' x' ≡ some y)
              × Served c s (map (event s) evs') x' y)
        → (y : State) × (drain_remaining_pages (r ∷ rounds) c s page_size st x ≡ some y)
          × Served c s (map (event s) evs) x y
    turn (failure e) q ih = absurd (ground (arith, rw (q, shown) at h))
    turn (success p) q ih =
        let k = rw (q, shown) at h in
        let here = deliver_page (r.visible c) c s p.events x in
        let page = deliver_page-Served (r.visible c) c s p.events x in
        elim (Bool-cases p.has_more) [
          | inr last ↦ (
            here,
            rw (q, drain_remaining_pages, last) refl,
            subst (λ l. Served c s (map (event s) l) x here) (ground (arith, rw last at k)) page,
          )
          | inl more ↦
              let (evs', a, b) =
                Option-map-some (λ more. keep (r.visible c) p.events ++ more)
                  (shown rounds c page_size p.state) evs (rw more at k) in
              let (y, d, tail) = ih p.state here evs' a in
              (
                y,
                rw (q, drain_remaining_pages, more) d,
                subst (λ l. Served c s l x y)
                    (sym (map-append (event s) (keep (r.visible c) p.events) evs')
                      ∙ ap (map (event s)) b)
                    (Served-trans c s _ _ x here y page tail),
              )
        ]
