-- ===== src/Relay/Fanout/Buffer.antt =====
-- The buffer of live events during a snapshot: what it holds, over a run of broadcasts.
use mathlib.Core.List.{append-nil, append_assoc}
use congee.Prelude.{
  ℕ, zero, suc, ◌+◌, Text, ltb, length, length-append, keep, take, map, ℤ, List, [], ◌∷◌, ◌++◌,
  true, false, ◌||◌, ◌≡◌, refl, sym, ◌∙◌, inl, inr, arith, Bool-cases,
}
use congee.Nostr.Event.{Event}
use congee.Nostr.Filter.{Filter, filters_match}
use congee.Nostr.Wire.{RelayMessage, event}
use congee.Relay.Outbox.{Net}
use congee.Relay.Subs.{SubEntry, new_entry, pending_live_cap}
use congee.Relay.Fanout.{deliver}

-- A run of broadcasts, seen by one subscription.
unfoldable pub deliver_run : Text → Text → List Event → Net → SubEntry → Net × SubEntry
unfolding deliver
deliver_run c s [] net e = (net, e)
deliver_run c s (ev ∷ evs) net e =
    let (net', e') = deliver c s ev net e in deliver_run c s evs net' e'

-- The messages of the events that match.
abbrev pub matching : Text → List Filter → List Event → List RelayMessage
matching s fs evs = map (event s) (keep (filters_match fs) evs)

-- An entry whose snapshot runs, with `room` left in its buffer.
record Snapshotting (fs : List Filter) (room : ℕ) (e : SubEntry) : Type 0 where
  filters : e.filters ≡ fs
  running : e.snapshot_done ≡ false
  open_entry : e.closed ≡ false
  room_left : length e.pending_live + room ≡ pending_live_cap

-- What a run of broadcasts leaves of it.
record Buffered (s : Text) (fs : List Filter) (room : ℕ) (evs : List Event) (net : Net)
    (e : SubEntry) (r : Net × SubEntry) : Type 0 where
  pub unsent : r.0 ≡ net
  pub still_running : r.1.snapshot_done ≡ false
  pub pending : r.1.pending_live ≡ e.pending_live ++ take room (matching s fs evs)
  pub overflowed : r.1.overflow ≡ (e.overflow || ltb room (length (matching s fs evs)))

module _ (c s : Text) (fs : List Filter) (room : ℕ) (ev : Event) (net : Net) (e : SubEntry) where
  deliver_miss :
      Snapshotting fs room e → filters_match fs ev ≡ false → deliver c s ev net e ≡ (net, e)
  unfolding deliver
  deliver_miss h miss = rw (h.open_entry, h.filters, miss)

  deliver_full :
      Snapshotting fs 0 e
      → filters_match fs ev ≡ true
      → deliver c s ev net e ≡ (net, record e { overflow = true })
  unfolding deliver
  deliver_full h hit = rw (h.open_entry, h.filters, hit, h.running) (ground (arith, h.room_left))

  deliver_room :
      Snapshotting fs (suc room) e
      → filters_match fs ev ≡ true
      → deliver c s ev net e ≡ (net, record e { pending_live = e.pending_live ++ event s ev ∷ [] })
  unfolding deliver
  deliver_room h hit = rw (h.open_entry, h.filters, hit, h.running) (ground (arith, h.room_left))

skip :
    (c s : Text) (fs : List Filter) (room : ℕ) (ev : Event) (evs : List Event) (net : Net)
    (e : SubEntry)
    → {r : Net × SubEntry} → filters_match fs ev ≡ false
    → Buffered s fs room evs net e r
    → Buffered s fs room (ev ∷ evs) net e r
skip c s fs room ev evs net e miss b = record {
  unsent = b.unsent;
  still_running = b.still_running;
  pending = rw miss b.pending;
  overflowed = rw miss b.overflowed;
}

deliver_run-Buffered :
    (c s : Text) (fs : List Filter) (room : ℕ) (evs : List Event) (net : Net) (e : SubEntry)
    → Snapshotting fs room e
    → Buffered s fs room evs net e (deliver_run c s evs net e)
unfolding deliver_run
deliver_run-Buffered c s fs zero [] net e h = record {
  unsent = refl;
  still_running = h.running;
  pending = sym (append-nil _);
  overflowed = ground arith;
}
deliver_run-Buffered c s fs (suc room) [] net e h = record {
  unsent = refl;
  still_running = h.running;
  pending = sym (append-nil _);
  overflowed = ground arith;
}
deliver_run-Buffered c s fs zero (ev ∷ evs) net e h = elim (Bool-cases (filters_match fs ev)) [
  | inl hit ↦
      let r =
        deliver_run-Buffered c s fs zero evs net (record e { overflow = true })
          (record {
            filters = h.filters;
            running = h.running;
            open_entry = h.open_entry;
            room_left = h.room_left;
          }) in
      rw (deliver_full c s fs zero ev net e h hit) (record {
        unsent = r.unsent;
        still_running = r.still_running;
        pending = r.pending;
        overflowed = rw hit (ground (arith, r.overflowed));
      })
  | inr miss ↦
      rw (deliver_miss c s fs zero ev net e h miss)
        (skip c s fs zero ev evs net e miss (deliver_run-Buffered c s fs zero evs net e h))
]
deliver_run-Buffered c s fs (suc room) (ev ∷ evs) net e h =
    elim (Bool-cases (filters_match fs ev)) [
      | inl hit ↦
          let e' = record e { pending_live = e.pending_live ++ event s ev ∷ [] } in
          let r = deliver_run-Buffered c s fs room evs net e' (record {
            filters = h.filters;
            running = h.running;
            open_entry = h.open_entry;
            room_left = omega (arith, length-append e.pending_live (event s ev ∷ []), h.room_left);
          }) in
          rw (deliver_room c s fs room ev net e h hit) (record {
            unsent = r.unsent;
            still_running = r.still_running;
            pending = rw hit (r.pending ∙ append_assoc e.pending_live (event s ev ∷ []) _);
            overflowed = rw hit (ground (arith, r.overflowed));
          })
      | inr miss ↦ rw (deliver_miss c s fs (suc room) ev net e h miss) (
          skip c s fs (suc room) ev evs net e miss
            (deliver_run-Buffered c s fs (suc room) evs net e h))
    ]

-- A new subscription keeps, in order, the first 256 matching events that are broadcast while its
-- snapshot runs; it sends none of them, and notes an overflow exactly when there are more.
pub deliver_run-new_entry :
    (c s : Text) (fs : List Filter) (now : ℤ) (evs : List Event) (net : Net)
    → let (net', e) = deliver_run c s evs net (new_entry fs now) in
      (net' ≡ net)
      × (e.snapshot_done ≡ false)
      × (e.pending_live ≡ take pending_live_cap (matching s fs evs))
      × (e.overflow ≡ ltb pending_live_cap (length (matching s fs evs)))
deliver_run-new_entry c s fs now evs net =
    let r =
      deliver_run-Buffered c s fs pending_live_cap evs net (new_entry fs now)
        (record { filters = refl; running = refl; open_entry = refl; room_left = omega arith }) in
    (r.unsent, r.still_running, r.pending, r.overflowed)
