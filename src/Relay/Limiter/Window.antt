-- ===== src/Relay/Limiter/Window.antt =====
-- The sliding window over a whole run: its stamps are the accepted calls that still count, and no
-- stretch of time as long as the window holds more than `max` of them.
use mathlib.Core.List.{append-nil, append_assoc}
use congee.Prelude.{
  ℕ, ◌+◌, ◌≤◌, All, ◌∙◌, ltb, leb, length, length-append, keep, keep-append, List, [], ◌∷◌, ◌++◌,
  Bool, true, false, not, ◌&&◌, ◌≡◌, refl, ap, arith, if◌then◌else◌, Bool-cases, inl, inr,
}
use congee.Relay.Limiter.{SlidingEvents, before_cutoff, expire, allow, new_sliding_events}

-- The times of a run that were let through.
unfoldable pub accepts : List ℕ → SlidingEvents → List ℕ
unfolding allow
accepts [] s = []
accepts (now ∷ ts) s = let (s', ok) = allow now s in (if ok then now ∷ [] else []) ++ accepts ts s'

-- Times that never go back, from `lo` on.
abbrev pub Ascending : ℕ → List ℕ → Type 0
Ascending lo [] = Unit
Ascending lo (t ∷ ts) = (lo ≤ t) × Ascending t ts

abbrev pub between : ℕ → ℕ → ℕ → Bool
between lo hi a = leb lo a && leb a hi

abbrev alive : ℕ → ℕ → ℕ → Bool
alive window now a = not (before_cutoff window now a)

Ascending-lower : {lo lo' : ℕ} (ts : List ℕ) → lo' ≤ lo → Ascending lo ts → Ascending lo' ts
Ascending-lower [] h a = tt
Ascending-lower (t ∷ ts) h a = (omega arith, a.1)

-- From the first stamp that counts, all do.
keep-alive :
    (w now lo : ℕ) (ts : List ℕ) → now ≤ lo + w → Ascending lo ts → keep (alive w now) ts ≡ ts
keep-alive w now lo [] h a = refl
keep-alive w now lo (t ∷ ts) h a = ground (arith, keep-alive w now t ts)

-- The prefix that the loop drops is all that is too old.
expire-keep :
    (w now lo : ℕ) (ts : List ℕ) → Ascending lo ts → expire w now ts ≡ keep (alive w now) ts
unfolding expire
expire-keep w now lo [] a = refl
expire-keep w now lo (t ∷ ts) a = ground (arith, expire-keep w now t ts, keep-alive w now t ts)

keep_later :
    (w last now : ℕ) (ts : List ℕ)
    → last ≤ now
    → keep (alive w now) (keep (alive w last) ts) ≡ keep (alive w now) ts
keep_later w last now [] h = refl
keep_later w last now (t ∷ ts) h = ground (arith, keep_later w last now ts)

Ascending-keep : (p : ℕ → Bool) (lo : ℕ) (ts : List ℕ) → Ascending lo ts → Ascending lo (keep p ts)
Ascending-keep p lo [] a = tt
Ascending-keep p lo (t ∷ ts) a =
    ground (arith, Ascending-keep p t ts, Ascending-lower {lo = t} {lo' = lo} (keep p ts))

-- What is accepted in a stretch that reaches `now` still counts at `now`.
count_alive :
    (w now t : ℕ) (ts : List ℕ)
    → now ≤ t + w
    → length (keep (between t (t + w)) ts) ≤ length (keep (alive w now) ts)
count_alive w now t [] h = omega arith
count_alive w now t (a ∷ ts) h = ground (arith, count_alive w now t ts)

Ascending-snoc :
    (lo now : ℕ) (ts : List ℕ)
    → Ascending lo ts
    → All (λ a. a ≤ now) ts
    → lo ≤ now
    → Ascending lo (ts ++ now ∷ [])
Ascending-snoc lo now [] a h l = (l, tt)
Ascending-snoc lo now (t ∷ ts) a h l = (a.0, Ascending-snoc t now ts a.1 h.1 h.0)

All-le_mono :
    (last now : ℕ) (ts : List ℕ) → last ≤ now → All (λ a. a ≤ last) ts → All (λ a. a ≤ now) ts
All-le_mono last now [] l h = tt
All-le_mono last now (t ∷ ts) l h = (omega arith, All-le_mono last now ts l h.1)

All-snoc : (now : ℕ) (ts : List ℕ) → All (λ a. a ≤ now) ts → All (λ a. a ≤ now) (ts ++ now ∷ [])
All-snoc now [] h = (omega arith, tt)
All-snoc now (t ∷ ts) h = (h.0, All-snoc now ts h.1)

keep_within : (w now : ℕ) (ts : List ℕ) → keep (λ a. leb now (a + w)) ts ≡ keep (alive w now) ts
keep_within w now [] = refl
keep_within w now (t ∷ ts) = ground (arith, keep_within w now ts)

-- The limiter against the list of all that it has accepted so far.
pub record Tracks (s : SlidingEvents) (acc : List ℕ) (last : ℕ) : Type 0 where
  pub stamps : s.stamps ≡ keep (alive s.window last) acc
  pub ordered : Ascending 0 acc
  pub past : All (λ a. a ≤ last) acc
  pub bounded : (t : ℕ) → length (keep (between t (t + s.window)) acc) ≤ s.max

module _ (s : SlidingEvents) (acc : List ℕ) (last now : ℕ) (later : last ≤ now)
    (h : Tracks s acc last) where
  expire-stamps : expire s.window now s.stamps ≡ keep (alive s.window now) acc
  expire-stamps = rw h.stamps (
      expire-keep s.window now 0 _ (Ascending-keep _ 0 acc h.ordered)
      ∙ keep_later s.window last now acc later)

  live : List ℕ
  live = keep (alive s.window now) acc

  allow-live : allow now s ≡ (
      if leb s.max (length live)
      then (record s { stamps = live }, false)
      else (record s { stamps = live ++ now ∷ [] }, true))
  unfolding allow live
  allow-live = rw expire-stamps

  room-live :
      ltb (length (keep (λ a. leb now (a + s.window)) acc)) s.max ≡ not (leb s.max (length live))
  unfolding live
  room-live = rw (keep_within s.window now acc) (ground arith)

  refused : Tracks (record s { stamps = live }) acc now
  unfolding live
  refused = record {
    stamps = refl;
    ordered = h.ordered;
    past = All-le_mono last now acc later h.past;
    bounded = h.bounded;
  }

  granted :
      leb s.max (length live) ≡ false
      → Tracks (record s { stamps = live ++ now ∷ [] }) (acc ++ now ∷ []) now
  unfolding live
  granted room = record {
    stamps = rw keep-append (ground arith);
    ordered =
        Ascending-snoc 0 now acc h.ordered (All-le_mono last now acc later h.past) (omega arith);
    past = All-snoc now acc (All-le_mono last now acc later h.past);
    bounded = λ t. rw keep-append (
        ground (
          arith,
          length-append (keep (between t (t + s.window)) acc) (now ∷ []),
          length-append (keep (between t (t + s.window)) acc) [],
          count_alive s.window now t acc,
          h.bounded t,
        ));
  }

-- Every stretch of time as long as the window holds at most `max` of the calls accepted before and
-- in the run.
run-bounded :
    (ts : List ℕ) (s : SlidingEvents) (acc : List ℕ) (last : ℕ)
    → Ascending last ts
    → Tracks s acc last
    → (t : ℕ) → length (keep (between t (t + s.window)) (acc ++ accepts ts s)) ≤ s.max
unfolding accepts
run-bounded [] s acc last a h t = rw append-nil (h.bounded t)
run-bounded (now ∷ ts) s acc last a h t =
    elim (Bool-cases (leb s.max (length (live s acc last now a.0 h)))) [
      | inl full ↦
          rw (allow-live s acc last now a.0 h, full)
            (run-bounded ts (record s { stamps = live s acc last now a.0 h }) acc now a.1
              (refused s acc last now a.0 h) t)
      | inr room ↦
          rw (allow-live s acc last now a.0 h, room, ← append_assoc)
            (run-bounded ts (record s { stamps = live s acc last now a.0 h ++ now ∷ [] })
              (acc ++ now ∷ []) now a.1 (granted s acc last now a.0 h room) t)
    ]

-- From a new limiter, with a clock that never goes back, at most `max` calls are let through in
-- any stretch of time as long as the window, its ends included.
pub accepts_bounded :
    (window max : ℕ) (ts : List ℕ)
    → Ascending 0 ts
    → (t : ℕ)
    → length (keep (between t (t + window)) (accepts ts (new_sliding_events window max))) ≤ max
unfolding new_sliding_events
accepts_bounded window max ts a =
    run-bounded ts (record { window = window; max = max; stamps = [] }) [] 0 a
      (record { stamps = refl; ordered = tt; past = tt; bounded = λ t. omega arith })

-- A limiter that forgets nothing: a call passes if fewer than `max` of those that passed lie within
-- the window before it.
unfoldable pub ideal : ℕ → ℕ → List ℕ → List ℕ → List ℕ
ideal window max acc [] = []
ideal window max acc (now ∷ ts) =
    let ok = ltb (length (keep (λ a. leb now (a + window)) acc)) max in
    (if ok then now ∷ [] else []) ++ ideal window max (if ok then acc ++ now ∷ [] else acc) ts

run-ideal :
    (ts : List ℕ) (s : SlidingEvents) (acc : List ℕ) (last : ℕ)
    → Ascending last ts
    → Tracks s acc last
    → accepts ts s ≡ ideal s.window s.max acc ts
unfolding accepts ideal
run-ideal [] s acc last a h = refl
run-ideal (now ∷ ts) s acc last a h =
    elim (Bool-cases (leb s.max (length (live s acc last now a.0 h)))) [
      | inl full ↦
          rw (allow-live s acc last now a.0 h, room-live s acc last now a.0 h, full)
            (run-ideal ts (record s { stamps = live s acc last now a.0 h }) acc now a.1
              (refused s acc last now a.0 h))
      | inr room ↦
          rw (allow-live s acc last now a.0 h, room-live s acc last now a.0 h, room)
            (ap (◌∷◌ now) (
              run-ideal ts (record s { stamps = live s acc last now a.0 h ++ now ∷ [] })
                (acc ++ now ∷ []) now a.1 (granted s acc last now a.0 h room)))
    ]

-- With a clock that never goes back, the limiter lets through exactly what the one that forgets
-- nothing does: no call is refused but for `max` accepted ones within the window.
pub accepts-ideal :
    (window max : ℕ) (ts : List ℕ)
    → Ascending 0 ts
    → accepts ts (new_sliding_events window max) ≡ ideal window max [] ts
unfolding new_sliding_events
accepts-ideal window max ts a =
    run-ideal ts (record { window = window; max = max; stamps = [] }) [] 0 a
      (record { stamps = refl; ordered = tt; past = tt; bounded = λ t. omega arith })
