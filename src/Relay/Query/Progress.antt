-- ===== src/Relay/Query/Progress.antt =====
-- The pages of a REQ come to an end.
use congee.Prelude.{
  ℕ, zero, suc, wrap64, ap, ◌∙◌, subst, ◌+◌, ◌^◌, ◌≤◌, ◌<◌, Text, Map, ℤ, pos, negsuc, ◌≤ℤ◌, ◌-ℤ◌,
  sub64, wrap64_of_IsInt64, IsInt64, leb_ℤ, is_empty, List, [], ◌∷◌, Bool, true, false, not, ◌&&◌,
  any_of, Option, none, some, success, >>=-success, ◌≡◌, refl, arith, inl, inr, Bool-cases,
  if◌then◌else◌,
}
use congee.Nostr.Event.{Event}
use congee.Nostr.Filter.{Filter}
use congee.Storage.{EventStore}
use congee.Relay.Query.{
  FilterCursor, ReqQueryState, Page, collect, page_limit, page_query, advance, last_created_at,
  fetch_cursors, fetch_bases, fetch_req_all, fetch_req_page, run_searches, merged,
}

-- A store whose answers end with an event of a time between 0 and `hi`, and not after the `until` of
-- the query.
pub record Dated (hi : ℕ) (store : EventStore) : Type 0 where
  pub last :
      (f : Filter) (evs : List Event) (t : ℤ)
      → store.query_events f ≡ success evs
      → last_created_at evs ≡ some t
      → (k : ℕ) × (t ≡ pos k) × (k ≤ hi) × ((u : ℤ) → f.until ≡ some u → t ≤ℤ u)

-- The times that a cursor can still be sent to, and two more where it has no bound.
unfoldable pub times_left : ℕ → Option ℤ → ℕ
times_left hi none = hi + 2
times_left hi (some (pos u)) = u + 1
times_left hi (some (negsuc u)) = 0

unfoldable pub pages_left : ℕ → FilterCursor → ℕ
unfolding times_left
pages_left hi fc = if fc.exhausted then 0 else times_left hi fc.until + 1

unfoldable pub all_left : ℕ → List FilterCursor → ℕ
unfolding pages_left
all_left hi [] = 0
all_left hi (fc ∷ fcs) = pages_left hi fc + all_left hi fcs

pred : (n : ℕ) → (pos (suc n) -ℤ pos 1) ≡ pos n
unfolding ◌-ℤ◌
pred n = ground arith

abbrev times_left_or : ℕ → ℤ → ℕ
times_left_or hi u = times_left hi (some u)

times_left-sub64 :
    (hi k : ℕ) → k ≤ hi → hi < 2 ^ 63 → times_left hi (some (sub64 (pos k) (pos 1))) ≡ k
unfolding times_left sub64
times_left-sub64 hi zero h small = refl
times_left-sub64 hi (suc n) h small =
    let fits : IsInt64 (pos n) = record { below = omega (arith, h, small); above = omega arith } in
    ap (times_left_or hi) (ap wrap64 (pred n) ∙ wrap64_of_IsInt64 (pos n) fits) ∙ omega arith

-- A cursor that goes on has fewer times left.
next_until-times :
    (hi k : ℕ) (old : Option ℤ)
    → k ≤ hi
    → ((u : ℤ) → old ≡ some u → pos k ≤ℤ u)
    → k + 1 ≤ times_left hi old
unfolding times_left
next_until-times hi k none h below = omega (arith, h)
next_until-times hi k (some (pos u)) h below = ground (arith, below (pos u) refl)
next_until-times hi k (some (negsuc u)) h below = ground (arith, below (negsuc u) refl)

last_some : (ev : Event) (evs : List Event) → (t : ℤ) × (last_created_at (ev ∷ evs) ≡ some t)
last_some ev [] = (ev.created_at, refl)
last_some ev (e ∷ evs) = last_some e evs

pages_left-running :
    (hi : ℕ) (fc : FilterCursor)
    → fc.exhausted ≡ false
    → pages_left hi fc ≡ times_left hi fc.until + 1
unfolding pages_left
pages_left-running hi fc on = rw on refl

-- A page of a cursor that goes on leaves it exhausted, or with fewer pages.
advance-pages_left :
    (hi : ℕ) (store : EventStore) (page_size : ℤ) (fc : FilterCursor) (evs : List Event)
    → hi < 2 ^ 63
    → Dated hi store
    → pos 1 ≤ℤ page_size
    → fc.exhausted ≡ false
    → store.query_events (page_query page_size fc) ≡ success evs
    → pages_left hi (advance page_size evs fc)
        + (if (advance page_size evs fc).exhausted then 0 else 1)
      ≤ pages_left hi fc
unfolding pages_left advance page_limit page_query
advance-pages_left hi store page_size fc [] small dated big running q = ground arith
advance-pages_left hi store page_size fc (ev ∷ evs) small dated big running q =
    let (t, last) = last_some ev evs in
    let (k, is_k, old, below) = dated.last (page_query page_size fc) (ev ∷ evs) t q last in
    let after =
      next_until-times hi k fc.until old
        λ u e. subst (λ (v : ℤ). v ≤ℤ u) is_k (below u (rw e refl)) in
    let fewer = times_left-sub64 hi k old small in
    elim (Bool-cases (advance page_size (ev ∷ evs) fc).exhausted) [
      | inl over ↦ rw (pages_left, over) (omega arith)
      | inr on ↦
          rw
            (
              pages_left-running hi (advance page_size (ev ∷ evs) fc) on,
              on,
              pages_left-running hi fc running,
              last,
              is_k,
            )
            (omega (arith, after, fewer))
    ]

still_open : List FilterCursor → Bool
still_open fcs = any_of (λ fc. not fc.exhausted) fcs

-- At most `n` pages are left, and fewer where a cursor goes on.
AtMost : ℕ → List FilterCursor → ℕ → Type 0
AtMost hi fcs n = all_left hi fcs + (if still_open fcs then 1 else 0) ≤ n

AtMost-nil : (hi : ℕ) → AtMost hi [] 0
unfolding AtMost all_left still_open
AtMost-nil hi = omega arith

AtMost-cons :
    (hi : ℕ) (fc : FilterCursor) (fcs : List FilterCursor) (m n : ℕ)
    → pages_left hi fc + (if fc.exhausted then 0 else 1) ≤ m
    → AtMost hi fcs n
    → AtMost hi (fc ∷ fcs) (m + n)
unfolding AtMost all_left still_open
AtMost-cons hi fc fcs m n h k = ground (arith, h, k)

exhausted-left :
    (hi : ℕ) (fc : FilterCursor)
    → fc.exhausted ≡ true
    → pages_left hi fc + (if fc.exhausted then 0 else 1) ≤ pages_left hi fc
unfolding pages_left
exhausted-left hi fc over = rw over (omega arith)

fetch_cursors-left :
    (hi : ℕ) (store : EventStore) (page_size : ℤ) (fcs : List FilterCursor) (page : Map Event)
    {r : List FilterCursor × Map Event}
    → hi < 2 ^ 63
    → Dated hi store
    → pos 1 ≤ℤ page_size
    → fetch_cursors store page_size fcs page ≡ success r
    → AtMost hi r.0 (all_left hi fcs)
unfolding fetch_cursors all_left
fetch_cursors-left hi store page_size [] page small dated big e =
    subst (λ l. AtMost hi l 0) (ground (arith, e)) (AtMost-nil hi)
fetch_cursors-left hi store page_size (fc ∷ fcs) page {r} small dated big e =
    elim (Bool-cases fc.exhausted) [
      | inl over ↦
          let ((rest, page'), p, q) =
            >>=-success (fetch_cursors store page_size fcs page) _ (rw over at e) in
          subst (λ l. AtMost hi l (pages_left hi fc + all_left hi fcs)) (ground (arith, q))
            (AtMost-cons hi fc rest (pages_left hi fc) (all_left hi fcs) (exhausted-left hi fc over)
              (fetch_cursors-left hi store page_size fcs page small dated big p))
      | inr running ↦
          let (evs, a, e') =
            >>=-success (store.query_events (page_query page_size fc)) _ (rw running at e) in
          let ((rest, page'), p, q) =
            >>=-success (fetch_cursors store page_size fcs (collect evs page)) _ e' in
          subst (λ l. AtMost hi l (pages_left hi fc + all_left hi fcs)) (ground (arith, q))
            (AtMost-cons hi (advance page_size evs fc) rest (pages_left hi fc) (all_left hi fcs)
              (advance-pages_left hi store page_size fc evs small dated big running a)
              (fetch_cursors-left hi store page_size fcs (collect evs page) small dated big p))
    ]

Shrinks : ℕ → ℕ → Page → Type 0
Shrinks hi n p = p.has_more ≡ true → all_left hi p.state.non_search + 1 ≤ n

merged-Shrinks :
    (hi : ℕ) (st : ReqQueryState) (fcs : List FilterCursor) (page : Map Event) (order : List Text)
    (n : ℕ)
    → AtMost hi fcs n
    → Shrinks hi n (merged st fcs page order (any_of (λ fc. not fc.exhausted) fcs))
unfolding Shrinks AtMost still_open
merged-Shrinks hi st fcs page order n h more =
    subst (λ b. all_left hi fcs + (if b then 1 else 0) ≤ n) more h

Shrinks-left :
    (hi n : ℕ) (p : Page)
    → Shrinks hi n p
    → p.has_more ≡ true
    → all_left hi p.state.non_search + 1 ≤ n
unfolding Shrinks
Shrinks-left hi n p h more = h more

at_least_one : (n : ℤ) → leb_ℤ n (pos 0) ≡ false → pos 1 ≤ℤ n
at_least_one n h = ground arith

-- A page after which there are more leaves fewer of them.
pub fetch_req_page-left :
    (hi : ℕ) (store : EventStore) (page_size : ℤ) (st : ReqQueryState) (p : Page)
    → hi < 2 ^ 63
    → Dated hi store
    → fetch_req_page store page_size st ≡ success p
    → p.has_more ≡ true
    → all_left hi p.state.non_search + 1 ≤ all_left hi st.non_search
unfolding fetch_req_page fetch_req_all
fetch_req_page-left hi store page_size st p small dated e more =
    elim (Bool-cases (leb_ℤ page_size (pos 0))) [
      | inl whole ↦
          let ((page, order), a, e') =
            >>=-success (run_searches store st.search [] []) _ (rw whole at e) in
          let ((fcs, page'), b, q) = >>=-success (fetch_bases store st.non_search page) _ e' in
          absurd (ground (arith, q, more))
      | inr paged ↦ elim (Bool-cases (is_empty st.non_search && is_empty st.search)) [
        | inl nothing ↦ absurd (ground (arith, rw (paged, nothing) at e, more))
        | inr some_filter ↦
            let ((page, order), a, e') =
              >>=-success (run_searches store (if st.search_done then [] else st.search) [] []) _
                (rw (paged, some_filter) at e) in
            let ((fcs, page'), b, q) =
              >>=-success (fetch_cursors store page_size st.non_search page) _ e' in
            let shrinks : Shrinks hi (all_left hi st.non_search) p =
              subst (Shrinks hi (all_left hi st.non_search)) (ground (arith, q)) (
                merged-Shrinks hi st fcs page' order (all_left hi st.non_search) (
                  fetch_cursors-left hi store page_size st.non_search page small dated
                    (at_least_one page_size paged) b)) in
            Shrinks-left hi (all_left hi st.non_search) p shrinks more
      ]
    ]
