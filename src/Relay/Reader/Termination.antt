-- ===== src/Relay/Reader/Termination.antt =====
-- Draining a snapshot comes to an end.
use congee.Prelude.{
  ℕ, ◌^◌, ◌<◌, Text, length, All, ℤ, List, [], ◌∷◌, some, Result, success, failure, ◌≡◌, refl,
  arith, inl, inr, Bool-cases,
}
use congee.Relay.Fanout.Reach.{State}
use congee.Relay.Query.{ReqQueryState, Page, fetch_req_page}
use congee.Relay.Query.Progress.{Dated, all_left, fetch_req_page-left}
use congee.Relay.Reader.{Round, deliver_page, close_sub_on_query_error, drain_remaining_pages}

-- Over stores that keep to the `until` of a query, with events of times between 0 and `hi`, draining
-- ends within the rounds that it is given, whether with the last page or with an error of a store,
-- where the rounds are more than the times that are left to its running cursors and one for each of
-- these cursors together (`all_left`).
pub drain_remaining_pages-ends :
    (hi : ℕ) (rounds : List Round) (c s : Text) (page_size : ℤ) (st : ReqQueryState) (x : State)
    → hi < 2 ^ 63
    → All (λ r. Dated hi r.store) rounds
    → all_left hi st.non_search < length rounds
    → (y : State) × (drain_remaining_pages rounds c s page_size st x ≡ some y)
unfolding drain_remaining_pages
drain_remaining_pages-ends hi [] c s page_size st x small dated enough =
    absurd (omega (arith, enough))
drain_remaining_pages-ends hi (r ∷ rounds) c s page_size st x small (here, later) enough =
    turn (fetch_req_page r.store page_size st) refl
      (λ st' x'. drain_remaining_pages-ends hi rounds c s page_size st' x' small later)
  where
    turn :
        (q : Result Page)
        → fetch_req_page r.store page_size st ≡ q
        → ((st' : ReqQueryState) (x' : State)
            → all_left hi st'.non_search < length rounds
            → (y : State) × (drain_remaining_pages rounds c s page_size st' x' ≡ some y))
        → (y : State) × (drain_remaining_pages (r ∷ rounds) c s page_size st x ≡ some y)
    turn (failure message) q ih =
        (close_sub_on_query_error c s x, rw (q, drain_remaining_pages) refl)
    turn (success p) q ih =
        let x' = deliver_page (r.visible c) c s p.events x in
        elim (Bool-cases p.has_more) [
          | inr last ↦ (x', rw (q, drain_remaining_pages, last) refl)
          | inl more ↦
              let fewer = fetch_req_page-left hi r.store page_size st p small here q more in
              let (y, d) = ih p.state x' (omega (arith, fewer, enough)) in
              (y, rw (q, drain_remaining_pages, more) d)
        ]
