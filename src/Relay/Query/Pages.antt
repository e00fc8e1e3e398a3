-- ===== src/Relay/Query/Pages.antt =====
-- The pages of a REQ: no event is sent twice, on one page or on several.
use congee.Prelude.{
  Text, In, In-map_inv, In-append_cases, NoDup, NoDup-append, Map, Distinct-insert, insert,
  All-insert, ℤ, pos, leb_ℤ, is_empty, List, [], ◌∷◌, ◌++◌, Bool, false, not, ◌&&◌, any_of, Result,
  success, failure, ◌>>=◌, >>=-success, ◌≡◌, refl, sym, subst, ◌↔◌, ◌⊎◌, inl, inr, arith,
  Bool-cases, if◌then◌else◌,
}
use congee.Nostr.Event.{Event}
use congee.Nostr.Filter.{Filter, search_text, without_search}
use congee.Storage.{EventStore}
use congee.Relay.Query.{
  FilterCursor, ReqQueryState, Page, collect, run_searches, fetch_cursors, fetch_bases, page_query,
  merged, fetch_req_all, fetch_req_page,
}
use congee.Relay.Query.Sort.{ids, IsPage}
use congee.Relay.Query.Merge.{merge_page_events-Merged, ids-append}

empty_IsPage : IsPage []
empty_IsPage = record { distinct = tt; keyed = tt }

collect-IsPage : (evs : List Event) (page : Map Event) → IsPage page → IsPage (collect evs page)
unfolding collect
collect-IsPage [] page h = h
collect-IsPage (ev ∷ evs) page h = collect-IsPage evs (insert ev.id ev page) (record {
  distinct = Distinct-insert ev.id ev page h.distinct;
  keyed = All-insert _ ev.id ev page refl h.keyed;
})

run_searches-IsPage :
    (store : EventStore) (fs : List Filter) (page : Map Event) (order : List Text)
    {r : Map Event × List Text}
    → IsPage page
    → run_searches store fs page order ≡ success r
    → IsPage r.0
unfolding run_searches
run_searches-IsPage store [] page order h e = ground (arith, h)
run_searches-IsPage store (f ∷ fs) page order h e =
    let (evs, _, q) = >>=-success (store.search_events (search_text f) (without_search f)) _ e in
    run_searches-IsPage store fs (collect evs page) _ (collect-IsPage evs page h) q

fetch_cursors-IsPage :
    (store : EventStore) (page_size : ℤ) (fcs : List FilterCursor) (page : Map Event)
    {r : List FilterCursor × Map Event}
    → IsPage page
    → fetch_cursors store page_size fcs page ≡ success r
    → IsPage r.1
unfolding fetch_cursors
fetch_cursors-IsPage store page_size [] page h e = ground (arith, h)
fetch_cursors-IsPage store page_size (fc ∷ fcs) page h e = elim (Bool-cases fc.exhausted) [
  | inl over ↦
      let ((rest, page'), p, q) =
        >>=-success (fetch_cursors store page_size fcs page) _ (rw over at e) in
      let k = fetch_cursors-IsPage store page_size fcs page h p in ground (arith, k)
  | inr running ↦
      let (evs, _, e') =
        >>=-success (store.query_events (page_query page_size fc)) _ (rw running at e) in
      let ((rest, page'), p, q) =
        >>=-success (fetch_cursors store page_size fcs (collect evs page)) _ e' in
      let k =
        fetch_cursors-IsPage store page_size fcs (collect evs page) (collect-IsPage evs page h) p in
      ground (arith, k)
]

fetch_bases-IsPage :
    (store : EventStore) (fcs : List FilterCursor) (page : Map Event)
    {r : List FilterCursor × Map Event}
    → IsPage page
    → fetch_bases store fcs page ≡ success r
    → IsPage r.1
unfolding fetch_bases
fetch_bases-IsPage store [] page h e = ground (arith, h)
fetch_bases-IsPage store (fc ∷ fcs) page h e =
    let (evs, _, e') = >>=-success (store.query_events fc.base) _ e in
    let ((rest, page'), p, q) = >>=-success (fetch_bases store fcs (collect evs page)) _ e' in
    let k = fetch_bases-IsPage store fcs (collect evs page) (collect-IsPage evs page h) p in
    ground (arith, k)

-- A page against the ids that were seen before it: its events are new, each occurs once, and their
-- ids are seen afterwards.
pub record IsFresh (seen : List Text) (p : Page) : Type 0 where
  pub new : (ev : Event) → In ev p.events → ¬ In ev.id seen
  pub once : NoDup (ids p.events)
  pub noted : (t : Text) → In t p.state.seen ↔ (In t seen ⊎ In t (ids p.events))

merged-IsFresh :
    (st : ReqQueryState) (fcs : List FilterCursor) (page : Map Event) (order : List Text)
    (has_more : Bool)
    → IsPage page
    → IsFresh st.seen (merged st fcs page order has_more)
merged-IsFresh st fcs page order has_more h =
    let m = merge_page_events-Merged page order st.seen h in
    record { new = λ ev i. ((m.exact ev).0 i).1; once = m.once; noted = m.noted }

fetch_req_all-IsFresh :
    (store : EventStore) (st : ReqQueryState) (p : Page)
    → fetch_req_all store st ≡ success p
    → IsFresh st.seen p
unfolding fetch_req_all
fetch_req_all-IsFresh store st p e =
    let ((page, order), a, e') = >>=-success (run_searches store st.search [] []) _ e in
    let ((fcs, page'), b, q) = >>=-success (fetch_bases store st.non_search page) _ e' in
    let h =
      fetch_bases-IsPage store st.non_search page
        (run_searches-IsPage store st.search [] [] empty_IsPage a) b in
    subst (IsFresh st.seen) (ground (arith, q)) (merged-IsFresh st fcs page' order false h)

paged-IsFresh :
    (store : EventStore) (page_size : ℤ) (st : ReqQueryState) (search : List Filter) (p : Page)
    → (do
      (page, order) ← run_searches store search [] []
      (fcs, page') ← fetch_cursors store page_size st.non_search page
      success (merged st fcs page' order (any_of (λ fc. not fc.exhausted) fcs)))
      ≡ success p
    → IsFresh st.seen p
paged-IsFresh store page_size st search p e =
    let ((page, order), a, e') = >>=-success (run_searches store search [] []) _ e in
    let ((fcs, page'), b, q) =
      >>=-success (fetch_cursors store page_size st.non_search page) _ e' in
    let h =
      fetch_cursors-IsPage store page_size st.non_search page
        (run_searches-IsPage store search [] [] empty_IsPage a) b in
    subst (IsFresh st.seen) (ground (arith, q))
      (merged-IsFresh st fcs page' order (any_of (λ (fc : FilterCursor). not fc.exhausted) fcs) h)

-- Whatever the store answers, a page that is fetched has new events only, and each once.
pub fetch_req_page-IsFresh :
    (store : EventStore) (page_size : ℤ) (st : ReqQueryState) (p : Page)
    → fetch_req_page store page_size st ≡ success p
    → IsFresh st.seen p
unfolding fetch_req_page
fetch_req_page-IsFresh store page_size st p e = elim (Bool-cases (leb_ℤ page_size (pos 0))) [
  | inl whole ↦ fetch_req_all-IsFresh store st p (rw whole at e)
  | inr paged ↦ elim (Bool-cases (is_empty st.non_search && is_empty st.search)) [
    | inl nothing ↦
        subst (IsFresh st.seen) {x = record { events = []; has_more = false; state = st }}
          (ground (arith, e))
          (record {
            new = λ ev i. absurd i;
            once = tt;
            noted = λ t. (λ i. inl i, λ i. elim i [ inl l ↦ l | inr r ↦ absurd r ]);
          })
    | inr some_filter ↦ paged-IsFresh store page_size st _ p (rw (paged, some_filter) at e)
  ]
]

-- The events of the pages that are fetched one after another, as `handleREQ`, the reader queue and
-- `drainRemainingPages` do, before any is withheld: `stores` is the store at each round, and an
-- error ends the run.
unfoldable pub all_pages : List EventStore → ℤ → ReqQueryState → List Event
all_pages [] page_size st = []
all_pages (store ∷ stores) page_size st = elim (fetch_req_page store page_size st) [
  | failure e ↦ []
  | success p ↦ p.events ++ (if p.has_more then all_pages stores page_size p.state else [])
]

-- New events only, and each once.
record AllFresh (seen : List Text) (evs : List Event) : Type 0 where
  pub new : (ev : Event) → In ev evs → ¬ In ev.id seen
  pub once : NoDup (ids evs)

nothing_AllFresh : (seen : List Text) → AllFresh seen []
nothing_AllFresh seen = record { new = λ ev i. absurd i; once = tt }

IsFresh-append :
    (seen : List Text) (p : Page) (evs : List Event)
    → IsFresh seen p
    → AllFresh p.state.seen evs
    → AllFresh seen (p.events ++ evs)
IsFresh-append seen p evs h k = record {
  new = λ ev i. elim (In-append_cases ev p.events evs i) [
    | inl l ↦ h.new ev l
    | inr r ↦ λ j. k.new ev r ((h.noted ev.id).1 (inl j))
  ];
  once = rw ids-append (
      NoDup-append (ids p.events) (ids evs) h.once k.once λ t i j.
        let (a, m, e) = In-map_inv (λ (x : Event). x.id) t evs j in
        k.new a m (subst (λ u. In u p.state.seen) (sym e) ((h.noted t).1 (inr i))));
}

page-AllFresh :
    (store : EventStore) (stores : List EventStore) (page_size : ℤ) (st : ReqQueryState)
    → ((st' : ReqQueryState) → AllFresh st'.seen (all_pages stores page_size st'))
    → (r : Result Page) → fetch_req_page store page_size st ≡ r
    → AllFresh st.seen (all_pages (store ∷ stores) page_size st)
unfolding all_pages
page-AllFresh store stores page_size st ih (failure e) q =
    rw (q, all_pages) (nothing_AllFresh st.seen)
page-AllFresh store stores page_size st ih (success p) q =
    rw (q, all_pages)
      (IsFresh-append st.seen p _ (fetch_req_page-IsFresh store page_size st p q)
        (elim (Bool-cases p.has_more) [
          | inl more ↦ rw more (ih p.state)
          | inr last ↦ rw last (nothing_AllFresh p.state.seen)
        ]))

all_pages-AllFresh :
    (stores : List EventStore) (page_size : ℤ) (st : ReqQueryState)
    → AllFresh st.seen (all_pages stores page_size st)
unfolding all_pages
all_pages-AllFresh [] page_size st = nothing_AllFresh st.seen
all_pages-AllFresh (store ∷ stores) page_size st =
    page-AllFresh store stores page_size st (λ st'. all_pages-AllFresh stores page_size st')
      (fetch_req_page store page_size st) refl

-- Over all pages of a REQ, whatever the store answers from page to page, no event id is sent twice.
pub all_pages-once :
    (stores : List EventStore) (page_size : ℤ) (st : ReqQueryState)
    → NoDup (ids (all_pages stores page_size st))
all_pages-once stores page_size st = (all_pages-AllFresh stores page_size st).once
