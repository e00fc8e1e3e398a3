-- ===== src/Relay/Query.antt =====
-- internal/relay/req_query.go: the paged snapshot of a REQ. The set `seen` is a list of ids.
pub mod Sort
pub mod Search
pub mod Merge
pub mod Pages
pub mod Cursor
pub mod Progress
use congee.Prelude.{
  text_lt, ℕ, Text, ◌==◌, ltb, eqb, mem_text, length, is_empty, any_of, keep, Map, lookup, insert,
  map, ℤ, pos, ltb_ℤ, leb_ℤ, eqb_ℤ, ◌-ℤ◌, sub64, List, [], ◌∷◌, ◌++◌, Bool, true, false, not, ◌&&◌,
  ◌||◌, Option, none, some, Result, success, failure, ◌>>=◌, if◌then◌else◌,
}
use congee.Nostr.Event.{Event}
use congee.Nostr.Filter.{Filter, has_search, search_text, without_search}
use congee.Storage.{EventStore}

abbrev with_default : ℤ → Filter → Filter
with_default default_limit f = elim f.limit [
  | none ↦ record f { limit = some default_limit }
  | some l ↦ f
]

-- Filters with no limit get the default; the copy that the source makes is not visible.
unfoldable pub apply_default_query_limit : List Filter → ℤ → List Filter
apply_default_query_limit filters default_limit =
    if leb_ℤ default_limit (pos 0) then filters else map (with_default default_limit) filters

-- `until` is unset on the first page; a `remaining` of 0 or less is no budget.
pub record FilterCursor : Type 0 where
  pub base : Filter
  pub until : Option ℤ
  pub remaining : ℤ
  pub exhausted : Bool

pub record ReqQueryState : Type 0 where
  pub non_search : List FilterCursor
  pub search : List Filter
  pub seen : List Text
  pub search_done : Bool

abbrev budget : Option ℤ → ℤ
budget none = pos 0
budget (some l) = if ltb_ℤ (pos 0) l then l else pos 0

abbrev new_cursor : Filter → FilterCursor
new_cursor f = record { base = f; until = none; remaining = budget f.limit; exhausted = false }

unfoldable pub new_req_query_state : List Filter → ℤ → Bool → ReqQueryState
unfolding apply_default_query_limit has_search
new_req_query_state filters default_query_limit search_enabled =
    let fs = apply_default_query_limit filters default_query_limit in
    record {
      non_search = map new_cursor (keep (λ f. not (has_search f)) fs);
      search = if search_enabled then keep has_search fs else [];
      seen = [];
      search_done = false;
    }

-- The order of a page: newest first, and by id where the times agree.
unfoldable pub newer : Event → Event → Bool
unfolding text_lt
newer a b =
    if not (eqb_ℤ a.created_at b.created_at)
    then ltb_ℤ b.created_at a.created_at
    else text_lt a.id b.id

unfoldable pub insert_sorted : Event → List Event → List Event
unfolding newer
insert_sorted e [] = e ∷ []
insert_sorted e (x ∷ xs) = if newer x e then x ∷ insert_sorted e xs else e ∷ x ∷ xs

unfoldable pub sort_events : List Event → List Event
unfolding insert_sorted
sort_events [] = []
sort_events (e ∷ es) = insert_sorted e (sort_events es)

-- The first loop of `mergePageEvents`: what the search found, in its order.
unfoldable pub merge_search : Map Event → List Text → List Text → List Event × List Text
merge_search page [] seen = ([], seen)
merge_search page (id ∷ order) seen =
    if mem_text id seen then merge_search page order seen else elim (lookup id page) [
      | none ↦ merge_search page order seen
      | some ev ↦ let (out, seen') = merge_search page order (id ∷ seen) in (ev ∷ out, seen')
    ]

unfoldable pub merge_page_events : Map Event → List Text → List Text → List Event × List Text
unfolding merge_search sort_events
merge_page_events page search_order seen =
    let (out, seen') = merge_search page search_order seen in
    let rest = sort_events (map (λ e. e.1) (keep (λ e. not (mem_text e.0 seen')) page)) in
    (out ++ rest, map (λ e. e.id) rest ++ seen')

-- `pageByID[ev.ID] = ev` for each event.
unfoldable pub collect : List Event → Map Event → Map Event
collect [] page = page
collect (ev ∷ evs) page = collect evs (insert ev.id ev page)

unfoldable pub run_searches :
    EventStore → List Filter → Map Event → List Text → Result (Map Event × List Text)
unfolding search_text without_search collect
run_searches store [] page order = success (page, order)
run_searches store (f ∷ fs) page order = do
  evs ← store.search_events (search_text f) (without_search f)
  run_searches store fs (collect evs page) (order ++ map (λ e. e.id) evs)

abbrev pub last_created_at : List Event → Option ℤ
last_created_at [] = none
last_created_at (e ∷ []) = some e.created_at
last_created_at (e ∷ e' ∷ es) = last_created_at (e' ∷ es)

-- The query of a cursor's next page, and its limit.
unfoldable pub page_limit : ℤ → FilterCursor → ℤ
page_limit page_size fc =
    if ltb_ℤ (pos 0) fc.remaining && ltb_ℤ fc.remaining page_size then fc.remaining else page_size

abbrev or_else : Option ℤ → Option ℤ → Option ℤ
or_else none d = d
or_else (some u) d = some u

unfoldable pub page_query : ℤ → FilterCursor → Filter
unfolding page_limit
page_query page_size fc = record fc.base {
  limit = some (page_limit page_size fc);
  until = or_else fc.until fc.base.until;
}

abbrev next_until : Option ℤ → Option ℤ → Option ℤ
next_until none old = old
next_until (some oldest) old = some (sub64 oldest (pos 1))

-- The cursor after an answer.
unfoldable pub advance : ℤ → List Event → FilterCursor → FilterCursor
unfolding page_limit
advance page_size evs fc =
    let n = pos (length evs) in
    let left = if ltb_ℤ (pos 0) fc.remaining then fc.remaining -ℤ n else fc.remaining in
    record fc {
      until = next_until (last_created_at evs) fc.until;
      remaining = left;
      exhausted =
          (ltb_ℤ (pos 0) fc.remaining && leb_ℤ left (pos 0)) || ltb_ℤ n (page_limit page_size fc);
    }

unfoldable pub fetch_cursors :
    EventStore → ℤ → List FilterCursor → Map Event → Result (List FilterCursor × Map Event)
unfolding page_query advance collect
fetch_cursors store page_size [] page = success ([], page)
fetch_cursors store page_size (fc ∷ fcs) page =
    if fc.exhausted
    then (do (rest, page') ← fetch_cursors store page_size fcs page; success (fc ∷ rest, page'))
    else (do
      evs ← store.query_events (page_query page_size fc)
      (rest, page') ← fetch_cursors store page_size fcs (collect evs page)
      success (advance page_size evs fc ∷ rest, page'))

unfoldable pub fetch_bases :
    EventStore → List FilterCursor → Map Event → Result (List FilterCursor × Map Event)
unfolding collect
fetch_bases store [] page = success ([], page)
fetch_bases store (fc ∷ fcs) page = do
  evs ← store.query_events fc.base
  (rest, page') ← fetch_bases store fcs (collect evs page)
  success (record fc { exhausted = true } ∷ rest, page')

pub record Page : Type 0 where
  pub events : List Event
  pub has_more : Bool
  pub state : ReqQueryState

abbrev merged : ReqQueryState → List FilterCursor → Map Event → List Text → Bool → Page
merged st cursors page order has_more =
    let (events, seen) = merge_page_events page order st.seen in
    record {
      events = events;
      has_more = has_more;
      state = record st { non_search = cursors; seen = seen; search_done = true };
    }

unfoldable pub fetch_req_all : EventStore → ReqQueryState → Result Page
unfolding run_searches fetch_bases merge_page_events
fetch_req_all store st = do
  (page, order) ← run_searches store st.search [] []
  (cursors, page') ← fetch_bases store st.non_search page
  success (merged st cursors page' order false)

-- On an error the source gives up the state, so none comes back.
unfoldable pub fetch_req_page : EventStore → ℤ → ReqQueryState → Result Page
unfolding fetch_req_all run_searches fetch_cursors merge_page_events
fetch_req_page store page_size st =
    if leb_ℤ page_size (pos 0)
    then fetch_req_all store st
    else if is_empty st.non_search && is_empty st.search
    then success (record { events = []; has_more = false; state = st })
    else (do
      (page, order) ← run_searches store (if st.search_done then [] else st.search) [] []
      (cursors, page') ← fetch_cursors store page_size st.non_search page
      success (merged st cursors page' order (any_of (λ fc. not fc.exhausted) cursors)))

unfoldable pub query_initial_req_events : EventStore → List Filter → Bool → ℤ → Result (List Event)
unfolding new_req_query_state fetch_req_page
query_initial_req_events store filters search_enabled default_query_limit = do
  p ← fetch_req_page store (pos 0) (new_req_query_state filters default_query_limit search_enabled)
  success p.events
