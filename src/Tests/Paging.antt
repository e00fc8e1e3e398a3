-- ===== src/Tests/Paging.antt =====
-- The pages of a REQ from a store that holds one event.
use congee.Prelude.{NoDup, pos, ◌-ℤ◌, [], ◌∷◌, false, none, ◌≡◌, refl, arith}
use congee.Nostr.Filter.{matches}
use congee.Relay.Query.{FilterCursor, ReqQueryState, page_query, advance}
use congee.Relay.Query.Sort.{ids}
use congee.Relay.Query.Pages.{all_pages, all_pages-once}
use congee.Relay.Query.Cursor.{page_query-advance}
use congee.Tests.{every, note, store}

abbrev cursor : FilterCursor
cursor = record { base = every; until = none; remaining = pos 2; exhausted = false }

abbrev state : ReqQueryState
state = record { non_search = cursor ∷ []; search = []; seen = []; search_done = false }

all_pages-once_example : NoDup (ids (all_pages (store ∷ store ∷ []) (pos 1) state))
all_pages-once_example = all_pages-once (store ∷ store ∷ []) (pos 1) state

page_query-advance_example :
    matches (page_query (pos 1) (advance (pos 1) (note ∷ []) cursor)) (record note { id = 8 ∷ [] })
    ≡ false
unfolding ◌-ℤ◌
page_query-advance_example =
    page_query-advance (pos 1) (note ∷ []) cursor (pos 5) (record note { id = 8 ∷ [] }) refl
      (record { below = omega arith; above = omega arith }) (omega arith)
