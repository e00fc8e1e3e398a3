-- ===== src/Storage/Query.antt =====
-- internal/storage/sqlevent/store.go: `QueryEvents` on the rows of the SQL store, and `FilterSQLLimit`
-- of internal/storage/filter_sql_limit.go. A key of a filter's tags is not empty. The Go map from ids
-- to rows is the list of its values.
pub mod Live
pub mod Reached
use congee.Prelude.{
  ℕ, Text, ◌==◌, mem_text, mem_int, is_empty, any_of, keep, drop, take, ℤ, pos, negsuc, ltb_ℤ,
  leb_ℤ, List, [], ◌∷◌, Bool, true, false, not, ◌&&◌, ◌||◌, Map, Option, none, some, if◌then◌else◌,
}
use congee.Nostr.Event.{Event}
use congee.Nostr.Filter.{Filter, has_search}
use congee.Storage.Events.{row_before}

-- A row of `event_tags`: a name and a value, empty where the tag has none.
abbrev pub tag_row_hits : Text → List Text → List Text → Bool
tag_row_hits name vals [] = [] == name && mem_text [] vals
tag_row_hits name vals (n ∷ []) = n == name && mem_text [] vals
tag_row_hits name vals (n ∷ v ∷ r) = n == name && mem_text v vals

unfoldable pub tag_clauses : List (List Text) → Map (List Text) → Bool
unfolding ◌==◌
tag_clauses tags [] = true
tag_clauses tags ((key, vals) ∷ m) =
    if is_empty vals
    then false
    else any_of (tag_row_hits (drop 1 key) vals) tags && tag_clauses tags m

abbrev pub at_least : Option ℤ → ℤ → Bool
at_least none t = true
at_least (some s) t = leb_ℤ s t

abbrev pub at_most : Option ℤ → ℤ → Bool
at_most none t = true
at_most (some u) t = leb_ℤ t u

-- The WHERE clauses of a filter.
unfoldable pub apply_filter_query : Filter → Event → Bool
unfolding tag_clauses
apply_filter_query f e =
    (is_empty f.ids || mem_text e.id f.ids)
    && ((is_empty f.authors || mem_text e.pub_key f.authors)
        && ((is_empty f.kinds || mem_int e.kind f.kinds)
            && (at_least f.since e.created_at
                && (at_most f.until e.created_at && tag_clauses e.tags f.tag))))

abbrev pub positive : Option ℤ → Option ℤ
positive none = none
positive (some n) = if ltb_ℤ (pos 0) n then some n else none

unfoldable pub filter_sql_limit : Filter → Bool → Option ℤ
filter_sql_limit f apply_limits = if not apply_limits then none else positive f.limit

abbrev pub limited : Option ℤ → List Event → List Event
limited none rows = rows
limited (some (pos n)) rows = take n rows
limited (some (negsuc n)) rows = rows

-- ORDER BY created_at DESC, id ASC
unfoldable pub insert_row : Event → List Event → List Event
unfolding row_before
insert_row e [] = e ∷ []
insert_row e (x ∷ rows) =
    let rest = insert_row e rows in if row_before x e then x ∷ rest else e ∷ x ∷ rows

unfoldable pub sort_rows : List Event → List Event
unfolding insert_row
sort_rows [] = []
sort_rows (e ∷ rows) = insert_row e (sort_rows rows)

unfoldable pub select_rows : Filter → Bool → List Event → List Event
unfolding has_search apply_filter_query filter_sql_limit sort_rows
select_rows f apply_limits rows =
    if has_search f
    then []
    else limited (filter_sql_limit f apply_limits) (sort_rows (keep (apply_filter_query f) rows))

-- `byID[r.ID] = r`
unfoldable pub put_row : Event → List Event → List Event
unfolding ◌==◌
put_row r [] = r ∷ []
put_row r (x ∷ l) = let rest = put_row r l in if x.id == r.id then r ∷ l else x ∷ rest

unfoldable pub put_rows : List Event → List Event → List Event
unfolding put_row
put_rows [] l = l
put_rows (r ∷ rows) l = put_rows rows (put_row r l)

-- The loop over the filters.
unfoldable pub rows_by_id : List Filter → List Event → List Event → List Event
unfolding select_rows put_rows
rows_by_id [] rows l = l
rows_by_id (f ∷ fs) rows l = rows_by_id fs rows (put_rows (select_rows f true rows) l)

unfoldable pub query_events : List Filter → List Event → List Event
unfolding rows_by_id sort_rows
query_events fs rows = if is_empty fs then [] else sort_rows (rows_by_id fs rows [])
