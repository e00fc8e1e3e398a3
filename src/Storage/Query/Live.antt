-- ===== src/Storage/Query/Live.antt =====
-- What the store answers for filters is what live delivery would match.
use congee.Prelude.{
  Text, bytes, ◌==◌, ==_iff, mem_text, trim_prefix, any_of, keep, In, In-keep, All, ℤ, List, [],
  ◌∷◌, true, false, not, Map, Option, none, some, ◌≡◌, refl, ap, sym, subst, ◌∙◌, ◌↔◌, ◌⊎◌, inl,
  inr, arith, Bool-cases,
}
use congee.Nostr.Event.{Event}
use congee.Nostr.Filter.{
  Filter, has_search, tag_hits, event_tag_matches, tags_match, before_since, after_until, matches,
  filters_match,
}
use congee.Storage.Query.{
  tag_row_hits, tag_clauses, at_least, at_most, apply_filter_query, positive, filter_sql_limit,
  limited, insert_row, sort_rows, select_rows, put_row, put_rows, rows_by_id, query_events,
}

-- A filter without a limit, whose tags are under a hash and want values that are not empty.
pub record IsOpen (f : Filter) : Type 0 where
  pub limit : f.limit ≡ none
  pub keys : All (λ (t : Text × List Text). (k : Text) × (t.0 ≡ b'#' ∷ k)) f.tag
  pub wanted : All (λ (t : Text × List Text). mem_text [] t.1 ≡ false) f.tag

tag_row_hits-same :
    (name : Text) (vals : List Text) (t : List Text)
    → mem_text [] vals ≡ false
    → tag_row_hits name vals t ≡ tag_hits name vals t
unfolding tag_hits
tag_row_hits-same name vals [] h = ground arith
tag_row_hits-same name vals (n ∷ []) h = ground arith
tag_row_hits-same name vals (n ∷ v ∷ r) h = refl

any_tag-same :
    (name : Text) (vals : List Text) (tags : List (List Text))
    → mem_text [] vals ≡ false
    → any_of (tag_row_hits name vals) tags ≡ event_tag_matches tags name vals
unfolding event_tag_matches
any_tag-same name vals [] h = refl
any_tag-same name vals (t ∷ tags) h =
    rw (tag_row_hits-same name vals t h, any_tag-same name vals tags h) refl

tag_clauses-same :
    (tags : List (List Text)) (m : Map (List Text))
    → All (λ (t : Text × List Text). (k : Text) × (t.0 ≡ b'#' ∷ k)) m
    → All (λ (t : Text × List Text). mem_text [] t.1 ≡ false) m
    → tag_clauses tags m ≡ tags_match tags m
unfolding tag_clauses tags_match trim_prefix bytes
tag_clauses-same tags [] k h = refl
tag_clauses-same tags ((key, vals) ∷ m) ((j, q), k) (h, w) =
    rw (q, any_tag-same j vals tags h, tag_clauses-same tags m k w) (ground arith)

at_least-same : (o : Option ℤ) (t : ℤ) → at_least o t ≡ not (before_since o t)
at_least-same none t = refl
at_least-same (some s) t = ground arith

at_most-same : (o : Option ℤ) (t : ℤ) → at_most o t ≡ not (after_until o t)
at_most-same none t = refl
at_most-same (some u) t = ground arith

apply_filter_query-same :
    (f : Filter) (e : Event)
    → IsOpen f
    → has_search f ≡ false
    → apply_filter_query f e ≡ matches f e
unfolding apply_filter_query matches
apply_filter_query-same f e o s =
    rw
      (
        at_least-same f.since e.created_at,
        at_most-same f.until e.created_at,
        tag_clauses-same e.tags f.tag o.keys o.wanted,
        s,
      )
      (ground arith)

matches-searches : (f : Filter) (e : Event) → has_search f ≡ true → matches f e ≡ false
unfolding matches
matches-searches f e s = rw s refl

In-insert_row : (a e : Event) (rows : List Event) → In a (insert_row e rows) ↔ ((e ≡ a) ⊎ In a rows)
unfolding insert_row
In-insert_row a e [] = (λ i. i, λ i. i)
In-insert_row a e (x ∷ rows) = ground (arith, In-insert_row a e rows)

In-sort_rows : (a : Event) (rows : List Event) → In a (sort_rows rows) ↔ In a rows
unfolding sort_rows
In-sort_rows a [] = (λ i. i, λ i. i)
In-sort_rows a (e ∷ rows) = ground (arith, In-insert_row a e (sort_rows rows), In-sort_rows a rows)

-- Rows of one id are one row.
abbrev pub OneRowEach : List Event → Type 0
OneRowEach rows = (a b : Event) → In a rows → In b rows → a.id ≡ b.id → a ≡ b

module _ (rows : List Event) (one : OneRowEach rows) where
  abbrev Among : List Event → Type 0
  Among l = (a : Event) → In a l → In a rows

  In-put_row :
      (a r : Event) (l : List Event) → In r rows → Among l → In a (put_row r l) ↔ ((r ≡ a) ⊎ In a l)
  unfolding put_row
  In-put_row a r [] i m = (λ i. i, λ i. i)
  In-put_row a r (x ∷ l) i m = elim (Bool-cases (x.id == r.id)) [
    | inl same ↦
        let q : x ≡ r = one x r (m x (inl refl)) i ((==_iff x.id r.id).0 same) in
        rw (same, q) (ground arith)
    | inr other ↦ rw other (ground (arith, In-put_row a r l i (λ b j. m b (inr j))))
  ]

  Among-put_row : (r : Event) (l : List Event) → In r rows → Among l → Among (put_row r l)
  Among-put_row r l i m a j = elim ((In-put_row a r l i m).0 j) [
    | inl q ↦ subst (λ b. In b rows) q i
    | inr k ↦ m a k
  ]

  In-put_rows :
      (a : Event) (rs l : List Event)
      → Among rs
      → Among l
      → In a (put_rows rs l) ↔ (In a rs ⊎ In a l)
  unfolding put_rows
  In-put_rows a [] l k m = ground arith
  In-put_rows a (r ∷ rs) l k m =
      let i = k r (inl refl) in
      let (to, from) =
        In-put_rows a rs (put_row r l) (λ b j. k b (inr j)) (Among-put_row r l i m) in
      let (split, join) = In-put_row a r l i m in
      (
        λ j. elim (to j) [
          | inl x ↦ inl (inr x)
          | inr x ↦ elim (split x) [ inl q ↦ inl (inl q) | inr y ↦ inr y ]
        ],
        λ j. elim j [
          | inl (inl q) ↦ from (inr (join (inl q)))
          | inl (inr x) ↦ from (inl x)
          | inr y ↦ from (inr (join (inr y)))
        ],
      )

  select_rows-open :
      (f : Filter)
      → IsOpen f
      → has_search f ≡ false
      → select_rows f true rows ≡ sort_rows (keep (apply_filter_query f) rows)
  unfolding select_rows filter_sql_limit
  select_rows-open f o plain =
      rw (plain, select_rows)
        (ap (λ n. limited (positive n) (sort_rows (keep (apply_filter_query f) rows))) o.limit)

  In-select_rows :
      (a : Event) (f : Filter)
      → IsOpen f
      → In a (select_rows f true rows) ↔ In a rows × (matches f a ≡ true)
  unfolding select_rows filter_sql_limit
  In-select_rows a f o = elim (Bool-cases (has_search f)) [
    | inl searches ↦
        rw (searches, select_rows)
          (λ i. absurd i, λ h. absurd (cc (matches-searches f a searches, h.1)))
    | inr plain ↦
        let (to, from) = In-sort_rows a (keep (apply_filter_query f) rows) in
        let (to', from') = In-keep (apply_filter_query f) a rows in
        let same = apply_filter_query-same f a o plain in
        rw (select_rows-open f o plain)
          (λ i. let (j, q) = to' (to i) in (j, sym same ∙ q), λ h. from (from' (h.0, same ∙ h.1)))
  ]

  In-rows_by_id :
      (a : Event) (fs : List Filter) (l : List Event)
      → All IsOpen fs
      → Among l
      → In a (rows_by_id fs rows l) ↔ ((In a rows × (filters_match fs a ≡ true)) ⊎ In a l)
  unfolding rows_by_id filters_match
  In-rows_by_id a [] l o m = ground arith
  In-rows_by_id a (f ∷ fs) l o m =
      let k : Among (select_rows f true rows) = λ b i. ((In-select_rows b f o.0).0 i).0 in
      let found = In-select_rows a f o.0 in
      let put = In-put_rows a (select_rows f true rows) l k m in
      let m' : Among (put_rows (select_rows f true rows) l) = λ b i.
        elim ((In-put_rows b (select_rows f true rows) l k m).0 i) [
          | inl j ↦ k b j
          | inr j ↦ m b j
        ] in
      let rest = In-rows_by_id a fs (put_rows (select_rows f true rows) l) o.1 m' in
      ground (arith, found, put, rest)

  -- With filters that have no limit, that name tags by a hash and want no empty value: the store
  -- answers with exactly those of its rows that some filter matches, as live delivery tests it.
  pub query_events-live :
      (fs : List Filter) (a : Event)
      → All IsOpen fs
      → In a (query_events fs rows) ↔ In a rows × (filters_match fs a ≡ true)
  unfolding query_events filters_match
  query_events-live [] a o = ground arith
  query_events-live (f ∷ fs) a o =
      let (to, from) = In-sort_rows a (rows_by_id (f ∷ fs) rows []) in
      let (to', from') = In-rows_by_id a (f ∷ fs) [] o (λ b i. absurd i) in
      (λ i. elim (to' (to i)) [ inl h ↦ h | inr j ↦ absurd j ], λ h. from (from' (inl h)))
