-- ===== src/Storage/Query/Reached.antt =====
-- Queries on the rows that saves and deletions leave.
use congee.Prelude.{
  Text, In, In-map, NoDup, All, map, List, [], ◌∷◌, true, ◌≡◌, ◌↔◌, sym, subst, ◌∙◌, inl, inr,
}
use congee.Nostr.Event.{Event}
use congee.Nostr.Filter.{Filter, filters_match}
use congee.Storage.Events.Rows.{RowsReach, RowsReach-unique}
use congee.Storage.Query.{query_events}
use congee.Storage.Query.Live.{IsOpen, OneRowEach, query_events-live}

abbrev row_id : Event → Text
row_id e = e.id

NoDup-OneRowEach : (rows : List Event) → NoDup (map row_id rows) → OneRowEach rows
NoDup-OneRowEach [] d a b i j same = absurd i
NoDup-OneRowEach (e ∷ rows) d a b (inl p) (inl q) same = sym p ∙ q
NoDup-OneRowEach (e ∷ rows) d a b (inl p) (inr j) same =
    absurd (d.0 (subst (λ t. In t (map row_id rows)) (sym (cc (p, same))) (In-map row_id b rows j)))
NoDup-OneRowEach (e ∷ rows) d a b (inr i) (inl q) same =
    absurd (d.0 (subst (λ t. In t (map row_id rows)) (sym (cc (q, same))) (In-map row_id a rows i)))
NoDup-OneRowEach (e ∷ rows) d a b (inr i) (inr j) same = NoDup-OneRowEach rows d.1 a b i j same

-- After any saves and deletions on a new store, and with filters that have no limit, that name tags
-- by a hash and want no empty value: a query answers with exactly those rows that some filter
-- matches, as live delivery tests it.
pub query_events-reached :
    (engine conflict : Text) (rows : List Event) (fs : List Filter) (a : Event)
    → RowsReach engine conflict [] rows
    → All IsOpen fs
    → In a (query_events fs rows) ↔ In a rows × (filters_match fs a ≡ true)
query_events-reached engine conflict rows fs a r o =
    query_events-live rows (NoDup-OneRowEach rows (RowsReach-unique engine conflict rows r).0) fs a
      o
