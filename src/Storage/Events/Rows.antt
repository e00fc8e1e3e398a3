-- ===== src/Storage/Events/Rows.antt =====
-- Which rows there can be at once.
use congee.Prelude.{
  Text, ◌==◌, ==_iff, In, NoDup, keep, In-keep, In-append_cases, map, eqb_ℤ_iff, List, [], ◌∷◌,
  ◌++◌, Bool, true, false, not, Option, none, some, ◌≡◌, sym, subst, ◌∙◌, ◌⊎◌, inl, inr, arith,
  Bool-cases, Option-cases,
}
use congee.Nostr.Event.{Event}
use congee.Nostr.Kind.{
  KindClass, regular, replaceable, ephemeral, addressable, classify_kind, is_ephemeral,
}
use congee.Storage.Events.{
  extract_d_tag, same_author_kind, replaced_by, replaced, has_event_id, save_event, delete_event,
}

-- No id twice, and no row that another one should have replaced.
pub record RowsInv (rows : List Event) : Type 0 where
  pub ids : NoDup (map (λ e. e.id) rows)
  pub one_each : (e f : Event) → In e rows → In f rows → replaced e f ≡ true → e ≡ f

-- A save or a deletion, whether it fails or not.
pub data RowsStep (engine conflict : Text) (rows : List Event) : List Event → Type 0 where
  saves :
      (fault : Option Text) (ev : Event)
      → RowsStep engine conflict rows (save_event engine conflict fault ev rows).0
  deletes :
      (fault : Option Text) (id : Text)
      → RowsStep engine conflict rows (delete_event fault id rows).0

pub data RowsReach (engine conflict : Text) (rows : List Event) : List Event → Type 0 where
  here : RowsReach engine conflict rows rows
  next :
      {mid last : List Event}
      → RowsReach engine conflict rows mid
      → RowsStep engine conflict mid last
      → RowsReach engine conflict rows last

same-sym : (a b : Event) → same_author_kind a b ≡ true → same_author_kind b a ≡ true
same-sym a b h = ground (
  arith,
  ==_iff a.pub_key b.pub_key,
  ==_iff b.pub_key a.pub_key,
  eqb_ℤ_iff a.kind b.kind,
  eqb_ℤ_iff b.kind a.kind,
)

replaced_by-same :
    (k : KindClass) (a b : Event) → replaced_by k a b ≡ true → same_author_kind a b ≡ true
replaced_by-same regular a b h = cc
replaced_by-same ephemeral a b h = cc
replaced_by-same replaceable a b h = h
replaced_by-same addressable a b h = ground arith

replaced_by-sym :
    (k : KindClass) (a b : Event) → replaced_by k a b ≡ true → replaced_by k b a ≡ true
replaced_by-sym regular a b h = cc
replaced_by-sym ephemeral a b h = cc
replaced_by-sym replaceable a b h = same-sym a b h
replaced_by-sym addressable a b h = ground (
  arith,
  same-sym a b,
  ==_iff (extract_d_tag b.tags) (extract_d_tag a.tags),
  ==_iff (extract_d_tag a.tags) (extract_d_tag b.tags),
)

same-kind : (a b : Event) → same_author_kind a b ≡ true → b.kind ≡ a.kind
same-kind a b h = ground (arith, eqb_ℤ_iff b.kind a.kind)

pub replaced-kind : (a b : Event) → replaced a b ≡ true → b.kind ≡ a.kind
unfolding replaced
replaced-kind a b h = same-kind a b (replaced_by-same (classify_kind a.kind) a b h)

replaced-sym : (a b : Event) → replaced a b ≡ true → replaced b a ≡ true
unfolding replaced
replaced-sym a b h =
    let same = same-kind a b (replaced_by-same (classify_kind a.kind) a b h) in
    subst (λ k. replaced_by (classify_kind k) b a ≡ true) (sym same)
      (replaced_by-sym (classify_kind a.kind) a b h)

abbrev row_ids : List Event → List Text
row_ids = map (λ (e : Event). e.id)

In-row_ids :
    (p : Event → Bool) (id : Text) (rows : List Event)
    → In id (row_ids (keep p rows))
    → In id (row_ids rows)
In-row_ids p id [] h = absurd h
In-row_ids p id (e ∷ rows) h = ground (arith, In-row_ids p id rows)

keep-ids :
    (p : Event → Bool) (rows : List Event) → NoDup (row_ids rows) → NoDup (row_ids (keep p rows))
keep-ids p [] d = tt
keep-ids p (e ∷ rows) d = elim (Bool-cases (p e)) [
  | inl kept ↦ rw kept (λ i. d.0 (In-row_ids p e.id rows i), keep-ids p rows d.1)
  | inr gone ↦ rw gone (keep-ids p rows d.1)
]

keep-Inv : (p : Event → Bool) (rows : List Event) → RowsInv rows → RowsInv (keep p rows)
keep-Inv p rows h = record {
  ids = keep-ids p rows h.ids;
  one_each = λ e f i j r. h.one_each e f ((In-keep p e rows).0 i).0 ((In-keep p f rows).0 j).0 r;
}

snoc-ids :
    (ev : Event) (rows : List Event)
    → NoDup (row_ids rows)
    → has_event_id ev.id rows ≡ false
    → NoDup (row_ids (rows ++ ev ∷ []))
unfolding has_event_id
snoc-ids ev [] d h = (λ i. i, tt)
snoc-ids ev (e ∷ rows) d h = (
  λ i. elim (In-snoc rows i) [ inl j ↦ d.0 j | inr q ↦ cc (h, (==_iff e.id ev.id).1 (sym q)) ],
  snoc-ids ev rows d.1 (ground arith),
)
  where
    In-snoc :
        {id : Text} (l : List Event)
        → In id (row_ids (l ++ ev ∷ []))
        → In id (row_ids l) ⊎ (ev.id ≡ id)
    In-snoc [] (inl q) = inr q
    In-snoc [] (inr j) = absurd j
    In-snoc (x ∷ l) (inl q) = inl (inl q)
    In-snoc (x ∷ l) (inr j) = elim (In-snoc l j) [ inl k ↦ inl (inr k) | inr q ↦ inr q ]

-- The rows that are left have none that the new row replaces, and so none that replaces it.
save-left :
    (ev : Event) (rows : List Event)
    → RowsInv rows
    → has_event_id ev.id (keep (λ e. not (replaced ev e)) rows) ≡ false
    → RowsInv (keep (λ e. not (replaced ev e)) rows ++ ev ∷ [])
save-left ev rows h absent =
    let p : Event → Bool = λ e. not (replaced ev e) in
    let left = keep-Inv p rows h in
    record {
      ids = snoc-ids ev (keep p rows) left.ids absent;
      one_each = λ e f i j r.
          both e f r (In-append_cases e (keep p rows) (ev ∷ []) i)
            (In-append_cases f (keep p rows) (ev ∷ []) j);
    }
  where
    apart : (f : Event) → In f (keep (λ e. not (replaced ev e)) rows) → replaced ev f ≡ false
    apart f i = ground (arith, (In-keep (λ e. not (replaced ev e)) f rows).0 i)

    both :
        (e f : Event)
        → replaced e f ≡ true
        → In e (keep (λ e. not (replaced ev e)) rows) ⊎ In e (ev ∷ [])
        → In f (keep (λ e. not (replaced ev e)) rows) ⊎ In f (ev ∷ [])
        → e ≡ f
    both e f r (inl i) (inl j) = (keep-Inv (λ e. not (replaced ev e)) rows h).one_each e f i j r
    both e f r (inl i) (inr (inl q)) =
        absurd (cc (apart e i, replaced-sym e ev (subst (λ x. replaced e x ≡ true) (sym q) r)))
    both e f r (inr (inl q)) (inl j) =
        absurd (cc (apart f j, subst (λ x. replaced x f ≡ true) (sym q) r))
    both e f r (inr (inl q)) (inr (inl p)) = sym q ∙ p
    both e f r (inl i) (inr (inr j)) = absurd j
    both e f r (inr (inr i)) j = absurd i
    both e f r (inr (inl q)) (inr (inr j)) = absurd j

save_event-Inv :
    (engine conflict : Text) (fault : Option Text) (ev : Event) (rows : List Event)
    → RowsInv rows
    → RowsInv (save_event engine conflict fault ev rows).0
unfolding save_event
save_event-Inv engine conflict fault ev rows h = elim (Bool-cases (is_ephemeral ev.kind)) [
  | inl short ↦ rw (short, save_event) h
  | inr lasting ↦ elim (Option-cases fault) [
    | inr (e, failed) ↦ rw (lasting, failed, save_event) h
    | inl fine ↦ elim (Bool-cases (has_event_id ev.id (keep (λ e. not (replaced ev e)) rows))) [
      | inl there ↦ rw (lasting, fine, there, save_event) h
      | inr absent ↦ rw (lasting, fine, absent, save_event) (save-left ev rows h absent)
    ]
  ]
]

delete_event-Inv :
    (fault : Option Text) (id : Text) (rows : List Event)
    → RowsInv rows
    → RowsInv (delete_event fault id rows).0
unfolding delete_event
delete_event-Inv (some e) id rows h = h
delete_event-Inv none id rows h = keep-Inv (λ e. not (e.id == id)) rows h

RowsReach-Inv :
    {engine conflict : Text} {a b : List Event}
    → RowsReach engine conflict a b
    → RowsInv a
    → RowsInv b
RowsReach-Inv here h = h
RowsReach-Inv {engine} {conflict} (next {mid} r (saves fault ev)) h =
    save_event-Inv engine conflict fault ev mid (RowsReach-Inv r h)
RowsReach-Inv {engine} {conflict} (next {mid} r (deletes fault id)) h =
    delete_event-Inv fault id mid (RowsReach-Inv r h)

-- After any saves and deletions on a new store, those that fail included: no two rows have the same
-- id, and no two are events of one author and kind where the kind is replaceable, or of one author,
-- kind and `d` tag where it is addressable.
pub RowsReach-unique :
    (engine conflict : Text) (rows : List Event)
    → RowsReach engine conflict [] rows
    → NoDup (map (λ e. e.id) rows)
      × ((e f : Event) → In e rows → In f rows → replaced e f ≡ true → e ≡ f)
RowsReach-unique engine conflict rows r =
    let h = RowsReach-Inv r (record { ids = tt; one_each = λ e f i j q. absurd i }) in
    (h.ids, h.one_each)
