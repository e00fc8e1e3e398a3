-- ===== src/Relay/Query/Search.antt =====
-- The first loop of `mergePageEvents`: what a search found, each once.
use congee.Prelude.{
  Text, mem_text, mem_text_iff, In, In-map_inv, NoDup, Map, lookup, List, [], ◌∷◌, false, some,
  All-lookup, ◌≡◌, ◌∙◌, sym, subst, ◌⊎◌, ◌↔◌, inl, inr, Bool-cases, Option-cases,
}
use congee.Nostr.Event.{Event}
use congee.Relay.Query.{merge_search}
use congee.Relay.Query.Sort.{ids, IsPage}

-- What the first loop of the merge gives.
pub record Searched (page : Map Event) (seen : List Text) (r : List Event × List Text)
    : Type 0 where
  pub from_page : (ev : Event) → In ev r.0 → (lookup ev.id page ≡ some ev) × (¬ In ev.id seen)
  pub once : NoDup (ids r.0)
  pub noted : (t : Text) → In t r.1 ↔ (In t seen ⊎ In t (ids r.0))

pub absent : (id : Text) (seen : List Text) → mem_text id seen ≡ false → ¬ In id seen
absent id seen new i = cc ((mem_text_iff id seen).1 i)

Searched-cons :
    (page : Map Event) (id : Text) (seen : List Text) (ev : Event) (r : List Event × List Text)
    → ¬ In id seen
    → lookup id page ≡ some ev
    → ev.id ≡ id
    → Searched page (id ∷ seen) r
    → Searched page seen (ev ∷ r.0, r.1)
Searched-cons page id seen ev r new e own s = record {
  from_page = from_page;
  once = (
    λ i.
        let (a, j, p) = In-map_inv (λ (x : Event). x.id) ev.id r.0 i in
        (s.from_page a j).1 (inl (sym (p ∙ own))),
    s.once,
  );
  noted = λ t. noted t own (s.noted t);
}
  where
    from_page : (x : Event) → In x (ev ∷ r.0) → (lookup x.id page ≡ some x) × (¬ In x.id seen)
    from_page x (inl p) =
        subst (λ (y : Event). (lookup y.id page ≡ some y) × (¬ In y.id seen)) p
          (
            subst (λ t. lookup t page ≡ some ev) (sym own) e,
            λ i. new (subst (λ t. In t seen) own i),
          )
    from_page x (inr i) = let (p, q) = s.from_page x i in (p, λ j. q (inr j))

    noted :
        (t : Text)
        → ev.id ≡ id
        → In t r.1 ↔ (In t (id ∷ seen) ⊎ In t (ids r.0))
        → In t r.1 ↔ (In t seen ⊎ In t (ev.id ∷ ids r.0))
    noted t own (to, from) = (
      λ i. elim (to i) [
        | inl (inl p) ↦ inr (inl (own ∙ p))
        | inl (inr j) ↦ inl j
        | inr j ↦ inr (inr j)
      ],
      λ i. elim i [
        | inl j ↦ from (inl (inr j))
        | inr (inl p) ↦ from (inl (inl (sym own ∙ p)))
        | inr (inr j) ↦ from (inr j)
      ],
    )

pub merge_search-Searched :
    (page : Map Event) (order seen : List Text)
    → IsPage page
    → Searched page seen (merge_search page order seen)
unfolding merge_search
merge_search-Searched page [] seen h = record {
  from_page = λ ev i. absurd i;
  once = tt;
  noted = λ t. (λ i. inl i, λ i. elim i [ inl l ↦ l | inr r ↦ absurd r ]);
}
merge_search-Searched page (id ∷ order) seen h = elim (Bool-cases (mem_text id seen)) [
  | inl old ↦ rw (old, merge_search) (merge_search-Searched page order seen h)
  | inr new ↦ elim (Option-cases (lookup id page)) [
    | inl e ↦ rw (new, merge_search, e) (merge_search-Searched page order seen h)
    | inr (ev, e) ↦
        let own : ev.id ≡ id = All-lookup (λ (x : Text × Event). x.1.id ≡ x.0) id page e h.keyed in
        rw (new, merge_search, e)
          (Searched-cons page id seen ev _ (absent id seen new) e own
            (merge_search-Searched page order (id ∷ seen) h))
  ]
]
