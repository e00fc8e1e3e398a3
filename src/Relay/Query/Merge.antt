-- ===== src/Relay/Query/Merge.antt =====
-- `mergePageEvents`: every event of the page that was not seen comes out once.
use congee.Prelude.{
  Text, mem_text, mem_text_iff, In, In-keep, In-map, In-map_inv, In-append_left, In-append_right,
  In-append_cases, NoDup, NoDup-append, keep, Map, lookup, In-lookup, lookup-In, map, List, [], ◌∷◌,
  ◌++◌, Bool, true, not, none, some, All, ◌≡◌, refl, ◌∙◌, sym, ap, subst, ◌⊎◌, ◌↔◌, inl, inr,
  Bool-cases,
}
use congee.Nostr.Event.{Event}
use congee.Relay.Query.{sort_events, merge_search, merge_page_events}
use congee.Relay.Query.Sort.{ids, IsPage, In-sort_events, sort_events-NoDup}
use congee.Relay.Query.Search.{Searched, absent, merge_search-Searched}

-- The entries that pass a test, as events.
abbrev passing : (Text × Event → Bool) → Map Event → List Event
passing p page = map (λ e. e.1) (keep p page)

In-passing :
    (p : Text × Event → Bool) (page : Map Event) (ev : Event)
    → IsPage page
    → In ev (passing p page) ↔ ((lookup ev.id page ≡ some ev) × (p (ev.id, ev) ≡ true))
In-passing p page ev h = (
  λ i. to i,
  λ (e, q).
      In-map (λ (x : Text × Event). x.1) (ev.id, ev) (keep p page)
        ((In-keep p (ev.id, ev) page).1 (In-lookup page ev.id ev e, q)),
)
  where
    own :
        (page : Map Event)
        → All (λ e. e.1.id ≡ e.0) page
        → (x : Text × Event) → In x page
        → x.1.id ≡ x.0
    own [] k x i = absurd i
    own (y ∷ page) k x (inl e) = subst (λ (z : Text × Event). z.1.id ≡ z.0) e k.0
    own (y ∷ page) k x (inr i) = own page k.1 x i

    to : In ev (passing p page) → (lookup ev.id page ≡ some ev) × (p (ev.id, ev) ≡ true)
    to i =
        let (x, j, e) = In-map_inv (λ (x : Text × Event). x.1) ev (keep p page) i in
        let (k, q) = (In-keep p x page).0 j in
        let same : x.0 ≡ ev.id = sym (own page h.keyed x k) ∙ ap (λ (a : Event). a.id) e in
        let pair : x ≡ (ev.id, ev) = λ t. (same t, e t) in
        (
          lookup-In page ev.id ev h.distinct (subst (λ z. In z page) pair k),
          subst (λ z. p z ≡ true) pair q,
        )

passing-NoDup :
    (p : Text × Event → Bool) (page : Map Event) → IsPage page → NoDup (ids (passing p page))
passing-NoDup p [] h = tt
passing-NoDup p ((k, e) ∷ page) h = elim (Bool-cases (p (k, e))) [
  | inl q ↦ rw q (
    λ i.
        let (a, j, same) = In-map_inv (λ (x : Event). x.id) e.id (passing p page) i in
        let found = ((In-passing p page a rest).0 j).0 in
        cc (subst (λ t. lookup t page ≡ none) (sym (same ∙ h.keyed.0)) h.distinct.0, found),
    passing-NoDup p page rest,
  )
  | inr q ↦ rw q (passing-NoDup p page rest)
]
  where
    rest : IsPage page
    rest = record { distinct = h.distinct.1; keyed = h.keyed.1 }

-- What the merge of a page answers: its events, and the ids that are seen from then on.
pub record Merged (page : Map Event) (seen : List Text) (r : List Event × List Text) : Type 0 where
  pub exact : (ev : Event) → In ev r.0 ↔ ((lookup ev.id page ≡ some ev) × (¬ In ev.id seen))
  pub once : NoDup (ids r.0)
  pub noted : (t : Text) → In t r.1 ↔ (In t seen ⊎ In t (ids r.0))

pub ids-append : (xs ys : List Event) → ids (xs ++ ys) ≡ ids xs ++ ids ys
ids-append [] ys = refl
ids-append (x ∷ xs) ys = ap (◌∷◌ x.id) (ids-append xs ys)

pub In-ids_append :
    (t : Text) (xs ys : List Event) → In t (ids (xs ++ ys)) ↔ (In t (ids xs) ⊎ In t (ids ys))
In-ids_append t xs ys = rw ids-append (
  In-append_cases t (ids xs) (ids ys),
  λ i. elim i [
    | inl l ↦ In-append_left t (ids xs) (ids ys) l
    | inr r ↦ In-append_right t (ids xs) (ids ys) r
  ],
)

unseen_iff :
    (seen : List Text) (e : Text × Event) → (not (mem_text e.0 seen) ≡ true) ↔ (¬ In e.0 seen)
unseen_iff seen e = (
  λ h i. cc ((mem_text_iff e.0 seen).1 i),
  λ n. elim (Bool-cases (mem_text e.0 seen)) [
    | inl m ↦ absurd (n ((mem_text_iff e.0 seen).0 m))
    | inr m ↦ rw m
  ],
)

-- The two parts of a merge together.
module _ (page : Map Event) (seen : List Text) (found : List Event × List Text) (rest : List Event)
    (s : Searched page seen found)
    (In-rest : (ev : Event)
      → In ev rest ↔ ((lookup ev.id page ≡ some ev) × (¬ In ev.id found.1))) where
  joined : List Event × List Text
  joined = (found.0 ++ rest, ids rest ++ found.1)

  -- An event of the page whose id was found by the search is the one that was found.
  was_found : (ev : Event) → lookup ev.id page ≡ some ev → In ev.id (ids found.0) → In ev found.0
  was_found ev e i =
      let (a, j, p) = In-map_inv (λ (x : Event). x.id) ev.id found.0 i in
      let q : lookup ev.id page ≡ some a =
        subst (λ t. lookup t page ≡ some a) p (s.from_page a j).0 in
      let same : a ≡ ev = cc in subst (λ x. In x found.0) same j

  joined-exact : (ev : Event) → In ev joined.0 ↔ ((lookup ev.id page ≡ some ev) × (¬ In ev.id seen))
  unfolding joined
  joined-exact ev = (
    λ i. elim (In-append_cases ev found.0 rest i) [
      | inl l ↦ s.from_page ev l
      | inr r ↦ let (e, n) = (In-rest ev).0 r in (e, λ j. n ((s.noted ev.id).1 (inl j)))
    ],
    λ (e, n). elim (Bool-cases (mem_text ev.id found.1)) [
      | inl m ↦ elim ((s.noted ev.id).0 ((mem_text_iff ev.id found.1).0 m)) [
        | inl j ↦ absurd (n j)
        | inr j ↦ In-append_left ev found.0 rest (was_found ev e j)
      ]
      | inr m ↦ In-append_right ev found.0 rest ((In-rest ev).1 (e, absent ev.id found.1 m))
    ],
  )

  joined-once : NoDup (ids rest) → NoDup (ids joined.0)
  unfolding joined
  joined-once d = rw ids-append (
      NoDup-append (ids found.0) (ids rest) s.once d λ t i j.
        let (a, k, p) = In-map_inv (λ (x : Event). x.id) t rest j in
        ((In-rest a).0 k).1 (subst (λ u. In u found.1) (sym p) ((s.noted t).1 (inr i))))

  joined-noted : (t : Text) → In t joined.1 ↔ (In t seen ⊎ In t (ids joined.0))
  unfolding joined
  joined-noted t = (
    λ i. elim (In-append_cases t (ids rest) found.1 i) [
      | inl l ↦ inr ((In-ids_append t found.0 rest).1 (inr l))
      | inr r ↦ elim ((s.noted t).0 r) [
        | inl old ↦ inl old
        | inr new ↦ inr ((In-ids_append t found.0 rest).1 (inl new))
      ]
    ],
    λ i. elim i [
      | inl old ↦ In-append_right t (ids rest) found.1 ((s.noted t).1 (inl old))
      | inr new ↦ elim ((In-ids_append t found.0 rest).0 new) [
        | inl l ↦ In-append_right t (ids rest) found.1 ((s.noted t).1 (inr l))
        | inr r ↦ In-append_left t (ids rest) found.1 r
      ]
    ],
  )

-- The events of a page that were not seen, each once: those of the search first, and every id of
-- them is seen from then on.
pub merge_page_events-Merged :
    (page : Map Event) (order seen : List Text)
    → IsPage page
    → Merged page seen (merge_page_events page order seen)
unfolding merge_page_events
merge_page_events-Merged page order seen h = record {
  exact = unfold joined in joined-exact page seen found rest s In-rest;
  once = unfold joined in joined-once page seen found rest s In-rest rest_once;
  noted = unfold joined in joined-noted page seen found rest s In-rest;
}
  where
    found : List Event × List Text
    found = merge_search page order seen

    s : Searched page seen found
    s = merge_search-Searched page order seen h

    unseen : Text × Event → Bool
    unseen e = not (mem_text e.0 found.1)

    rest : List Event
    rest = sort_events (passing unseen page)

    In-rest : (ev : Event) → In ev rest ↔ ((lookup ev.id page ≡ some ev) × (¬ In ev.id found.1))
    In-rest ev = (
      λ i.
          let (e, q) =
            (In-passing unseen page ev h).0 ((In-sort_events ev (passing unseen page)).0 i) in
          (e, (unseen_iff found.1 (ev.id, ev)).0 q),
      λ (e, n).
          (In-sort_events ev (passing unseen page)).1
            ((In-passing unseen page ev h).1 (e, (unseen_iff found.1 (ev.id, ev)).1 n)),
    )

    rest_once : NoDup (ids rest)
    rest_once = sort_events-NoDup (passing unseen page) (passing-NoDup unseen page h)
