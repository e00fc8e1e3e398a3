-- ===== src/Relay/Query/Sort.antt =====
-- The order of a page: sorting keeps what is there, and each id once.
use congee.Prelude.{
  Text, In, In-map, In-map_inv, NoDup, Map, Distinct, map, List, [], ◌∷◌, All, ◌≡◌, ◌∙◌, sym, ap,
  subst, ◌⊎◌, ◌↔◌, inl, inr, arith, Bool-cases,
}
use congee.Nostr.Event.{Event}
use congee.Relay.Query.{newer, insert_sorted, sort_events}

abbrev pub ids : List Event → List Text
ids = map (λ e. e.id)

-- A page holds each event under its own id, and no id twice.
pub record IsPage (page : Map Event) : Type 0 where
  pub distinct : Distinct page
  pub keyed : All (λ e. e.1.id ≡ e.0) page

In-insert_sorted : (a e : Event) (xs : List Event) → In a (insert_sorted e xs) ↔ ((e ≡ a) ⊎ In a xs)
unfolding insert_sorted
In-insert_sorted a e [] = (λ h. h, λ h. h)
In-insert_sorted a e (x ∷ xs) = elim (Bool-cases (newer x e)) [
  | inl n ↦ rw n (ground (arith, In-insert_sorted a e xs))
  | inr n ↦ rw n (λ h. h, λ h. h)
]

pub In-sort_events : (a : Event) (xs : List Event) → In a (sort_events xs) ↔ In a xs
unfolding sort_events
In-sort_events a [] = (λ h. h, λ h. h)
In-sort_events a (x ∷ xs) =
    ground (arith, In-insert_sorted a x (sort_events xs), In-sort_events a xs)

insert_sorted-NoDup :
    (e : Event) (xs : List Event)
    → ¬ In e.id (ids xs)
    → NoDup (ids xs)
    → NoDup (ids (insert_sorted e xs))
unfolding insert_sorted
insert_sorted-NoDup e [] n d = (n, tt)
insert_sorted-NoDup e (x ∷ xs) n d = elim (Bool-cases (newer x e)) [
  | inl q ↦ rw q (
    λ i.
        let (a, j, p) = In-map_inv (λ (e : Event). e.id) x.id (insert_sorted e xs) i in
        elim ((In-insert_sorted a e xs).0 j) [
          | inl same ↦ n (inl (sym p ∙ ap (λ (e : Event). e.id) (sym same)))
          | inr k ↦ d.0 (subst (λ t. In t (ids xs)) p (In-map (λ (e : Event). e.id) a xs k))
        ],
    insert_sorted-NoDup e xs (λ i. n (inr i)) d.1,
  )
  | inr q ↦ rw q (n, d)
]

pub sort_events-NoDup : (xs : List Event) → NoDup (ids xs) → NoDup (ids (sort_events xs))
unfolding sort_events
sort_events-NoDup [] d = tt
sort_events-NoDup (x ∷ xs) d =
    insert_sorted-NoDup x (sort_events xs)
      (λ i.
        let (a, j, p) = In-map_inv (λ (e : Event). e.id) x.id (sort_events xs) i in
        d.0 (
          subst (λ t. In t (ids xs)) p
            (In-map (λ (e : Event). e.id) a xs ((In-sort_events a xs).0 j))))
      (sort_events-NoDup xs d.1)
