-- ===== src/Plugin/Intercept/Hydrate.antt =====
-- The events that a plugin names, as `GetEventsByIDs` gives them.
use congee.Prelude.{
  Text, ==_iff, is_empty, mem_text, is_some, lookup, Map, keep, All, All-lookup, List, [], ◌∷◌,
  true, false, none, some, ◌≡◌, refl, sym, inl, inr, arith, Bool-cases, Option-cases,
}
use congee.Nostr.Event.{Event}
use congee.Relay.Query.Sort.{ids}
use congee.Plugin.Intercept.{unique_ids, in_order}

-- The ids that were seen and those that gave an event agree where there is an event.
Agree : Map Event → List Text → List Text → Type 0
Agree by_id got seen =
    (t : Text) → is_some (lookup t by_id) ≡ true → mem_text t got ≡ mem_text t seen

Agree-both :
    (by_id : Map Event) (got seen : List Text) (id : Text)
    → Agree by_id got seen
    → Agree by_id (id ∷ got) (id ∷ seen)
unfolding Agree
Agree-both by_id got seen id h t found = ground (arith, h t found)

Agree-missing :
    (by_id : Map Event) (got seen : List Text) (id : Text)
    → lookup id by_id ≡ none
    → Agree by_id got seen
    → Agree by_id got (id ∷ seen)
unfolding Agree
Agree-missing by_id got seen id e h t found = ground (arith, h t found, ==_iff id t)

named :
    (by_id : Map Event) (id : Text) (ev : Event)
    → lookup [] by_id ≡ none
    → lookup id by_id ≡ some ev
    → is_empty id ≡ false
named by_id [] ev blank e = cc
named by_id (x ∷ id) ev blank e = refl

Agree-nothing : (by_id : Map Event) → Agree by_id [] []
unfolding Agree
Agree-nothing by_id t found = refl

in_order-from :
    (by_id : Map Event) (wanted got seen : List Text)
    → All (λ e. e.1.id ≡ e.0) by_id
    → lookup [] by_id ≡ none
    → Agree by_id got seen
    → ids (in_order by_id wanted got)
      ≡ keep (λ id. is_some (lookup id by_id)) (unique_ids wanted seen)
unfolding in_order unique_ids Agree
in_order-from by_id [] got seen keyed blank h = refl
in_order-from by_id (id ∷ wanted) got seen keyed blank h = elim (Option-cases (lookup id by_id)) [
  | inl e ↦
      let same = in_order-from by_id wanted got seen keyed blank h in
      let more =
        in_order-from by_id wanted got (id ∷ seen) keyed blank
          (Agree-missing by_id got seen id e h) in
      rw (e, in_order) (ground (arith, same, more))
  | inr (ev, e) ↦
      let same = in_order-from by_id wanted got seen keyed blank h in
      let more =
        in_order-from by_id wanted (id ∷ got) (id ∷ seen) keyed blank
          (Agree-both by_id got seen id h) in
      let own = All-lookup _ id by_id e keyed in
      let agree = h id (rw e refl) in
      rw (e, in_order, named by_id id ev blank e, sym agree)
        (elim (Bool-cases (mem_text id got)) [
          | inl again ↦ rw again same
          | inr first ↦ rw (first, e) (ap2 own more)
        ])
]
  where
    ap2 : {a b : Text} {xs ys : List Text} → a ≡ b → xs ≡ ys → (a ∷ xs) ≡ (b ∷ ys)
    ap2 p q = cc

-- From the events that a query gave under their ids, none of them under the empty id, the result
-- has, in the order in which the ids were asked for, each id once that has an event.
pub in_order-ids :
    (by_id : Map Event) (wanted : List Text)
    → All (λ e. e.1.id ≡ e.0) by_id
    → lookup [] by_id ≡ none
    → ids (in_order by_id wanted []) ≡ keep (λ id. is_some (lookup id by_id)) (unique_ids wanted [])
in_order-ids by_id wanted keyed blank =
    in_order-from by_id wanted [] [] keyed blank (Agree-nothing by_id)
