-- ===== src/Prelude/Assoc.antt =====
-- Go maps with string keys, as association lists. A map is ranged over in the list's order.
use mathlib.Core.Path.{◌≡◌, refl, subst}
use mathlib.Core.Logic.{inl, inr}
use mathlib.Core.List.{List, [], ◌∷◌}
use mathlib.Core.Option.{Option, none, some}
use native.Mathlib.Omega.{arith}
use Prim.Native.Nat.{◌+◌, ◌≤◌}
use congee.Prelude.Tests.{if◌then◌else◌, is_some, Bool-cases}
use congee.Prelude.Lists.{length, All}
use congee.Prelude.Strings.{Text, ◌==◌, ==_iff}

abbrev pub Map {ℓ} : Type ℓ → Type ℓ
Map V = List (Text × V)

module _ {ℓ} {V : Type ℓ} where
  -- `v, ok := entries[name]`
  unfoldable pub lookup : Text → Map V → Option V
  lookup name [] = none
  lookup name (entry ∷ entries) = if entry.0 == name then some entry.1 else lookup name entries

  -- `entries[name] = value`
  unfoldable pub insert : Text → V → Map V → Map V
  insert name value [] = (name, value) ∷ []
  insert name value (entry ∷ entries) =
      let rest = insert name value entries in
      if entry.0 == name then (name, value) ∷ entries else entry ∷ rest

  -- `delete(m, k)`
  unfoldable pub delete : Text → Map V → Map V
  delete k [] = []
  delete k ((j, w) ∷ m) = let rest = delete k m in if j == k then rest else (j, w) ∷ rest

  -- No key twice, as in every Go map.
  abbrev pub Distinct : Map V → Type ℓ
  Distinct [] = Unit
  Distinct ((k, v) ∷ m) = (lookup k m ≡ none) × Distinct m

  pub lookup-insert :
      (name other : Text) (value : V) (entries : Map V)
      → lookup other (insert name value entries)
        ≡ (if name == other then some value else lookup other entries)
  unfolding lookup insert
  lookup-insert name other value [] = refl
  lookup-insert name other value (entry ∷ entries) =
      let ih = lookup-insert name other value entries in
      ground (arith, ih, ==_iff entry.0 name, ==_iff entry.0 other, ==_iff name other)

  pub lookup-delete :
      (k j : Text) (m : Map V) → lookup j (delete k m) ≡ (if k == j then none else lookup j m)
  unfolding lookup delete
  lookup-delete k j [] = ground arith
  lookup-delete k j ((i, w) ∷ m) =
      ground (arith, ==_iff k j, ==_iff i k, ==_iff i j, lookup-delete k j m)

  pub length-insert :
      (k : Text) (v : V) (m : Map V)
      → length (insert k v m) ≡ (if is_some (lookup k m) then length m else length m + 1)
  unfolding lookup insert
  length-insert k v [] = ground arith
  length-insert k v ((j, w) ∷ m) = ground (arith, length-insert k v m)

  pub length-delete-le : (k : Text) (m : Map V) → length (delete k m) ≤ length m
  unfolding delete
  length-delete-le k [] = omega arith
  length-delete-le k ((j, w) ∷ m) = ground (arith, length-delete-le k m)

  pub All-insert {κ} :
      (P : Text × V → Type κ) (k : Text) (v : V) (m : Map V)
      → P (k, v)
      → All P m
      → All P (insert k v m)
  unfolding insert
  All-insert P k v [] p h = (p, tt)
  All-insert P k v ((j, w) ∷ m) p h = elim (Bool-cases (j == k)) [
    | inl e ↦ rw e (p, h.1)
    | inr e ↦ rw e (h.0, All-insert P k v m p h.1)
  ]

  pub All-delete {κ} : (P : Text × V → Type κ) (k : Text) (m : Map V) → All P m → All P (delete k m)
  unfolding delete
  All-delete P k [] h = tt
  All-delete P k ((j, w) ∷ m) h = elim (Bool-cases (j == k)) [
    | inl e ↦ rw e (All-delete P k m h.1)
    | inr e ↦ rw e (h.0, All-delete P k m h.1)
  ]

  pub All-lookup {κ} :
      (P : Text × V → Type κ) (k : Text) (m : Map V) {v : V}
      → lookup k m ≡ some v
      → All P m
      → P (k, v)
  unfolding lookup
  All-lookup P k [] e h = cc
  All-lookup P k ((j, w) ∷ m) {v} e h = elim (Bool-cases (j == k)) [
    | inl q ↦
        let p : P (k, w) = subst (λ x. P (x, w)) ((==_iff j k).0 q) h.0 in
        subst (λ x. P (k, x)) (ground arith) p
    | inr q ↦ All-lookup P k m (ground arith) h.1
  ]

  pub Distinct-insert : (k : Text) (v : V) (m : Map V) → Distinct m → Distinct (insert k v m)
  unfolding insert
  Distinct-insert k v [] d = (unfold lookup in refl, tt)
  Distinct-insert k v ((j, w) ∷ m) d = elim (Bool-cases (j == k)) [
    | inl e ↦ rw e (subst (λ x. lookup x m ≡ none) ((==_iff j k).0 e) d.0, d.1)
    | inr e ↦ rw e (
      ground (arith, lookup-insert k j v m, ==_iff j k, ==_iff k j, d.0),
      Distinct-insert k v m d.1,
    )
  ]

  pub Distinct-delete : (k : Text) (m : Map V) → Distinct m → Distinct (delete k m)
  unfolding delete
  Distinct-delete k [] d = tt
  Distinct-delete k ((j, w) ∷ m) d = elim (Bool-cases (j == k)) [
    | inl e ↦ rw e (Distinct-delete k m d.1)
    | inr e ↦
        rw e (
          ground (arith, lookup-delete k j m, ==_iff j k, ==_iff k j, d.0),
          Distinct-delete k m d.1,
        )
  ]
