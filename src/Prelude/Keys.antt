-- ===== src/Prelude/Keys.antt =====
-- Lookups in a map against the places of its entries.
use mathlib.Core.Path.{◌≡◌, ap, subst}
use mathlib.Core.Logic.{◌≢◌, inl, inr}
use mathlib.Core.Option.{none, some}
use mathlib.Core.List.{[], ◌∷◌}
use native.Mathlib.Omega.{arith}
use congee.Prelude.Tests.{Bool-cases}
use congee.Prelude.Lists.{In}
use congee.Prelude.Strings.{Text, ◌==◌, ==_iff}
use congee.Prelude.Assoc.{Map, Distinct, lookup}

-- Entries of a map and what is looked up in it.
pub In-lookup : {V : Type 0} (m : Map V) (k : Text) (v : V) → lookup k m ≡ some v → In (k, v) m
unfolding lookup
In-lookup [] k v h = cc
In-lookup ((j, w) ∷ m) k v h = elim (Bool-cases (j == k)) [
  | inl q ↦
      let e : w ≡ v = ground arith in let p : j ≡ k = (==_iff j k).0 q in inl (λ i. (p i, e i))
  | inr q ↦ inr (In-lookup m k v (ground arith))
]

pub In-key : {V : Type 0} (m : Map V) (k : Text) (v : V) → In (k, v) m → lookup k m ≢ none
unfolding lookup
In-key [] k v i = absurd i
In-key {V} ((j, w) ∷ m) k v (inl e) =
    let p : j ≡ k = ap (λ (x : Text × V). x.0) e in ground (arith, ==_iff j k)
In-key ((j, w) ∷ m) k v (inr i) = ground (arith, In-key m k v i)

pub lookup-In :
    {V : Type 0} (m : Map V) (k : Text) (v : V) → Distinct m → In (k, v) m → lookup k m ≡ some v
unfolding lookup
lookup-In [] k v d i = absurd i
lookup-In {V} ((j, w) ∷ m) k v d (inl e) =
    let p : j ≡ k = ap (λ (x : Text × V). x.0) e in
    let q : w ≡ v = ap (λ (x : Text × V). x.1) e in ground (arith, ==_iff j k)
lookup-In ((j, w) ∷ m) k v d (inr i) = elim (Bool-cases (j == k)) [
  | inl q ↦ absurd (In-key m k v i (subst (λ t. lookup t m ≡ none) ((==_iff j k).0 q) d.0))
  | inr q ↦ rw q (lookup-In m k v d.1 i)
]
