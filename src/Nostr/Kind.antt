-- ===== src/Nostr/Kind.antt =====
-- internal/nostr/kinds.go: the storage classes of event kinds.
use congee.Prelude.{ℕ, ℤ, pos, leb_ℤ, ltb_ℤ, eqb_ℤ, Bool, true, false, ◌&&◌, ◌||◌, if◌then◌else◌}

pub data KindClass : Type 0 where
  regular replaceable ephemeral addressable : KindClass

abbrev between : ℕ → ℕ → ℤ → Bool
between lo hi k = leb_ℤ (pos lo) k && ltb_ℤ k (pos hi)

unfoldable pub classify_kind : ℤ → KindClass
classify_kind kind =
    if between 20000 30000 kind
    then ephemeral
    else if between 30000 40000 kind
    then addressable
    else if eqb_ℤ kind (pos 0) || (eqb_ℤ kind (pos 3) || between 10000 20000 kind)
    then replaceable
    else if eqb_ℤ kind (pos 1)
        || (eqb_ℤ kind (pos 2) || (between 4 45 kind || between 1000 10000 kind))
    then regular
    else regular

abbrev is_class : KindClass → KindClass → Bool
is_class regular regular = true
is_class replaceable replaceable = true
is_class ephemeral ephemeral = true
is_class addressable addressable = true
is_class _ _ = false

unfoldable pub is_regular : ℤ → Bool
unfolding classify_kind
is_regular kind = is_class (classify_kind kind) regular

unfoldable pub is_replaceable : ℤ → Bool
unfolding classify_kind
is_replaceable kind = is_class (classify_kind kind) replaceable

unfoldable pub is_ephemeral : ℤ → Bool
unfolding classify_kind
is_ephemeral kind = is_class (classify_kind kind) ephemeral

unfoldable pub is_addressable : ℤ → Bool
unfolding classify_kind
is_addressable kind = is_class (classify_kind kind) addressable
