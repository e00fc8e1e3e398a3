-- ===== src/Prelude/Trim.antt =====
-- strings.TrimSpace, on the bytes of a text: the white space of Unicode in its UTF-8 encoding.
use mathlib.Core.List.{[], ◌∷◌, reverse}
use mathlib.Core.Bool.{Bool, ◌&&◌, ◌||◌}
use Prim.Native.Nat.{ℕ, zero, suc, ◌-◌}
use congee.Prelude.Tests.{leb, eqb, if◌then◌else◌}
use congee.Prelude.Strings.{Text}

-- The white space of one byte, of two bytes and of three.
unfoldable pub is_space1 : ℕ → Bool
is_space1 c = (leb 9 c && leb c 13) || eqb c 32

unfoldable pub is_space2 : ℕ → ℕ → Bool
is_space2 c d = eqb c 0xc2 && (eqb d 0x85 || eqb d 0xa0)

unfoldable pub is_space3 : ℕ → ℕ → ℕ → Bool
is_space3 c d e =
    (eqb c 0xe1 && (eqb d 0x9a && eqb e 0x80))
    || (eqb c 0xe3 && (eqb d 0x80 && eqb e 0x80))
    || (eqb c 0xe2 && (eqb d 0x81 && eqb e 0x9f))
    || (eqb c 0xe2
        && (eqb d 0x80 && ((leb 0x80 e && leb e 0x8a) || eqb e 0xa8 || eqb e 0xa9 || eqb e 0xaf)))

-- How many bytes of white space a text begins with, 0 if its first character is none.
unfoldable pub space_ahead : Text → ℕ
unfolding is_space1 is_space2 is_space3
space_ahead [] = 0
space_ahead (c ∷ []) = if is_space1 c then 1 else 0
space_ahead (c ∷ d ∷ []) = if is_space1 c then 1 else if is_space2 c d then 2 else 0
space_ahead (c ∷ d ∷ e ∷ s) =
    if is_space1 c then 1 else if is_space2 c d then 2 else if is_space3 c d e then 3 else 0

-- The same for a reversed text.
unfoldable pub space_behind : Text → ℕ
unfolding is_space1 is_space2 is_space3
space_behind [] = 0
space_behind (c ∷ []) = if is_space1 c then 1 else 0
space_behind (c ∷ d ∷ []) = if is_space1 c then 1 else if is_space2 d c then 2 else 0
space_behind (c ∷ d ∷ e ∷ s) =
    if is_space1 c then 1 else if is_space2 d c then 2 else if is_space3 e d c then 3 else 0

-- Drops `skip` bytes, and then white space as long as `ahead` finds some.
unfoldable pub trim_from : (Text → ℕ) → ℕ → Text → Text
trim_from ahead skip [] = []
trim_from ahead (suc n) (c ∷ s) = trim_from ahead n s
trim_from ahead zero (c ∷ s) =
    let n = ahead (c ∷ s) in let rest = trim_from ahead (n - 1) s in if eqb n 0 then c ∷ s else rest

unfoldable pub trim_space : Text → Text
unfolding trim_from space_ahead space_behind
trim_space s = reverse (trim_from space_behind 0 (reverse (trim_from space_ahead 0 s)))
