-- ===== src/Prelude/Strings.antt =====
-- Go strings: sequences of bytes. What the source takes from the packages strings and hex.
use Prim.Native.Nat.{ℕ, ◌+◌, ◌%◌}
use Prim.Native.String.{String}
use Prim.Native.Char.{code}
use mathlib.Core.Path.{◌≡◌, refl}
use mathlib.Core.Logic.{◌↔◌}
use mathlib.Core.Bool.{Bool, true, false, ◌&&◌, ◌||◌}
use mathlib.Core.List.{List, [], ◌∷◌, map}
use native.Mathlib.Omega.{arith}
use congee.Prelude.Tests.{leb, ltb, eqb, if◌then◌else◌}
use congee.Prelude.Lists.{length, drop, all_of, any_of, In}

abbrev pub Text : Type 0
Text = List ℕ

-- The bytes of a literal, which is ASCII.
unfoldable pub bytes : String → Text
bytes String.[] = []
bytes (String.◌∷◌ c s) = code c ∷ bytes s

infix 50 ◌==◌
unfoldable pub ◌==◌ : Text → Text → Bool
[] == [] = true
[] == (y ∷ ys) = false
(x ∷ xs) == [] = false
(x ∷ xs) == (y ∷ ys) = eqb x y && xs == ys

pub ==_iff : (s t : Text) → ((s == t) ≡ true) ↔ (s ≡ t)
unfolding ◌==◌
==_iff [] [] = ground arith
==_iff [] (y ∷ ys) = ground arith
==_iff (x ∷ xs) [] = ground arith
==_iff (x ∷ xs) (y ∷ ys) = ground (arith, ==_iff xs ys)

pub ==_refl : (s : Text) → (s == s) ≡ true
==_refl s = (==_iff s s).1 refl

-- `slices.Contains`, and membership in a map that serves as a set.
abbrev pub mem_text : Text → List Text → Bool
mem_text s = any_of (λ t. t == s)

pub mem_text_iff : (s : Text) (l : List Text) → (mem_text s l ≡ true) ↔ In s l
mem_text_iff s [] = ground arith
mem_text_iff s (t ∷ l) = ground (arith, ==_iff t s, mem_text_iff s l)

-- `strings.HasPrefix` and `strings.TrimPrefix`.
unfoldable pub has_prefix : Text → Text → Bool
has_prefix s [] = true
has_prefix [] (p ∷ ps) = false
has_prefix (c ∷ s) (p ∷ ps) = eqb c p && has_prefix s ps

unfoldable pub trim_prefix : Text → Text → Text
unfolding has_prefix
trim_prefix s p = if has_prefix s p then drop (length p) s else s

-- `strings.ToLower` and `strings.EqualFold`, of the ASCII letters. The source applies them to
-- hexadecimal text, to command names and to host names.
unfoldable pub lower_byte : ℕ → ℕ
lower_byte c = if leb b'A' c && leb c b'Z' then c + 32 else c

unfoldable pub to_lower : Text → Text
unfolding lower_byte
to_lower = map lower_byte

unfoldable pub equal_fold : Text → Text → Bool
unfolding to_lower ◌==◌
equal_fold s t = to_lower s == to_lower t

-- `hex.DecodeString` succeeds: pairs of hexadecimal digits.
unfoldable pub is_hex_digit : ℕ → Bool
is_hex_digit c =
    (leb b'0' c && leb c b'9') || (leb b'a' c && leb c b'f') || (leb b'A' c && leb c b'F')

unfoldable pub is_hex : Text → Bool
unfolding is_hex_digit
is_hex s = eqb (length s % 2) 0 && all_of is_hex_digit s

-- `a < b` on strings.
unfoldable pub text_lt : Text → Text → Bool
text_lt s [] = false
text_lt [] (y ∷ t) = true
text_lt (x ∷ s) (y ∷ t) = ltb x y || (eqb x y && text_lt s t)
