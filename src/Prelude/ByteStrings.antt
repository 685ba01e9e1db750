-- ===== src/Prelude/ByteStrings.antt =====
-- Byte strings and texts. Both are lists of bytes: a text is its UTF-8 encoding, so that its length
-- is what `str::len` returns.
use Prim.Native.Nat.{ℕ}
use Prim.Native.Char.{code}
use Prim.Native.String.{String}
use mathlib.Core.Path.{◌≡◌, refl}
use mathlib.Core.Logic.{◌↔◌}
use mathlib.Core.Bool.{Bool, true, false, ◌&&◌}
use mathlib.Core.List.{List, [], ◌∷◌}
use native.Mathlib.Omega.{arith}
use pfe_development_of_a_mon.Prelude.Tests.{◌==◌}

abbrev pub Bytes : Type 0
Bytes = List ℕ

abbrev pub Text : Type 0
Text = List ℕ

-- The bytes of an ASCII literal.
abbrev pub text : String → Text
text String.[] = []
text (String.◌∷◌ c s) = code c ∷ text s

-- Equality of byte strings and of texts.
unfoldable pub same : Bytes → Bytes → Bool
same [] [] = true
same [] (y ∷ ys) = false
same (x ∷ xs) [] = false
same (x ∷ xs) (y ∷ ys) = (x == y) && same xs ys

pub same_refl : (a : Bytes) → same a a ≡ true
unfolding same
same_refl [] = refl
same_refl (x ∷ xs) = ground (arith, same_refl xs)

pub same→eq : (a b : Bytes) → same a b ≡ true → a ≡ b
unfolding same
same→eq [] [] h = refl
same→eq [] (y ∷ ys) h = cc
same→eq (x ∷ xs) [] h = cc
same→eq (x ∷ xs) (y ∷ ys) h = ground (arith, same→eq xs ys)

pub eq→same : (a b : Bytes) → a ≡ b → same a b ≡ true
eq→same a b h = rw h (same_refl b)

pub same_iff : (a b : Bytes) → (same a b ≡ true) ↔ (a ≡ b)
same_iff a b = (same→eq a b, eq→same a b)
