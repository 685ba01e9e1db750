-- ===== src/Prelude/Lists.antt =====
-- Lists measured by native numbers, and the Boolean folds that the source writes as iterators.
use Prim.Native.Nat.{ℕ, zero, suc, ◌+◌}
use mathlib.Core.Path.{◌≡◌, refl}
use mathlib.Core.Logic.{◌⊎◌, ◌↔◌}
use mathlib.Core.Bool.{Bool, true, false, ◌&&◌, ◌||◌}
use mathlib.Core.Option.{Option, none, some}
use mathlib.Core.List.{List, [], ◌∷◌, ◌++◌}
use native.Mathlib.Omega.{arith}
use pfe_development_of_a_mon.Prelude.Tests.{if◌then◌else◌}

module _ {ℓ} {A : Type ℓ} where
  abbrev pub length : List A → ℕ
  length [] = 0
  length (x ∷ xs) = suc (length xs)

  abbrev pub is_empty : List A → Bool
  is_empty [] = true
  is_empty (x ∷ xs) = false

  abbrev pub replicate : ℕ → A → List A
  replicate zero a = []
  replicate (suc n) a = a ∷ replicate n a

  -- `Vec::retain`.
  abbrev pub retain : (A → Bool) → List A → List A
  retain p [] = []
  retain p (x ∷ xs) = if p x then x ∷ retain p xs else retain p xs

  -- `Iterator::any` and `Iterator::all`.
  abbrev pub any : (A → Bool) → List A → Bool
  any p [] = false
  any p (x ∷ xs) = p x || any p xs

  abbrev pub all : (A → Bool) → List A → Bool
  all p [] = true
  all p (x ∷ xs) = p x && all p xs

  -- The first element that passes a test.
  abbrev pub find : (A → Bool) → List A → Option A
  find p [] = none
  find p (x ∷ xs) = if p x then some x else find p xs

  abbrev pub count : (A → Bool) → List A → ℕ
  count p [] = 0
  count p (x ∷ xs) = if p x then suc (count p xs) else count p xs

  -- Every element has the property.
  abbrev pub All {κ} : (A → Type κ) → List A → Type κ
  All P [] = Unit
  All P (x ∷ xs) = P x × All P xs

  -- Some element has the property.
  abbrev pub Exists : (A → Type 0) → List A → Type 0
  Exists P [] = ⊥
  Exists P (x ∷ xs) = P x ⊎ Exists P xs

  pub All-append {κ} : (P : A → Type κ) (xs ys : List A) → All P xs → All P ys → All P (xs ++ ys)
  All-append P [] ys p q = q
  All-append P (x ∷ xs) ys p q = (p.0, All-append P xs ys p.1 q)

  pub length-append : (xs ys : List A) → length (xs ++ ys) ≡ length xs + length ys
  length-append [] ys = omega arith
  length-append (x ∷ xs) ys = omega (arith, length-append xs ys)

  pub any-append : (p : A → Bool) (xs ys : List A) → any p (xs ++ ys) ≡ (any p xs || any p ys)
  any-append p [] ys = refl
  any-append p (x ∷ xs) ys = ground (arith, any-append p xs ys)

  pub any-retain_not :
      (p q : A → Bool) (xs : List A)
      → ((x : A) → p x ≡ true → q x ≡ false)
      → any p (retain q xs) ≡ false
  any-retain_not p q [] h = refl
  any-retain_not p q (x ∷ xs) h = ground (arith, h x, any-retain_not p q xs h)

  -- `any` decides that some element passes the test.
  pub any_iff : (p : A → Bool) (xs : List A) → (any p xs ≡ true) ↔ Exists (λ x. p x ≡ true) xs
  any_iff p xs = (to p xs, from p xs)
    where
      to : (p : A → Bool) (xs : List A) → any p xs ≡ true → Exists (λ x. p x ≡ true) xs
      to p [] h = cc
      to p (x ∷ xs) h = ground (arith, to p xs)

      from : (p : A → Bool) (xs : List A) → Exists (λ x. p x ≡ true) xs → any p xs ≡ true
      from p [] h = absurd h
      from p (x ∷ xs) h = ground (arith, from p xs)
