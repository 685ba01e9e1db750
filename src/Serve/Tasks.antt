-- ===== src/Serve/Tasks.antt =====
-- What is taken out of a list of tasks, and what is put at its end.
use pfe_development_of_a_mon.Prelude.{
  ℕ, zero, suc, ◌+◌, count, Option-cases, ◌++◌, ◌≡◌, Bool, some, List, [], ◌∷◌, All, if◌then◌else◌,
  inl, inr, arith,
}
use mathlib.Core.Path.{subst}
use pfe_development_of_a_mon.Serve.Links.{take_at}

pub one_more {ℓ} :
    {A : Type ℓ} (p : A → Bool) (a : A) (rest : List A)
    → count p (rest ++ a ∷ []) ≡ count p rest + (if p a then 1 else 0)
one_more p a [] = ground arith
one_more p a (b ∷ rest) = ground (arith, one_more p a rest)

-- What is taken out has the property, and so has the rest.
pub take_at-All {ℓ κ} :
    {A : Type ℓ} (P : A → Type κ) (n : ℕ) (xs : List A) (v : A × List A)
    → take_at n xs ≡ some v
    → All P xs
    → P v.0 × All P v.1
unfolding take_at
take_at-All P n [] v e h = absurd cc
take_at-All P zero (x ∷ xs) v e h = let is : (x, xs) ≡ v = cc in subst (λ w. P w.0 × All P w.1) is h
take_at-All P (suc n) (x ∷ xs) v e h = elim (Option-cases (take_at n xs)) [
  | inl none' ↦ absurd (let p = rw (take_at, none') at e in cc)
  | inr (w, found) ↦
      let is : (w.0, x ∷ w.1) ≡ v = let p = rw (take_at, found) at e in cc in
      let rest = take_at-All P n xs w found h.1 in
      subst (λ u. P u.0 × All P u.1) is (rest.0, (h.0, rest.1))
]

pub take_at-count {ℓ} :
    {A : Type ℓ} (p : A → Bool) (n : ℕ) (xs : List A) (v : A × List A)
    → take_at n xs ≡ some v
    → count p xs ≡ count p v.1 + (if p v.0 then 1 else 0)
unfolding take_at
take_at-count p n [] v e = absurd cc
take_at-count p zero (x ∷ xs) v e =
    let is : (x, xs) ≡ v = cc in
    subst (λ w. count p (x ∷ xs) ≡ count p w.1 + (if p w.0 then 1 else 0)) is (ground arith)
take_at-count p (suc n) (x ∷ xs) v e = elim (Option-cases (take_at n xs)) [
  | inl none' ↦ absurd (let p = rw (take_at, none') at e in cc)
  | inr (w, found) ↦
      let is : (w.0, x ∷ w.1) ≡ v = let p = rw (take_at, found) at e in cc in
      subst (λ u. count p (x ∷ xs) ≡ count p u.1 + (if p u.0 then 1 else 0)) is
        (ground (arith, take_at-count p n xs w found))
]
