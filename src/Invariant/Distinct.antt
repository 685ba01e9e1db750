-- ===== src/Invariant/Distinct.antt =====
-- Lists in which no two elements clash, under the ways in which the statements change a table.
use pfe_development_of_a_mon.Prelude.{
  ◌∙◌, ℕ, ◌<◌, ◌≡◌, refl, Bool, false, List, [], ◌∷◌, ◌++◌, ◌==◌, map, retain, any, any-append,
  if◌then◌else◌, arith, Bool-cases, inl, inr,
}
use pfe_development_of_a_mon.Database.Tables.{max_of, next_id}
use pfe_development_of_a_mon.Interpret.Execute.{update_where}

module _ {ℓ} {A : Type ℓ} (clash : A → A → Bool) where
  abbrev pub Distinct : List A → Type 0
  Distinct [] = Unit
  Distinct (a ∷ rows) = (any (clash a) rows ≡ false) × Distinct rows

  pub append-Distinct :
      (a : A) (rows : List A)
      → Distinct rows
      → any (λ b. clash b a) rows ≡ false
      → Distinct (rows ++ a ∷ [])
  append-Distinct a [] h new = (refl, tt)
  append-Distinct a (b ∷ rows) h new = (
    any-append (clash b) rows (a ∷ []) ∙ ground (arith, h.0, new),
    append-Distinct a rows h.1 (ground (arith, new)),
  )

  any-retain-false :
      (p q : A → Bool) (rows : List A) → any p rows ≡ false → any p (retain q rows) ≡ false
  any-retain-false p q [] h = refl
  any-retain-false p q (a ∷ rows) h = ground (arith, any-retain-false p q rows)

  pub retain-Distinct : (q : A → Bool) (rows : List A) → Distinct rows → Distinct (retain q rows)
  retain-Distinct q [] h = tt
  retain-Distinct q (a ∷ rows) h = elim (Bool-cases (q a)) [
    | inl e ↦ rw e (any-retain-false (clash a) q rows h.0, retain-Distinct q rows h.1)
    | inr e ↦ rw e (retain-Distinct q rows h.1)
  ]

  module _ (p : A → Bool) (f : A → A) (left : (a b : A) → clash (f a) b ≡ clash a b)
      (right : (a b : A) → clash a (f b) ≡ clash a b) where
    any-update :
        (a : A) (rows : List A) → any (clash a) (update_where p f rows) ≡ any (clash a) rows
    any-update a [] = refl
    any-update a (b ∷ rows) = ground (arith, right a b, any-update a rows)

    any-update_head :
        (a : A) (rows : List A) → any (clash (if p a then f a else a)) rows ≡ any (clash a) rows
    any-update_head a [] = refl
    any-update_head a (b ∷ rows) = ground (arith, left a b, any-update_head a rows)

    -- An update that does not change what clashes.
    pub update-Distinct : (rows : List A) → Distinct rows → Distinct (update_where p f rows)
    update-Distinct [] h = tt
    update-Distinct (a ∷ rows) h = (
      any-update (if p a then f a else a) rows ∙ any-update_head a rows ∙ h.0,
      update-Distinct rows h.1,
    )

-- An id above the largest in use is new.
above_all : (k : ℕ) (ids : List ℕ) → max_of ids < k → any (λ i. i == k) ids ≡ false
above_all k [] h = refl
above_all k (i ∷ ids) h = ground (arith, above_all k ids)

pub next_id-new : (ids : List ℕ) → any (λ i. i == next_id ids) ids ≡ false
next_id-new ids = above_all (next_id ids) ids (omega arith)

pub any-map {ℓ} :
    {A : Type ℓ} (p : ℕ → Bool) (f : A → ℕ) (rows : List A)
    → any p (map f rows) ≡ any (λ a. p (f a)) rows
any-map p f [] = refl
any-map p f (a ∷ rows) = ground (arith, any-map p f rows)
