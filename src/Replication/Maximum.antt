-- ===== src/Replication/Maximum.antt =====
-- The largest value of a column (nyumt-proto/src/database): all values are at most this one.
use pfe_development_of_a_mon.Prelude.{
  ◌≡◌, refl, sym, none, some, List, [], ◌∷◌, ℤ, pos, negsuc, ltb_ℤ, eqb_ℤ, ◌≤ℤ◌, as_u64, as_i64,
  i64_limit, ◌-◌, any, All, arith, inl, inr, Option-cases, true, Bool-cases,
}
use mathlib.Core.Path.{subst}
use pfe_development_of_a_mon.Database.Tables.{max_by}

module _ {A : Type 0} (key : A → ℤ) where
  -- No value lies above this one.
  abbrev pub AtMost : ℤ → List A → Type 0
  AtMost z rows = All (λ a. key a ≤ℤ z) rows

  pub AtMost-rise : (a b : ℤ) (rows : List A) → a ≤ℤ b → AtMost a rows → AtMost b rows
  AtMost-rise a b [] le h = tt
  AtMost-rise a b (r ∷ rows) le h = (ground (arith, h.0), AtMost-rise a b rows le h.1)

  -- Without a maximum there is no row.
  pub max_by-none : (rows : List A) → max_by key rows ≡ none → rows ≡ []
  max_by-none [] e = refl
  max_by-none (r ∷ rows) e = elim (Option-cases (max_by key rows)) [
    | inl n ↦ absurd (let p = rw n at e in cc)
    | inr (m, s) ↦ absurd (let p = rw s at e in cc)
  ]

  -- The maximum bounds all values, and is one of them.
  pub max_by-AtMost :
      (rows : List A) (i : ℤ)
      → max_by key rows ≡ some i
      → AtMost i rows × (any (λ r. eqb_ℤ (key r) i) rows ≡ true)
  max_by-AtMost [] i e = cc
  max_by-AtMost (r ∷ rows) i e = elim (Option-cases (max_by key rows)) [
    | inl n ↦
        let is : key r ≡ i = let p = rw n at e in cc in
        ((ground arith, subst (AtMost i) (sym (max_by-none rows n)) tt), ground arith)
    | inr (m, s) ↦ elim (Bool-cases (ltb_ℤ m (key r))) [
      | inl b ↦
          let is : key r ≡ i = let p = rw (s, b) at e in cc in
          let (below, one) = max_by-AtMost rows m s in
          ((ground arith, AtMost-rise m i rows (ground arith) below), ground arith)
      | inr b ↦
          let is : m ≡ i = let p = rw (s, b) at e in cc in
          let (below, one) = max_by-AtMost rows m s in
          let found : any (λ (q : A). eqb_ℤ (key q) i) rows ≡ true =
            subst (λ (k : ℤ). any (λ (q : A). eqb_ℤ (key q) k) rows ≡ true) is one in
          ((ground arith, AtMost-rise m i rows (ground arith) below), ground (arith, found))
    ]
  ]

  -- The values of the column are `i64`.
  abbrev pub InRange : List A → Type 0
  InRange rows = AtMost (pos (i64_limit - 1)) rows

  in_range :
      (i : ℤ) (rows : List A)
      → InRange rows
      → any (λ r. eqb_ℤ (key r) i) rows ≡ true
      → i ≤ℤ pos (i64_limit - 1)
  in_range i [] h e = cc
  in_range i (r ∷ rows) h e = ground (arith, h.0, in_range i rows h.1)

  clamp : (i j : ℤ) → i ≤ℤ pos (i64_limit - 1) → as_i64 (as_u64 i) ≡ j → i ≤ℤ j
  clamp (pos n) j le e = rw (← e) (ground arith)
  clamp (negsuc n) j le e = rw (← e) (ground arith)

  -- So too behind the casts to `u64` and back.
  pub max_by-as_i64 :
      (rows : List A) (i : ℤ)
      → max_by key rows ≡ some i
      → InRange rows
      → AtMost (as_i64 (as_u64 i)) rows
  max_by-as_i64 rows i e fits =
      let (below, one) = max_by-AtMost rows i e in
      AtMost-rise i (as_i64 (as_u64 i)) rows (clamp i _ (in_range i rows fits one) refl) below
