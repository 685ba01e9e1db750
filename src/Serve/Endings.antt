-- ===== src/Serve/Endings.antt =====
-- How the rows end that are read in the order of their ids.
use pfe_development_of_a_mon.Prelude.{
  ◌≡◌, refl, ◌∙◌, ap, sym, true, List, [], ◌∷◌, ◌||◌, map, any, retain, ℤ, ltb_ℤ, eqb_ℤ, ◌≤ℤ◌,
  as_u64, arith, Bool, Bool-cases, inl, inr,
}
use pfe_development_of_a_mon.Database.Tables.{ChainRow}
use pfe_development_of_a_mon.Database.Chain.{insert_by_id, sort_by_id}
use pfe_development_of_a_mon.Serve.Batches.{EndsWith}
use pfe_development_of_a_mon.Replication.Stored.{UpTo}

abbrev pub is_id : ℤ → ChainRow → Bool
is_id m r = eqb_ℤ r.id m

-- The last row has this id.
abbrev pub Ends : ℤ → List ChainRow → Type 0
Ends m [] = ⊥
Ends m (r ∷ []) = r.id ≡ m
Ends m (r ∷ s ∷ rows) = Ends m (s ∷ rows)

Ends-cons : (m : ℤ) (r : ChainRow) (rows : List ChainRow) → Ends m rows → Ends m (r ∷ rows)
Ends-cons m r [] h = absurd h
Ends-cons m r (s ∷ rows) h = h

Ends-tail :
    (m : ℤ) (s : ChainRow) (rows : List ChainRow)
    → (any (is_id m) (s ∷ rows) ≡ true → Ends m (s ∷ rows))
    → any (is_id m) rows ≡ true
    → Ends m rows
Ends-tail m s [] h e = absurd cc
Ends-tail m s (r ∷ rows) h e = h (ground (arith, e))

-- The largest id of a sorted list stands at its end, and so it does behind an insertion.
Ends-insert :
    (m : ℤ) (r : ChainRow) (rows : List ChainRow)
    → r.id ≤ℤ m
    → UpTo m rows
    → (any (is_id m) rows ≡ true → Ends m rows)
    → any (is_id m) (r ∷ rows) ≡ true
    → Ends m (insert_by_id r rows)
Ends-insert m r [] le up h e = ground arith
Ends-insert m r (s ∷ rows) le up h e = elim (Bool-cases (ltb_ℤ s.id r.id)) [
  | inl lt ↦ elim (Bool-cases (any (is_id m) (r ∷ rows))) [
    | inl found ↦ rw lt (
        Ends-cons m s (insert_by_id r rows)
          (Ends-insert m r rows le up.1 (Ends-tail m s rows h) found))
    | inr missing ↦ absurd (ground (arith, up.0))
  ]
  | inr ge ↦ elim (Bool-cases (any (is_id m) (s ∷ rows))) [
    | inl found ↦ rw ge (h found)
    | inr missing ↦ absurd (ground (arith, up.0))
  ]
]

any-insert :
    (m : ℤ) (r : ChainRow) (rows : List ChainRow)
    → any (is_id m) (insert_by_id r rows) ≡ any (is_id m) (r ∷ rows)
any-insert m r [] = refl
any-insert m r (s ∷ rows) = ground (arith, any-insert m r rows)

insert-UpTo :
    (m : ℤ) (r : ChainRow) (rows : List ChainRow)
    → r.id ≤ℤ m
    → UpTo m rows
    → UpTo m (insert_by_id r rows)
insert-UpTo m r [] le up = (le, tt)
insert-UpTo m r (s ∷ rows) le up = elim (Bool-cases (ltb_ℤ s.id r.id)) [
  | inl lt ↦ rw lt (up.0, insert-UpTo m r rows le up.1)
  | inr ge ↦ rw ge (le, up)
]

sort-UpTo : (m : ℤ) (rows : List ChainRow) → UpTo m rows → UpTo m (sort_by_id rows)
sort-UpTo m [] up = tt
sort-UpTo m (r ∷ rows) up = insert-UpTo m r (sort_by_id rows) up.0 (sort-UpTo m rows up.1)

any-sort : (m : ℤ) (rows : List ChainRow) → any (is_id m) (sort_by_id rows) ≡ any (is_id m) rows
any-sort m [] = refl
any-sort m (r ∷ rows) =
    any-insert m r (sort_by_id rows) ∙ ap (λ b. is_id m r || b) (any-sort m rows)

pub Ends-sort :
    (m : ℤ) (rows : List ChainRow)
    → UpTo m rows
    → any (is_id m) rows ≡ true
    → Ends m (sort_by_id rows)
Ends-sort m [] up e = absurd cc
Ends-sort m (r ∷ rows) up e =
    Ends-insert m r (sort_by_id rows) up.0 (sort-UpTo m rows up.1)
      (λ f. Ends-sort m rows up.1 (sym (any-sort m rows) ∙ f))
      (ap (λ b. is_id m r || b) (any-sort m rows) ∙ e)

pub retain-UpTo :
    (h m : ℤ) (rows : List ChainRow) → UpTo m rows → UpTo m (retain (λ r. ltb_ℤ h r.id) rows)
retain-UpTo h m [] up = tt
retain-UpTo h m (r ∷ rows) up = elim (Bool-cases (ltb_ℤ h r.id)) [
  | inl lt ↦ rw lt (up.0, retain-UpTo h m rows up.1)
  | inr ge ↦ rw ge (retain-UpTo h m rows up.1)
]

pub any-retain :
    (h m : ℤ) (rows : List ChainRow)
    → ltb_ℤ h m ≡ true
    → any (is_id m) rows ≡ true
    → any (is_id m) (retain (λ r. ltb_ℤ h r.id) rows) ≡ true
any-retain h m [] lt e = e
any-retain h m (r ∷ rows) lt e = ground (arith, any-retain h m rows lt)

pub Ends-EndsWith :
    (m : ℤ) (rows : List ChainRow)
    → Ends m rows
    → EndsWith (as_u64 m) (map (λ r. (as_u64 r.id, r.contents)) rows)
Ends-EndsWith m [] h = h
Ends-EndsWith m (r ∷ []) h = ap as_u64 h
Ends-EndsWith m (r ∷ s ∷ rows) h = Ends-EndsWith m (s ∷ rows) h
