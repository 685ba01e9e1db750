-- ===== src/Interpret/Updates.antt =====
-- How the statements' updates act on a test over the rows of a table.
use pfe_development_of_a_mon.Prelude.{
  ◌≡◌, refl, Bool, not, List, [], ◌∷◌, ◌&&◌, if◌then◌else◌, retain, any, arith,
}
use pfe_development_of_a_mon.Interpret.Execute.{update_where}

module _ {ℓ} {A : Type ℓ} (p q : A → Bool) where
  pub any-update_where :
      (f : A → A) (rows : List A)
      → ((a : A) → p (f a) ≡ p a)
      → any p (update_where q f rows) ≡ any p rows
  any-update_where f [] h = refl
  any-update_where f (a ∷ rows) h = ground (arith, h a, any-update_where f rows h)

  pub any-update_where_drop :
      (f : A → A) (c : Bool) (rows : List A)
      → ((a : A) → p (if q a then f a else a) ≡ (p a && c))
      → any p (update_where q f rows) ≡ (any p rows && c)
  any-update_where_drop f c [] h = refl
  any-update_where_drop f c (a ∷ rows) h = ground (arith, h a, any-update_where_drop f c rows h)

  pub any-retain :
      (c : Bool) (rows : List A)
      → ((a : A) → (not (q a) && p a) ≡ (p a && c))
      → any p (retain (λ a. not (q a)) rows) ≡ (any p rows && c)
  any-retain c [] h = refl
  any-retain c (a ∷ rows) h = ground (arith, h a, any-retain c rows h)
