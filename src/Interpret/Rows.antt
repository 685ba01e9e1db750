-- ===== src/Interpret/Rows.antt =====
-- What the statements do to the tests of the registry's view: rows added, renamed and gone.
use pfe_development_of_a_mon.Prelude.{
  ◌≡◌, Bool, true, false, not, List, ◌&&◌, ◌||◌, Bytes, Text, same, same_iff, any, inl, inr,
  Bool-cases, retain, arith,
}
use mathlib.Core.Path.{subst}
use pfe_development_of_a_mon.Database.Tables.{User, Node, Config}
use pfe_development_of_a_mon.Database.Users.{is_user, is_node, is_master}
use pfe_development_of_a_mon.Interpret.Execute.{update_where, keyed}
use pfe_development_of_a_mon.Interpret.Updates.{any-update_where, any-update_where_drop, any-retain}

module _ (a j : Bytes) where
  pub user_added : (u : Bool) → (u || (same a j && true || false)) ≡ (u || same a j)
  user_added u = ground arith

  pub node_added : (u : Bool) → (u || (same a j || false)) ≡ (u || same a j)
  node_added u = ground arith

  pub plain_node_added : (u : Bool) → (u || (same a j && false || false)) ≡ u
  plain_node_added u = ground arith

module _ (pk j : Bytes) where
  pub user_renamed :
      (f : User → User) (rows : List User)
      → ((u : User) → is_user j (f u) ≡ is_user j u)
      → any (is_user j) (update_where (keyed pk) f rows) ≡ any (is_user j) rows
  user_renamed f rows h = any-update_where (is_user j) (keyed pk) f rows h

  pub user_gone :
      (rows : List User)
      → any (is_user j) (update_where (keyed pk) (λ u. record u { active = false }) rows)
        ≡ (any (is_user j) rows && not (same pk j))
  user_gone rows =
      any-update_where_drop (is_user j) (keyed pk) _ (not (same pk j)) rows
        λ u. ground (arith, same_iff u.public_key pk, same_iff u.public_key j, same_iff pk j)

  pub node_gone :
      (rows : List Node)
      → any (is_node j) (retain (λ n. not (is_node pk n)) rows)
        ≡ (any (is_node j) rows && not (same pk j))
  node_gone rows =
      any-retain (is_node j) (is_node pk) (not (same pk j)) rows
        λ n. ground (arith, same_iff n.public_key pk, same_iff n.public_key j, same_iff pk j)

  pub master_gone :
      (rows : List Node)
      → any (is_master j) (retain (λ n. not (is_node pk n)) rows)
        ≡ (any (is_master j) rows && not (same pk j))
  master_gone rows =
      any-retain (is_master j) (is_node pk) (not (same pk j)) rows
        λ n. ground (arith, same_iff n.public_key pk, same_iff n.public_key j, same_iff pk j)

  pub config_gone :
      (rows : List Config)
      → any (λ (c : Config). same c.name j) (retain (λ (c : Config). not (same c.name pk)) rows)
        ≡ (any (λ (c : Config). same c.name j) rows && not (same pk j))
  config_gone rows =
      any-retain (λ (c : Config). same c.name j) (λ (c : Config). same c.name pk) (not (same pk j))
        rows λ c. ground (arith, same_iff c.name pk, same_iff c.name j, same_iff pk j)

pub already_set :
    (name j : Bytes) (rows : List Config)
    → any (λ (c : Config). same c.name name) rows ≡ true
    → any (λ (c : Config). same c.name j) rows
      ≡ (any (λ (c : Config). same c.name j) rows || same name j)
already_set name j rows e = elim (Bool-cases (same name j)) [
  | inl s ↦
      let found : any (λ (c : Config). same c.name j) rows ≡ true =
        subst (λ (n : Text). any (λ (c : Config). same c.name n) rows ≡ true)
          ((same_iff name j).0 s) e in
      ground arith
  | inr s ↦ rw s (ground arith)
]
