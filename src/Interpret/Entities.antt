-- ===== src/Interpret/Entities.antt =====
-- The orders about users and nodes implement their meaning on the view.
use pfe_development_of_a_mon.Prelude.{
  ◌≡◌, refl, Bytes, Text, any-append, inl, inr, Bool-cases, ok, ◌>>=◌, ℕ, Fallible-cases, OnOk, ◌∙◌,
}
use pfe_development_of_a_mon.Proto.Types.{
  PublicKey, Permissions, Order, add_user, add_master_node, add_node, edit_user, edit_master_node,
  edit_node, remove_user, remove_master_node, remove_node, change_node_config, update_vote_weight,
  Update,
}
use pfe_development_of_a_mon.Proto.External.{External}
use pfe_development_of_a_mon.Database.Tables.{Database}
use pfe_development_of_a_mon.Database.Users.{is_user, is_node, is_master}
use pfe_development_of_a_mon.Interpret.Execute.{delete_node, interpret_order}
use pfe_development_of_a_mon.Interpret.Registry.{
  Registry, view, apply, without_element, written, written-eq,
}
use pfe_development_of_a_mon.Interpret.Rows.{
  user_added, node_added, plain_node_added, user_renamed, user_gone, node_gone, master_gone,
}
use pfe_development_of_a_mon.Interpret.Updates.{any-update_where}

pub Registry_ext :
    (r s : Registry)
    → ((j : Bytes) → r.user_of j ≡ s.user_of j)
    → ((j : Bytes) → r.node_of j ≡ s.node_of j)
    → ((j : Bytes) → r.master_of j ≡ s.master_of j)
    → ((j : Text) → r.config_of j ≡ s.config_of j)
    → r ≡ s
Registry_ext r s u n m c = λ i. record {
  user_of = λ j. u j i;
  node_of = λ j. n j i;
  master_of = λ j. m j i;
  config_of = λ j. c j i;
}

-- An order about one key: it is enough to look at the case where the key is written.
pub key_step :
    (x : External) (k : PublicKey) (f : Bytes → Update × Database) (after : Bytes → Registry)
    → ((pk : Bytes) → view (f pk).1 ≡ after pk)
    → OnOk
        (λ (r : Update × Database). view r.1 ≡ after (written x k))
        (x.public_key.to_vec k >>= λ pk. ok (f pk))
key_step x k f after h = elim (Fallible-cases (x.public_key.to_vec k)) [
  | inl (pk, e) ↦ rw (written-eq x k e, e) (h pk)
  | inr (bad, e) ↦ rw e tt
]

module _ (x : External) (tx : Database) where
  -- If the order succeeds, the view has changed as the order says.
  abbrev pub Refines : Order → Type 0
  Refines ord =
      OnOk (λ (r : Update × Database). view r.1 ≡ apply x ord (view tx)) (interpret_order x tx ord)

  pub add_user-Refines :
      (name : Text) (k : PublicKey) (perm : Permissions) → Refines (add_user name k perm)
  unfolding interpret_order
  add_user-Refines name k perm = elim (Fallible-cases (x.public_key.to_vec k)) [
    | inr (f, e) ↦ rw e tt
    | inl (pk, e) ↦ elim (Fallible-cases (x.permissions.to_vec perm)) [
      | inr (f, e') ↦ rw (e, e') tt
      | inl (p, e') ↦
          rw (written-eq x k e, e, e')
            (Registry_ext _ _ (λ j. any-append (is_user j) tx.users _ ∙ user_added pk j _)
              (λ j. refl) (λ j. refl) (λ j. refl))
    ]
  ]

  pub add_master_node-Refines : (name : Text) (k : PublicKey) → Refines (add_master_node name k)
  unfolding interpret_order
  add_master_node-Refines name k = elim (Fallible-cases (x.public_key.to_vec k)) [
    | inr (f, e) ↦ rw e tt
    | inl (pk, e) ↦
        rw (written-eq x k e, e)
          (Registry_ext _ _ (λ j. refl) (λ j. any-append (is_node j) tx.nodes _ ∙ node_added pk j _)
            (λ j. any-append (is_master j) tx.nodes _ ∙ user_added pk j _) (λ j. refl))
  ]

  pub add_node-Refines : (name : Text) (k : PublicKey) → Refines (add_node name k)
  unfolding interpret_order
  add_node-Refines name k = elim (Fallible-cases (x.public_key.to_vec k)) [
    | inr (f, e) ↦ rw e tt
    | inl (pk, e) ↦
        rw (written-eq x k e, e)
          (Registry_ext _ _ (λ j. refl) (λ j. any-append (is_node j) tx.nodes _ ∙ node_added pk j _)
            (λ j. any-append (is_master j) tx.nodes _ ∙ plain_node_added pk j _) (λ j. refl))
  ]

  pub edit_user-Refines :
      (name : Text) (k : PublicKey) (perm : Permissions) → Refines (edit_user name k perm)
  unfolding interpret_order
  edit_user-Refines name k perm = elim (Fallible-cases (x.permissions.to_vec perm)) [
    | inr (f, e) ↦ rw e tt
    | inl (p, e) ↦ rw e (
        key_step x k _ (λ pk. view tx)
          λ pk.
            Registry_ext _ _ (λ j. user_renamed pk j _ tx.users (λ u. refl)) (λ j. refl) (λ j. refl)
              (λ j. refl))
  ]

  pub edit_master_node-Refines : (name : Text) (k : PublicKey) → Refines (edit_master_node name k)
  unfolding interpret_order
  edit_master_node-Refines name k =
      key_step x k _ (λ pk. view tx)
        λ pk.
          Registry_ext _ _ (λ j. refl)
            (λ j. any-update_where (is_node j) (is_master pk) _ tx.nodes (λ n. refl))
            (λ j. any-update_where (is_master j) (is_master pk) _ tx.nodes (λ n. refl)) (λ j. refl)

  pub edit_node-Refines : (name : Text) (k : PublicKey) → Refines (edit_node name k)
  unfolding interpret_order
  edit_node-Refines name k =
      key_step x k _ (λ pk. view tx)
        λ pk.
          Registry_ext _ _ (λ j. refl)
            (λ j. any-update_where (is_node j) (is_node pk) _ tx.nodes (λ n. refl))
            (λ j. any-update_where (is_master j) (is_node pk) _ tx.nodes (λ n. refl)) (λ j. refl)

  pub change_node_config-Refines :
      (k : PublicKey) (name : Text) → Refines (change_node_config k name)
  unfolding interpret_order
  change_node_config-Refines k name =
      key_step x k _ (λ pk. view tx)
        λ pk.
          Registry_ext _ _ (λ j. refl)
            (λ j. any-update_where (is_node j) (is_node pk) _ tx.nodes (λ n. refl))
            (λ j. any-update_where (is_master j) (is_node pk) _ tx.nodes (λ n. refl)) (λ j. refl)

  pub update_vote_weight-Refines :
      (k : PublicKey) (weight : ℕ) → Refines (update_vote_weight k weight)
  unfolding interpret_order
  update_vote_weight-Refines k weight =
      key_step x k _ (λ pk. view tx)
        λ pk.
          Registry_ext _ _ (λ j. refl)
            (λ j. any-update_where (is_node j) (is_master pk) _ tx.nodes (λ n. refl))
            (λ j. any-update_where (is_master j) (is_master pk) _ tx.nodes (λ n. refl)) (λ j. refl)

  pub remove_user-Refines : (k : PublicKey) → Refines (remove_user k)
  unfolding interpret_order
  remove_user-Refines k =
      key_step x k _ (λ pk. record (view tx) { user_of = without_element pk (view tx).user_of })
        λ pk. Registry_ext _ _ (λ j. user_gone pk j tx.users) (λ j. refl) (λ j. refl) (λ j. refl)

  abbrev no_node : Bytes → Registry
  no_node pk = record (view tx) {
    node_of = without_element pk (view tx).node_of;
    master_of = without_element pk (view tx).master_of;
  }

  view-delete_node : (pk : Bytes) → view (delete_node x tx pk) ≡ no_node pk
  view-delete_node pk = elim (Bool-cases x.foreign_keys) [
    | inl e ↦ rw e (
        Registry_ext _ (no_node pk) (λ j. refl) (λ j. node_gone pk j tx.nodes)
          (λ j. master_gone pk j tx.nodes) (λ j. refl))
    | inr e ↦ rw e (
        Registry_ext _ (no_node pk) (λ j. refl) (λ j. node_gone pk j tx.nodes)
          (λ j. master_gone pk j tx.nodes) (λ j. refl))
  ]

  pub remove_master_node-Refines : (k : PublicKey) → Refines (remove_master_node k)
  unfolding interpret_order
  remove_master_node-Refines k = key_step x k _ no_node view-delete_node

  pub remove_node-Refines : (k : PublicKey) → Refines (remove_node k)
  unfolding interpret_order
  remove_node-Refines k = key_step x k _ no_node view-delete_node
