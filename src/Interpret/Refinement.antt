-- ===== src/Interpret/Refinement.antt =====
-- The orders about configurations implement their meaning on the view, and so does a whole block.
use pfe_development_of_a_mon.Prelude.{
  ◌≡◌, refl, List, [], ◌∷◌, ◌||◌, Bytes, Text, same, any, any-append, inl, inr, Bool-cases, ok,
  Fallible-cases, OnOk, OnOk_elim, arith, ◌∙◌, ap,
}
use pfe_development_of_a_mon.Proto.Types.{
  PublicKey, MasterConfig, NodeConfig, Order, add_user, add_master_node, add_node, edit_user,
  edit_master_node, edit_node, remove_user, remove_master_node, remove_node, change_node_config,
  update_public_key, set_config, remove_config, update_vote_weight, RequestType, order, Update,
}
use pfe_development_of_a_mon.Proto.External.{External}
use pfe_development_of_a_mon.Database.Tables.{Config, Database}
use pfe_development_of_a_mon.Interpret.Execute.{
  upsert_config, interpret_order, interpret_orders, interpret_block,
}
use pfe_development_of_a_mon.Interpret.Registry.{view, apply_all, with_element}
use pfe_development_of_a_mon.Interpret.Rows.{node_added, config_gone, already_set}
use pfe_development_of_a_mon.Interpret.Updates.{any-update_where}
use pfe_development_of_a_mon.Interpret.Entities.{
  Refines, Registry_ext, add_user-Refines, add_master_node-Refines, add_node-Refines,
  edit_user-Refines, edit_master_node-Refines, edit_node-Refines, change_node_config-Refines,
  update_vote_weight-Refines, remove_user-Refines, remove_master_node-Refines, remove_node-Refines,
}

module _ (x : External) (tx : Database) where
  config_set :
      (name m n j : Bytes)
      → any (λ (c : Config). same c.name j) (upsert_config tx name m n).configs
        ≡ (any (λ (c : Config). same c.name j) tx.configs || same name j)
  config_set name m n j = elim (Bool-cases (any (λ (c : Config). same c.name name) tx.configs)) [
    | inl e ↦ rw e (
        any-update_where (λ (c : Config). same c.name j) (λ (c : Config). same c.name name) _
          tx.configs (λ c. refl)
        ∙ already_set name j tx.configs e)
    | inr e ↦ rw e (any-append (λ (c : Config). same c.name j) tx.configs _ ∙ node_added name j _)
  ]

  view-upsert_config :
      (name m n : Bytes)
      → view (upsert_config tx name m n)
        ≡ record (view tx) { config_of = with_element name (view tx).config_of }
  view-upsert_config name m n =
      elim (Bool-cases (any (λ (c : Config). same c.name name) tx.configs)) [
        | inl e ↦ Registry_ext _ _ (λ j. rw e) (λ j. rw e) (λ j. rw e) (config_set name m n)
        | inr e ↦ Registry_ext _ _ (λ j. rw e) (λ j. rw e) (λ j. rw e) (config_set name m n)
      ]

  set_config-Refines :
      (name : Text) (m : MasterConfig) (n : NodeConfig) → Refines x tx (set_config name m n)
  unfolding interpret_order
  set_config-Refines name m n = elim (Fallible-cases (x.master_config.to_vec m)) [
    | inr (f, e) ↦ rw e tt
    | inl (mb, e) ↦ elim (Fallible-cases (x.node_config.to_vec n)) [
      | inr (f, e') ↦ rw (e, e') tt
      | inl (nb, e') ↦ rw (e, e') (view-upsert_config name mb nb)
    ]
  ]

  remove_config-Refines : (name : Text) → Refines x tx (remove_config name)
  unfolding interpret_order
  remove_config-Refines name =
      Registry_ext _ _ (λ j. refl) (λ j. refl) (λ j. refl) (λ j. config_gone name j tx.configs)

  update_public_key-Refines : (k new : PublicKey) → Refines x tx (update_public_key k new)
  unfolding interpret_order
  update_public_key-Refines k new = elim (Fallible-cases (x.public_key.to_vec new)) [
    | inr (f, e) ↦ rw e tt
    | inl (nb, e) ↦ elim (Fallible-cases (x.public_key.to_vec k)) [
      | inr (f, e') ↦ rw (e, e') tt
      | inl (kb, e') ↦ rw (e, e') tt
    ]
  ]

  interpret_order-Refines : (ord : Order) → Refines x tx ord
  interpret_order-Refines (add_user name k perm) = add_user-Refines x tx name k perm
  interpret_order-Refines (add_master_node name k) = add_master_node-Refines x tx name k
  interpret_order-Refines (add_node name k) = add_node-Refines x tx name k
  interpret_order-Refines (edit_user name k perm) = edit_user-Refines x tx name k perm
  interpret_order-Refines (edit_master_node name k) = edit_master_node-Refines x tx name k
  interpret_order-Refines (edit_node name k) = edit_node-Refines x tx name k
  interpret_order-Refines (remove_user k) = remove_user-Refines x tx k
  interpret_order-Refines (remove_master_node k) = remove_master_node-Refines x tx k
  interpret_order-Refines (remove_node k) = remove_node-Refines x tx k
  interpret_order-Refines (change_node_config k name) = change_node_config-Refines x tx k name
  interpret_order-Refines (update_public_key k new) = update_public_key-Refines k new
  interpret_order-Refines (set_config name m n) = set_config-Refines name m n
  interpret_order-Refines (remove_config name) = remove_config-Refines name
  interpret_order-Refines (update_vote_weight k weight) = update_vote_weight-Refines x tx k weight

interpret_orders-Refines :
    (x : External) (reqs : List RequestType) (tx : Database)
    → OnOk
        (λ (r : List Update × Database). view r.1 ≡ apply_all x reqs (view tx))
        (interpret_orders x tx reqs)
unfolding interpret_orders
interpret_orders-Refines x [] tx = refl
interpret_orders-Refines x (order o ∷ reqs) tx = elim (Fallible-cases (interpret_order x tx o)) [
  | inr (f, e) ↦ rw e tt
  | inl ((u, tx'), e) ↦ elim (Fallible-cases (interpret_orders x tx' reqs)) [
    | inr (f, e') ↦ rw (e, e') tt
    | inl ((us, tx''), e') ↦
        rw (e, e')
          (OnOk_elim _ _ (interpret_orders-Refines x reqs tx') e'
            ∙ ap (apply_all x reqs) (OnOk_elim _ _ (interpret_order-Refines x tx o) e))
  ]
]

-- A block that is executed changes the registry of users, nodes, master nodes and configurations as
-- its orders say, one after the other.
pub interpret_block-Refines :
    (x : External) (db : Database) (reqs : List RequestType) (updates : List Update)
    → (interpret_block x db reqs).1 ≡ ok updates
    → view (interpret_block x db reqs).0 ≡ apply_all x reqs (view db)
unfolding interpret_block
interpret_block-Refines x db reqs updates h = elim (Fallible-cases (interpret_orders x db reqs)) [
  | inr (f, e) ↦ ground arith
  | inl ((us, tx), e) ↦
      rw (e, interpret_block) (OnOk_elim _ _ (interpret_orders-Refines x reqs db) e)
]
