-- ===== src/Invariant/Orders.antt =====
-- The execution of a block keeps the keys.
use pfe_development_of_a_mon.Prelude.{
  refl, List, [], ◌∷◌, inl, inr, Fallible, ok, err, ◌>>=◌, OnOk, OnOk_elim, Fallible-cases, none,
  some, true, false,
}
use pfe_development_of_a_mon.Proto.Types.{
  Order, add_user, add_master_node, add_node, edit_user, edit_master_node, edit_node, remove_user,
  remove_master_node, remove_node, change_node_config, update_public_key, set_config, remove_config,
  update_vote_weight, RequestType, order, Update,
}
use pfe_development_of_a_mon.Proto.External.{External}
use pfe_development_of_a_mon.Database.Tables.{Database}
use pfe_development_of_a_mon.Interpret.Execute.{interpret_order, interpret_orders, interpret_block}
use pfe_development_of_a_mon.Invariant.Distinct.{retain-Distinct, update-Distinct}
use pfe_development_of_a_mon.Invariant.Keys.{same_user, same_config, IsConsistent}
use pfe_development_of_a_mon.Invariant.Statements.{
  in_users, in_configs, update_nodes, insert_user-IsConsistent, insert_node-IsConsistent,
  upsert_config-IsConsistent,
}
use pfe_development_of_a_mon.Invariant.References.{delete_node-IsConsistent}

-- A property of what a chain returns holds if it holds behind each call.
OnOk-bind :
    {A B : Type 0} (P : B → Type 0) (m : Fallible A) (f : A → Fallible B)
    → ((a : A) → OnOk P (f a))
    → OnOk P (m >>= f)
OnOk-bind P (err e) f h = tt
OnOk-bind P (ok a) f h = h a

module _ (x : External) where
  abbrev Keeps : Update × Database → Type 0
  Keeps r = IsConsistent x r.1

  module _ (db : Database) (h : IsConsistent x db) where
    interpret_order-IsConsistent : (o : Order) → OnOk Keeps (interpret_order x db o)
    unfolding interpret_order
    interpret_order-IsConsistent (add_user name k perm) =
        OnOk-bind Keeps (x.public_key.to_vec k) _ λ pk.
          OnOk-bind Keeps (x.permissions.to_vec perm) _
            λ p. insert_user-IsConsistent x db h name pk p
    interpret_order-IsConsistent (add_master_node name k) =
        OnOk-bind Keeps (x.public_key.to_vec k) _
          λ pk. insert_node-IsConsistent x db h name pk true (some 1)
    interpret_order-IsConsistent (add_node name k) =
        OnOk-bind Keeps (x.public_key.to_vec k) _
          λ pk. insert_node-IsConsistent x db h name pk false none
    interpret_order-IsConsistent (edit_user name k perm) =
        OnOk-bind Keeps (x.permissions.to_vec perm) _ λ p.
          OnOk-bind Keeps (x.public_key.to_vec k) _ λ pk.
            in_users x db h _
              (update-Distinct same_user _ _ (λ a b. refl) (λ a b. refl) db.users h.users)
    interpret_order-IsConsistent (edit_master_node name k) =
        OnOk-bind Keeps (x.public_key.to_vec k) _ λ pk. update_nodes x db h _ _ (λ m. refl)
    interpret_order-IsConsistent (edit_node name k) =
        OnOk-bind Keeps (x.public_key.to_vec k) _ λ pk. update_nodes x db h _ _ (λ m. refl)
    interpret_order-IsConsistent (update_public_key k new) =
        OnOk-bind Keeps (x.public_key.to_vec new) _
          λ pk. OnOk-bind Keeps (x.public_key.to_vec k) _ λ p. tt
    interpret_order-IsConsistent (update_vote_weight k weight) =
        OnOk-bind Keeps (x.public_key.to_vec k) _ λ pk. update_nodes x db h _ _ (λ m. refl)
    interpret_order-IsConsistent (remove_user k) = OnOk-bind Keeps (x.public_key.to_vec k) _ λ pk.
        in_users x db h _
          (update-Distinct same_user _ _ (λ a b. refl) (λ a b. refl) db.users h.users)
    interpret_order-IsConsistent (remove_master_node k) =
        OnOk-bind Keeps (x.public_key.to_vec k) _ (delete_node-IsConsistent x db h)
    interpret_order-IsConsistent (remove_node k) =
        OnOk-bind Keeps (x.public_key.to_vec k) _ (delete_node-IsConsistent x db h)
    interpret_order-IsConsistent (set_config name m n) =
        OnOk-bind Keeps (x.master_config.to_vec m) _ λ mb.
          OnOk-bind Keeps (x.node_config.to_vec n) _
            λ nb. upsert_config-IsConsistent x db h name mb nb
    interpret_order-IsConsistent (remove_config name) =
        in_configs x db h _ (retain-Distinct same_config _ db.configs h.configs)
    interpret_order-IsConsistent (change_node_config k name) =
        OnOk-bind Keeps (x.public_key.to_vec k) _ λ pk. update_nodes x db h _ _ (λ m. refl)

  interpret_orders-IsConsistent :
      (reqs : List RequestType) (db : Database)
      → IsConsistent x db
      → OnOk (λ (r : List Update × Database). IsConsistent x r.1) (interpret_orders x db reqs)
  unfolding interpret_orders
  interpret_orders-IsConsistent [] db h = h
  interpret_orders-IsConsistent (order o ∷ reqs) db h =
      elim (Fallible-cases (interpret_order x db o)) [
        | inr (f, e) ↦ rw e tt
        | inl ((u, tx), e) ↦
            let kept = OnOk_elim _ _ (interpret_order-IsConsistent db h o) e in
            elim (Fallible-cases (interpret_orders x tx reqs)) [
              | inr (f, e') ↦ rw (e, e') tt
              | inl ((us, tx'), e') ↦
                  rw (e, e') (OnOk_elim _ _ (interpret_orders-IsConsistent reqs tx kept) e')
            ]
      ]

  pub interpret_block-IsConsistent :
      (db : Database) (reqs : List RequestType)
      → IsConsistent x db
      → IsConsistent x (interpret_block x db reqs).0
  unfolding interpret_block
  interpret_block-IsConsistent db reqs h = elim (Fallible-cases (interpret_orders x db reqs)) [
    | inr (f, e) ↦ rw (interpret_block, e) h
    | inl ((us, tx), e) ↦
        rw (interpret_block, e) (OnOk_elim _ _ (interpret_orders-IsConsistent reqs db h) e)
  ]
