-- ===== src/Interpret/Blocks.antt =====
-- Which blocks are executed, and what they leave alone.
use pfe_development_of_a_mon.Prelude.{
  ◌⊎◌, ◌≡◌, refl, Bool, true, false, List, [], ◌∷◌, any, length, ap, ◌∙◌, inl, inr, ok, is_ok,
  Fallible-cases, OnOk, OnOk_elim, suc, arith,
}
use pfe_development_of_a_mon.Proto.Types.{
  Order, add_user, add_master_node, add_node, edit_user, edit_master_node, edit_node, remove_user,
  remove_master_node, remove_node, change_node_config, update_public_key, set_config, remove_config,
  update_vote_weight, RequestType, order, Update,
}
use pfe_development_of_a_mon.Proto.External.{External}
use pfe_development_of_a_mon.Database.Tables.{Database}
use pfe_development_of_a_mon.Interpret.Execute.{interpret_order, interpret_orders, interpret_block}

-- The order replaces a public key.
abbrev pub is_rotation : RequestType → Bool
is_rotation (order (update_public_key k new)) = true
is_rotation _ = false

module _ (x : External) (tx : Database) where
  abbrev KeepsChain : Order → Type 0
  KeepsChain ord = OnOk (λ (r : Update × Database). r.1.chain ≡ tx.chain) (interpret_order x tx ord)

  interpret_order-KeepsChain : (ord : Order) → KeepsChain ord
  unfolding interpret_order
  interpret_order-KeepsChain (add_user name k perm) = ground arith
  interpret_order-KeepsChain (add_master_node name k) = ground arith
  interpret_order-KeepsChain (add_node name k) = ground arith
  interpret_order-KeepsChain (edit_user name k perm) = ground arith
  interpret_order-KeepsChain (edit_master_node name k) = ground arith
  interpret_order-KeepsChain (edit_node name k) = ground arith
  interpret_order-KeepsChain (remove_user k) = ground arith
  interpret_order-KeepsChain (remove_master_node k) = ground arith
  interpret_order-KeepsChain (remove_node k) = ground arith
  interpret_order-KeepsChain (change_node_config k name) = ground arith
  interpret_order-KeepsChain (update_public_key k new) = ground arith
  interpret_order-KeepsChain (set_config name m n) = ground arith
  interpret_order-KeepsChain (remove_config name) = ground arith
  interpret_order-KeepsChain (update_vote_weight k weight) = ground arith

  interpret_order-rotation :
      (o : Order) → is_rotation (order o) ≡ true → is_ok (interpret_order x tx o) ≡ false
  unfolding interpret_order
  interpret_order-rotation (update_public_key k new) h = ground arith
  interpret_order-rotation _ h = cc

module _ (x : External) where
  interpret_orders-chain :
      (reqs : List RequestType) (tx : Database)
      → OnOk
          (λ (r : List Update × Database). (r.1.chain ≡ tx.chain) × (length r.0 ≡ length reqs))
          (interpret_orders x tx reqs)
  unfolding interpret_orders
  interpret_orders-chain [] tx = (refl, refl)
  interpret_orders-chain (order o ∷ reqs) tx = elim (Fallible-cases (interpret_order x tx o)) [
    | inr (f, e) ↦ rw e tt
    | inl ((u, tx'), e) ↦ elim (Fallible-cases (interpret_orders x tx' reqs)) [
      | inr (f, e') ↦ rw (e, e') tt
      | inl ((us, tx''), e') ↦
          let kept = OnOk_elim _ _ (interpret_order-KeepsChain x tx o) e in
          let rest = OnOk_elim _ _ (interpret_orders-chain reqs tx') e' in
          rw (e, e') (rest.0 ∙ kept, ap suc rest.1)
    ]
  ]

  interpret_orders-rotation :
      (reqs : List RequestType) (tx : Database)
      → any is_rotation reqs ≡ true
      → is_ok (interpret_orders x tx reqs) ≡ false
  unfolding interpret_orders
  interpret_orders-rotation [] tx h = cc
  interpret_orders-rotation (order o ∷ reqs) tx h = elim (Fallible-cases (interpret_order x tx o)) [
    | inr (f, e) ↦ rw e refl
    | inl ((u, tx'), e) ↦
        ground (arith, interpret_order-rotation x tx o, interpret_orders-rotation reqs tx')
  ]

-- A block never changes the chain, whether it is executed or fails; one that is executed yields one
-- update for each of its orders, and one that fails changes no table.
pub interpret_block_frame :
    (x : External) (db : Database) (reqs : List RequestType)
    → let (after, r) = interpret_block x db reqs in
      (after.chain ≡ db.chain)
      × (((updates : List Update) × (r ≡ ok updates) × (length updates ≡ length reqs))
          ⊎ ((is_ok r ≡ false) × (after ≡ db)))
unfolding interpret_block
interpret_block_frame x db reqs = elim (Fallible-cases (interpret_orders x db reqs)) [
  | inr (f, e) ↦ rw (e, interpret_block) (refl, inr (refl, refl))
  | inl ((us, tx), e) ↦
      let kept = OnOk_elim _ _ (interpret_orders-chain x reqs db) e in
      rw (e, interpret_block) (kept.0, inl (us, refl, kept.1))
]

-- A block that replaces a public key is never executed, wherever the order stands in it.
pub interpret_block-rotation :
    (x : External) (db : Database) (reqs : List RequestType)
    → any is_rotation reqs ≡ true
    → let (after, r) = interpret_block x db reqs in (is_ok r ≡ false) × (after ≡ db)
unfolding interpret_block
interpret_block-rotation x db reqs h = ground (arith, interpret_orders-rotation x reqs db)
