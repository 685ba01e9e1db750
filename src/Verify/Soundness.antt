-- ===== src/Verify/Soundness.antt =====
-- `verify_order` and `verify_req` accept exactly what is allowed.
use pfe_development_of_a_mon.Prelude.{
  ◌≡◌, ◌↔◌, refl, true, false, List, [], ◌∷◌, Bytes, Text, same, same_iff, any, any_iff, All, ok,
  err, Fallible-cases, arith, inl, inr, Bool-cases, if◌then◌else◌, row_not_found,
}
use pfe_development_of_a_mon.Proto.Types.{
  PublicKey, Permissions, Order, add_user, add_master_node, add_node, edit_user, edit_master_node,
  edit_node, remove_user, remove_master_node, remove_node, change_node_config, update_public_key,
  set_config, remove_config, update_vote_weight, RequestType, order, config_used,
}
use pfe_development_of_a_mon.Proto.External.{External, key_eq, key_eq→eq, key_eq_refl}
use pfe_development_of_a_mon.Database.Tables.{Config, Database}
use pfe_development_of_a_mon.Database.Users
use pfe_development_of_a_mon.Database.Users.{config_exists}
use pfe_development_of_a_mon.Verify.Check.{
  Verdict, accept, refuse, and_then, check_entity, check_authority, verify_order, verify_orders,
  verify_req,
}
use pfe_development_of_a_mon.Verify.Authority.{and_then-accept}
use pfe_development_of_a_mon.Verify.Acceptance.{
  IsAllowed, HasConfig, is_new_iff, is_known_iff, is_known_master_iff, find-first, find-any,
  Exists-congr,
}

and_then_iff :
    (first rest : Verdict) → (and_then first rest ≡ accept) ↔ ((first ≡ accept) × (rest ≡ accept))
and_then_iff first rest = (and_then-accept first rest, λ (e, f). rw (e, f))

key_eq_iff : (a b : PublicKey) → (key_eq a b ≡ true) ↔ (a ≡ b)
key_eq_iff a b = (key_eq→eq a b, λ e. rw e (key_eq_refl b))

module _ (db : Database) (name : Text) where
  HasConfig-iff : (config_exists db name ≡ ok true) ↔ HasConfig db name
  unfolding config_exists
  HasConfig-iff = ground (
    arith,
    find-first (λ (c : Config). same c.name name) db.configs,
    any_iff (λ (c : Config). same c.name name) db.configs,
    Exists-congr {P = λ (c : Config). same c.name name ≡ true} {Q = λ (c : Config). c.name ≡ name}
        (λ c. same_iff c.name name) db.configs,
  )

module _ (x : External) (db : Database) (user_pk : PublicKey) (perms : Permissions) where
  abbrev Decides : Order → Type 0
  Decides ord =
      ((check_entity x db ord ≡ accept) × (check_authority x db ord user_pk perms ≡ accept))
      ↔ IsAllowed x db user_pk perms ord

  checks_iff : (ord : Order) → Decides ord
  unfolding check_entity check_authority Users.config_used
  checks_iff (add_user name k perm) = ground (arith, is_new_iff x db k)
  checks_iff (add_master_node name k) = ground (arith, is_new_iff x db k)
  checks_iff (add_node name k) = ground (arith, is_new_iff x db k)
  checks_iff (edit_user name k perm) = ground (arith, is_known_iff x db k, key_eq_iff user_pk k)
  checks_iff (edit_master_node name k) = ground (arith, is_known_iff x db k)
  checks_iff (edit_node name k) = ground (arith, is_known_iff x db k)
  checks_iff (remove_user k) = ground (arith, is_known_iff x db k)
  checks_iff (remove_master_node k) = ground (arith, is_known_iff x db k)
  checks_iff (remove_node k) = ground (arith, is_known_iff x db k)
  checks_iff (change_node_config k name) =
      ground (arith, is_known_iff x db k, HasConfig-iff db name)
  checks_iff (update_public_key k new) = ground (arith, is_known_iff x db k, key_eq_iff user_pk k)
  checks_iff (set_config name master node) = ground arith
  checks_iff (remove_config name) = ground (arith, find-first (λ n. same n.conf name) db.nodes)
  checks_iff (update_vote_weight k weight) = ground (arith, is_known_master_iff x db k)

  -- An order is accepted exactly if it is allowed.
  pub verify_order_iff :
      (ord : Order)
      → (verify_order x db ord user_pk perms ≡ accept) ↔ IsAllowed x db user_pk perms ord
  unfolding verify_order
  verify_order_iff ord = ground (
    arith,
    and_then_iff (check_entity x db ord) (check_authority x db ord user_pk perms),
    checks_iff ord,
  )

module _ (x : External) (db : Database) (user_pk : PublicKey) (perms : Permissions) where
  -- The order of a request is allowed.
  abbrev pub IsAllowedRequest : RequestType → Type 0
  IsAllowedRequest (order ord) = IsAllowed x db user_pk perms ord

  verify_orders_iff :
      (req : List RequestType)
      → (verify_orders x db req user_pk perms ≡ accept) ↔ All IsAllowedRequest req
  unfolding verify_orders
  verify_orders_iff [] = (λ h. tt, λ h. refl)
  verify_orders_iff (order ord ∷ req) = ground (
    arith,
    and_then_iff (verify_order x db ord user_pk perms) (verify_orders x db req user_pk perms),
    verify_order_iff x db user_pk perms ord,
    verify_orders_iff req,
  )

  -- A request is accepted exactly if its signature is the user's and each of its orders is allowed
  -- in the tables as they stand before the request.
  pub verify_req_iff :
      (raw_req : Bytes) (req : List RequestType) (sig : Bytes)
      → (verify_req x db raw_req req user_pk perms sig ≡ accept)
        ↔ ((x.verify user_pk raw_req sig ≡ ok true) × All IsAllowedRequest req)
  unfolding verify_req
  verify_req_iff raw_req req sig = elim (Fallible-cases (x.verify user_pk raw_req sig)) [
    | inl (true, e) ↦ rw e (ground (arith, verify_orders_iff req))
    | inl (false, e) ↦ rw e (ground arith)
    | inr (f, e) ↦ rw e (ground arith)
  ]

-- The removal of a configuration is never accepted: where a node uses it the request is refused,
-- and where none does the look-up fails.
pub verify_order-remove_config :
    (x : External) (db : Database) (name : Text) (user_pk : PublicKey) (perms : Permissions)
    → verify_order x db (remove_config name) user_pk perms
      ≡ (if any (λ n. same n.conf name) db.nodes then refuse config_used else err row_not_found)
unfolding verify_order Users.config_used
verify_order-remove_config x db name user_pk perms =
    elim (Bool-cases (any (λ n. same n.conf name) db.nodes)) [
      | inl used ↦ rw ((find-first (λ n. same n.conf name) db.nodes).1 used) (rw used)
      | inr free ↦ rw ((find-any (λ n. same n.conf name) db.nodes).1 free) (rw free)
    ]
