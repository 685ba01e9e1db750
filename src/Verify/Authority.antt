-- ===== src/Verify/Authority.antt =====
-- Who may order what: what the second `match` of `verify_order` guards.
use pfe_development_of_a_mon.Prelude.{◌≡◌, refl, true, false, none, some, Text, all, ok, err, arith}
use pfe_development_of_a_mon.Proto.Types.{
  PublicKey, root, Permissions, Order, add_user, add_master_node, add_node, edit_user,
  edit_master_node, edit_node, remove_user, remove_master_node, remove_node, change_node_config,
  update_public_key, set_config, remove_config, update_vote_weight,
}
use pfe_development_of_a_mon.Proto.External.{External, contains, key_eq→eq}
use pfe_development_of_a_mon.Database.Tables.{Database}
use pfe_development_of_a_mon.Verify.Check.{
  Verdict, accept, and_then, check_entity, check_authority, verify_order,
}

-- A chain of checks accepts only if both do.
pub and_then-accept :
    (first rest : Verdict) → and_then first rest ≡ accept → (first ≡ accept) × (rest ≡ accept)
and_then-accept (ok none) rest h = (refl, h)
and_then-accept (ok (some e)) rest h = cc
and_then-accept (err e) rest h = cc

-- The one order that is open to a user who lacks the root permission: editing their own entry, with
-- permissions that they hold.
pub record IsOwnEdit (user_pk : PublicKey) (perms : Permissions) (ord : Order) : Type 0 where
  pub name : Text
  pub perm : Permissions
  pub edits_own : ord ≡ edit_user name user_pk perm
  pub held : all (contains perms) perm ≡ true

module _ (x : External) (db : Database) (user_pk : PublicKey) (perms : Permissions)
    (plain : contains perms root ≡ false) where
  check_authority-IsOwnEdit :
      (ord : Order) → check_authority x db ord user_pk perms ≡ accept → IsOwnEdit user_pk perms ord
  unfolding check_authority
  check_authority-IsOwnEdit (add_user name publickey perm) h = absurd (ground arith)
  check_authority-IsOwnEdit (add_master_node name publickey) h = absurd (ground arith)
  check_authority-IsOwnEdit (add_node name publickey) h = absurd (ground arith)
  check_authority-IsOwnEdit (edit_user name publickey perm) h = record {
    name = name;
    perm = perm;
    edits_own = ground (arith, key_eq→eq user_pk publickey);
    held = ground arith;
  }
  check_authority-IsOwnEdit (edit_master_node name publickey) h = absurd (ground arith)
  check_authority-IsOwnEdit (edit_node name publickey) h = absurd (ground arith)
  check_authority-IsOwnEdit (remove_user publickey) h = absurd (ground arith)
  check_authority-IsOwnEdit (remove_master_node publickey) h = absurd (ground arith)
  check_authority-IsOwnEdit (remove_node publickey) h = absurd (ground arith)
  check_authority-IsOwnEdit (change_node_config publickey name) h = absurd (ground arith)
  check_authority-IsOwnEdit (update_public_key publickey new_publickey) h = absurd (ground arith)
  check_authority-IsOwnEdit (set_config name master node) h = absurd (ground arith)
  check_authority-IsOwnEdit (remove_config name) h = absurd (ground arith)
  check_authority-IsOwnEdit (update_vote_weight publickey weight) h = absurd (ground arith)

  -- Without the root permission no order is accepted but an edit of the user's own entry that grants
  -- no permission which the user lacks.
  pub verify_order-IsOwnEdit :
      (ord : Order) → verify_order x db ord user_pk perms ≡ accept → IsOwnEdit user_pk perms ord
  unfolding verify_order
  verify_order-IsOwnEdit ord h =
      check_authority-IsOwnEdit ord
        (and_then-accept (check_entity x db ord) (check_authority x db ord user_pk perms) h).1
