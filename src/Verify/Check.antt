-- ===== src/Verify/Check.antt =====
-- `verify_hash`, `verify_order` and `verify_req`. `some e` is a refusal for the reason `e`, `none`
-- an acceptance, and a failure is what `?` passes on.
use pfe_development_of_a_mon.Prelude.{
  Bool, not, Option, none, some, List, [], ◌∷◌, ◌&&◌, ◌||◌, Bytes, same, ltb, if◌then◌else◌, length,
  all, is_empty, Fallible, ok, err, ◌>>=◌,
}
use pfe_development_of_a_mon.Proto.Types.{
  PublicKey, root, Permissions, Order, add_user, add_master_node, add_node, edit_user,
  edit_master_node, edit_node, remove_user, remove_master_node, remove_node, change_node_config,
  update_public_key, set_config, remove_config, update_vote_weight, RequestType, order,
  RequestError, signature_error, long_parameter, permission_error, no_permission, invalid_entity,
  duplicate_entity, config_used, invalid_config,
}
use pfe_development_of_a_mon.Proto.External.{External, key_eq, contains}
use pfe_development_of_a_mon.Database.Tables.{Database}
use pfe_development_of_a_mon.Database.Users
use pfe_development_of_a_mon.Database.Users.{
  entity_with_pubkey_exists, master_with_pubkey_exists, config_exists,
}

abbrev pub Verdict : Type 0
Verdict = Fallible (Option RequestError)

abbrev pub accept : Verdict
accept = ok none

abbrev pub refuse : RequestError → Verdict
refuse e = ok (some e)

-- The shape `if … { return Ok(Some(e)) }` with the checks that follow it.
abbrev pub refuse_if : Bool → RequestError → Verdict → Verdict
refuse_if b e rest = if b then refuse e else rest

-- An early `return Ok(Some(e))` ends the checks.
abbrev pub and_then : Verdict → Verdict → Verdict
and_then first rest = do v ← first; elim v [ some e ↦ refuse e | none ↦ rest ]

module _ (x : External) where
  unfoldable pub verify_hash : Bytes → Bytes → Bool
  verify_hash raw_req hash = same (x.sha256 raw_req) hash

  -- A key that cannot be serialised names no entity.
  abbrev pub with_key : PublicKey → (Bytes → Verdict) → Verdict
  with_key publickey k = elim (x.public_key.to_vec publickey) [
    | ok pk ↦ k pk
    | err _ ↦ refuse invalid_entity
  ]

  abbrev pub is_new : Database → PublicKey → Verdict
  is_new db publickey =
      with_key publickey
        λ pk. do found ← entity_with_pubkey_exists db pk; refuse_if found duplicate_entity accept

  abbrev pub is_known : Database → PublicKey → Verdict
  is_known db publickey =
      with_key publickey λ pk. do
        found ← entity_with_pubkey_exists db pk
        refuse_if (not found) invalid_entity accept

  abbrev pub is_known_master : Database → PublicKey → Verdict
  is_known_master db publickey =
      with_key publickey λ pk. do
        found ← master_with_pubkey_exists db pk
        refuse_if (not found) invalid_entity accept

  -- The first `match` of `verify_order`: what the order is about.
  unfoldable pub check_entity : Database → Order → Verdict
  check_entity db (add_user name publickey perm) = is_new db publickey
  check_entity db (add_master_node name publickey) = is_new db publickey
  check_entity db (add_node name publickey) = is_new db publickey
  check_entity db (edit_user name publickey perm) = is_known db publickey
  check_entity db (remove_user publickey) = is_known db publickey
  check_entity db (edit_master_node name publickey) = is_known db publickey
  check_entity db (remove_master_node publickey) = is_known db publickey
  check_entity db (edit_node name publickey) = is_known db publickey
  check_entity db (remove_node publickey) = is_known db publickey
  check_entity db (update_public_key publickey new_publickey) = is_known db publickey
  check_entity db (change_node_config publickey name) = is_known db publickey
  check_entity db (update_vote_weight publickey weight) = is_known_master db publickey
  check_entity db (set_config name master node) =
      refuse_if (ltb 30 (length name)) long_parameter accept
  check_entity db (remove_config name) = do
    used ← Users.config_used db name
    refuse_if used config_used accept

  -- The second `match`: what the user may do.
  unfoldable pub check_authority : Database → Order → PublicKey → Permissions → Verdict
  check_authority db (add_user name publickey perm) user_pk perms =
      refuse_if (ltb 30 (length name)) long_parameter (
        refuse_if (not (contains perms root)) permission_error
          (refuse_if (is_empty perm) no_permission accept))
  check_authority db (add_master_node name publickey) user_pk perms =
      refuse_if (ltb 30 (length name)) long_parameter
        (refuse_if (not (contains perms root)) permission_error accept)
  check_authority db (add_node name publickey) user_pk perms =
      refuse_if (ltb 30 (length name)) long_parameter
        (refuse_if (not (contains perms root)) permission_error accept)
  check_authority db (edit_user name publickey perm) user_pk perms =
      refuse_if (ltb 30 (length name)) long_parameter (
        if key_eq user_pk publickey && not (contains perms root)
        then refuse_if (not (all (contains perms) perm)) permission_error accept
        else refuse_if (not (contains perms root)) permission_error accept)
  check_authority db (edit_master_node name publickey) user_pk perms =
      refuse_if (ltb 30 (length name)) long_parameter
        (refuse_if (not (contains perms root)) permission_error accept)
  check_authority db (edit_node name publickey) user_pk perms =
      refuse_if (ltb 30 (length name)) long_parameter
        (refuse_if (not (contains perms root)) permission_error accept)
  check_authority db (update_public_key publickey new_publickey) user_pk perms =
      refuse_if (not (key_eq user_pk publickey) || not (contains perms root)) permission_error
        accept
  check_authority db (update_vote_weight publickey weight) user_pk perms =
      refuse_if (not (contains perms root)) permission_error accept
  check_authority db (remove_user publickey) user_pk perms =
      refuse_if (not (contains perms root)) permission_error accept
  check_authority db (remove_master_node publickey) user_pk perms =
      refuse_if (not (contains perms root)) permission_error accept
  check_authority db (remove_node publickey) user_pk perms =
      refuse_if (not (contains perms root)) permission_error accept
  check_authority db (set_config name master node) user_pk perms =
      refuse_if (not (contains perms root)) permission_error accept
  check_authority db (remove_config name) user_pk perms =
      refuse_if (not (contains perms root)) permission_error accept
  check_authority db (change_node_config publickey name) user_pk perms =
      refuse_if (not (contains perms root)) permission_error
        (do found ← config_exists db name; refuse_if (not found) invalid_config accept)

  unfoldable pub verify_order : Database → Order → PublicKey → Permissions → Verdict
  unfolding check_entity check_authority
  verify_order db ord user_pk perms =
      and_then (check_entity db ord) (check_authority db ord user_pk perms)

  -- The loop of `verify_req` over the orders.
  unfoldable pub verify_orders : Database → List RequestType → PublicKey → Permissions → Verdict
  verify_orders db [] user_pk perms = accept
  verify_orders db (order ord ∷ req) user_pk perms =
      and_then (verify_order db ord user_pk perms) (verify_orders db req user_pk perms)

  unfoldable pub verify_req :
      Database → Bytes → List RequestType → PublicKey → Permissions → Bytes → Verdict
  unfolding verify_orders
  verify_req db raw_req req user_pk perms sig = do
    good ← x.verify user_pk raw_req sig
    if good then verify_orders db req user_pk perms else refuse signature_error
