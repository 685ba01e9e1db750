-- ===== src/Verify/Acceptance.antt =====
-- The checks against a description of what may be ordered, read off the rows.
use pfe_development_of_a_mon.Prelude.{
  ◌≤◌, ◌≡◌, ◌≢◌, ◌↔◌, ◌⊎◌, refl, Bool, true, false, none, List, [], ◌∷◌, ◌||◌, Bytes, Text,
  same_iff, length, all, any, any_iff, Exists, find, ok, err, Fallible, ◌>>◌, arith,
}
use pfe_development_of_a_mon.Proto.Types.{
  PublicKey, root, Permissions, Order, add_user, add_master_node, add_node, edit_user,
  edit_master_node, edit_node, remove_user, remove_master_node, remove_node, change_node_config,
  update_public_key, set_config, remove_config, update_vote_weight, invalid_entity,
}
use pfe_development_of_a_mon.Proto.External.{External, contains}
use pfe_development_of_a_mon.Database.Tables.{User, Node, Config, Database, fetch_one}
use pfe_development_of_a_mon.Database.Users.{
  is_user, is_node, is_master, entity_with_pubkey_exists, master_with_pubkey_exists,
}
use pfe_development_of_a_mon.Verify.Check.{
  Verdict, accept, refuse, is_new, is_known, is_known_master,
}

-- An active user or a node has the key.
abbrev pub IsEntity : Database → Bytes → Type 0
IsEntity db pk =
    Exists (λ (u : User). (u.public_key ≡ pk) × (u.active ≡ true)) db.users
    ⊎ Exists (λ (n : Node). n.public_key ≡ pk) db.nodes

abbrev pub IsMaster : Database → Bytes → Type 0
IsMaster db pk = Exists (λ (n : Node). (n.public_key ≡ pk) × (n.master_node ≡ true)) db.nodes

abbrev pub HasConfig : Database → Text → Type 0
HasConfig db name = Exists (λ (c : Config). c.name ≡ name) db.configs

abbrev pub IsShort : Text → Type 0
IsShort name = length name ≤ 30

-- The key is written, and what is written satisfies `P`.
abbrev pub Written : External → PublicKey → (Bytes → Type 0) → Type 0
Written x k P = (pk : Bytes) × (x.public_key.to_vec k ≡ ok pk) × P pk

-- What may be ordered. No removal of a configuration is accepted.
abbrev pub IsAllowed : External → Database → PublicKey → Permissions → Order → Type 0
IsAllowed x db user perms (add_user name k perm) =
    Written x k (λ pk. ¬ IsEntity db pk) × IsShort name × (contains perms root ≡ true) × (perm ≢ [])
IsAllowed x db user perms (add_master_node name k) =
    Written x k (λ pk. ¬ IsEntity db pk) × IsShort name × (contains perms root ≡ true)
IsAllowed x db user perms (add_node name k) =
    Written x k (λ pk. ¬ IsEntity db pk) × IsShort name × (contains perms root ≡ true)
IsAllowed x db user perms (edit_user name k perm) =
    Written x k (IsEntity db)
    × IsShort name
    × ((contains perms root ≡ true) ⊎ ((user ≡ k) × (all (contains perms) perm ≡ true)))
IsAllowed x db user perms (edit_master_node name k) =
    Written x k (IsEntity db) × IsShort name × (contains perms root ≡ true)
IsAllowed x db user perms (edit_node name k) =
    Written x k (IsEntity db) × IsShort name × (contains perms root ≡ true)
IsAllowed x db user perms (remove_user k) = Written x k (IsEntity db) × (contains perms root ≡ true)
IsAllowed x db user perms (remove_master_node k) =
    Written x k (IsEntity db) × (contains perms root ≡ true)
IsAllowed x db user perms (remove_node k) = Written x k (IsEntity db) × (contains perms root ≡ true)
IsAllowed x db user perms (change_node_config k name) =
    Written x k (IsEntity db) × (contains perms root ≡ true) × HasConfig db name
IsAllowed x db user perms (update_public_key k new) =
    Written x k (IsEntity db) × (user ≡ k) × (contains perms root ≡ true)
IsAllowed x db user perms (set_config name master node) =
    IsShort name × (contains perms root ≡ true)
IsAllowed x db user perms (remove_config name) = ⊥
IsAllowed x db user perms (update_vote_weight k weight) =
    Written x k (IsMaster db) × (contains perms root ≡ true)

module _ {ℓ} {A : Type ℓ} where
  pub find-any : (p : A → Bool) (xs : List A) → (find p xs ≡ none) ↔ (any p xs ≡ false)
  find-any p [] = (λ h. refl, λ h. refl)
  find-any p (y ∷ ys) = ground (arith, find-any p ys)

module _ {A : Type 0} {P Q : A → Type 0} (f : (a : A) → P a ↔ Q a) where
  pub Exists-congr : (xs : List A) → Exists P xs ↔ Exists Q xs
  Exists-congr [] = (λ h. h, λ h. h)
  Exists-congr (y ∷ ys) = ground (arith, f y, Exists-congr ys)

module _ (db : Database) (pk : Bytes) where
  IsEntity-iff : ((any (is_user pk) db.users || any (is_node pk) db.nodes) ≡ true) ↔ IsEntity db pk
  IsEntity-iff = ground (
    arith,
    any_iff (is_user pk) db.users,
    any_iff (is_node pk) db.nodes,
    Exists-congr {P = λ (u : User). is_user pk u ≡ true}
        {Q = λ (u : User). (u.public_key ≡ pk) × (u.active ≡ true)}
        (λ u. ground (arith, same_iff u.public_key pk)) db.users,
    Exists-congr {P = λ (n : Node). is_node pk n ≡ true} {Q = λ (n : Node). n.public_key ≡ pk}
        (λ n. same_iff n.public_key pk) db.nodes,
  )

-- A check on the written key accepts exactly if the key is written and what is written passes.
with_key_iff :
    (m : Fallible Bytes) (v : Bytes → Verdict) (P : Bytes → Type 0)
    → ((pk : Bytes) → (v pk ≡ accept) ↔ P pk)
    → (elim m [ ok pk ↦ v pk | err _ ↦ refuse invalid_entity ] ≡ accept)
      ↔ ((pk : Bytes) × (m ≡ ok pk) × P pk)
with_key_iff (ok pk) v P f =
    (λ h. (pk, refl, (f pk).0 h), λ (q, e, p). (f pk).1 (let eq : q ≡ pk = cc in rw eq at p))
with_key_iff (err e) v P f = (λ h. cc, λ (q, e, p). cc)

pub find-first {ℓ} :
    {A : Type ℓ} (p : A → Bool) (xs : List A)
    → ((do fetch_one (find p xs); ok true) ≡ ok true) ↔ (any p xs ≡ true)
find-first p [] = (λ h. cc, λ h. cc)
find-first p (y ∷ ys) = ground (arith, find-first p ys)

module _ (x : External) (db : Database) (k : PublicKey) where
  pub is_new_iff : (is_new x db k ≡ accept) ↔ Written x k (λ pk. ¬ IsEntity db pk)
  unfolding entity_with_pubkey_exists
  is_new_iff = with_key_iff (x.public_key.to_vec k) _ _ λ pk. ground (arith, IsEntity-iff db pk)

  pub is_known_iff : (is_known x db k ≡ accept) ↔ Written x k (IsEntity db)
  unfolding entity_with_pubkey_exists
  is_known_iff = with_key_iff (x.public_key.to_vec k) _ _ λ pk. ground (arith, IsEntity-iff db pk)

  pub is_known_master_iff : (is_known_master x db k ≡ accept) ↔ Written x k (IsMaster db)
  unfolding master_with_pubkey_exists
  is_known_master_iff = with_key_iff (x.public_key.to_vec k) _ _ λ pk. ground (
    arith,
    find-first (is_master pk) db.nodes,
    any_iff (is_master pk) db.nodes,
    Exists-congr {P = λ (n : Node). is_master pk n ≡ true}
        {Q = λ (n : Node). (n.public_key ≡ pk) × (n.master_node ≡ true)}
        (λ n. ground (arith, same_iff n.public_key pk)) db.nodes,
  )
