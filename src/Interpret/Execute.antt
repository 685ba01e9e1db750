-- ===== src/Interpret/Execute.antt =====
-- `interpret_order` and `interpret_block`. A transaction works on a copy of the tables, which replaces
-- them at the commit and is dropped on a failure.
use pfe_development_of_a_mon.Prelude.{
  ℕ, Bool, true, false, not, Option, none, some, List, [], ◌∷◌, ◌++◌, map, Bytes, Text, text, same,
  ◌==◌, if◌then◌else◌, retain, any, Fallible, ok, err, no_such_column, ◌>>=◌, ◌>>◌,
}
use pfe_development_of_a_mon.Proto.Types.{
  Order, add_user, add_master_node, add_node, edit_user, edit_master_node, edit_node, remove_user,
  remove_master_node, remove_node, change_node_config, update_public_key, set_config, remove_config,
  update_vote_weight, RequestType, order, Update, config_update, node_config_change,
  master_node_list_update, nothing,
}
use pfe_development_of_a_mon.Proto.External.{External}
use pfe_development_of_a_mon.Database.Tables.{User, Database, next_id}
use pfe_development_of_a_mon.Database.Users.{is_node, is_master}

-- `update … set … where …`.
abbrev pub update_where {ℓ} : {A : Type ℓ} → (A → Bool) → (A → A) → List A → List A
update_where p f [] = []
update_where p f (a ∷ as') = (if p a then f a else a) ∷ update_where p f as'

abbrev pub keyed : Bytes → User → Bool
keyed pk u = same u.public_key pk

abbrev pub insert_user : Database → Text → Bytes → Bytes → Database
insert_user db name pk perm = record db {
  users =
      db.users
      ++ record {
        id = next_id (map (λ u. u.id) db.users);
        name = name;
        public_key = pk;
        permissions = perm;
        active = true;
        last_access = none;
      }
        ∷ [];
}

abbrev pub insert_node : Database → Text → Bytes → Bool → Option ℕ → Database
insert_node db name pk master weight = record db {
  nodes =
      db.nodes
      ++ record {
        id = next_id (map (λ n. n.id) db.nodes);
        name = name;
        public_key = pk;
        master_node = master;
        conf = text "default";
        vote_weight = weight;
      }
        ∷ [];
}

abbrev pub points_to : List ℕ → Option ℕ → Bool
points_to ids none = false
points_to ids (some n) = any (λ i. i == n) ids

-- `delete from node where public_key = ?1`, and the cascade where foreign keys are enforced.
abbrev pub delete_node : External → Database → Bytes → Database
delete_node x db pk =
    let gone = map (λ n. n.id) (retain (is_node pk) db.nodes) in
    let kept = retain (λ n. not (is_node pk n)) db.nodes in
    if x.foreign_keys
    then record db {
      nodes = kept;
      peer_ids = retain (λ r. not (points_to gone r.node)) db.peer_ids;
      stats = retain (λ r. not (points_to gone r.node)) db.stats;
    }
    else record db { nodes = kept }

-- `insert into config … on conflict(name) do update`.
abbrev pub upsert_config : Database → Text → Bytes → Bytes → Database
upsert_config db name master node =
    if any (λ c. same c.name name) db.configs
    then record db {
      configs =
          update_where (λ c. same c.name name)
            (λ c. record c { master_conf = master; node_conf = node }) db.configs;
    }
    else record db {
      configs = db.configs ++ record { name = name; master_conf = master; node_conf = node } ∷ [];
    }

module _ (x : External) where
  unfoldable pub interpret_order : Database → Order → Fallible (Update × Database)
  interpret_order tx (add_user name publickey perm) = do
    pk ← x.public_key.to_vec publickey
    p ← x.permissions.to_vec perm
    ok (nothing, insert_user tx name pk p)
  interpret_order tx (add_master_node name publickey) = do
    pk ← x.public_key.to_vec publickey
    ok (master_node_list_update, insert_node tx name pk true (some 1))
  interpret_order tx (add_node name publickey) = do
    pk ← x.public_key.to_vec publickey
    ok (nothing, insert_node tx name pk false none)
  interpret_order tx (edit_user name publickey perm) = do
    p ← x.permissions.to_vec perm
    pk ← x.public_key.to_vec publickey
    ok (
      nothing,
      record tx {
        users = update_where (keyed pk) (λ u. record u { name = name; permissions = p }) tx.users;
      },
    )
  interpret_order tx (edit_master_node name publickey) = do
    pk ← x.public_key.to_vec publickey
    ok (
      master_node_list_update,
      record tx { nodes = update_where (is_master pk) (λ n. record n { name = name }) tx.nodes },
    )
  interpret_order tx (edit_node name publickey) = do
    pk ← x.public_key.to_vec publickey
    ok (
      nothing,
      record tx { nodes = update_where (is_node pk) (λ n. record n { name = name }) tx.nodes },
    )
  -- The statement sets a column `publickey`, which neither table has.
  interpret_order tx (update_public_key publickey new_publickey) = do
    x.public_key.to_vec new_publickey
    x.public_key.to_vec publickey
    err no_such_column
  interpret_order tx (update_vote_weight publickey weight) = do
    pk ← x.public_key.to_vec publickey
    ok (
      nothing,
      record tx {
        nodes = update_where (is_master pk) (λ n. record n { vote_weight = some weight }) tx.nodes;
      },
    )
  interpret_order tx (remove_user publickey) = do
    pk ← x.public_key.to_vec publickey
    ok (
      nothing,
      record tx { users = update_where (keyed pk) (λ u. record u { active = false }) tx.users },
    )
  interpret_order tx (remove_master_node publickey) = do
    pk ← x.public_key.to_vec publickey
    ok (master_node_list_update, delete_node x tx pk)
  interpret_order tx (remove_node publickey) = do
    pk ← x.public_key.to_vec publickey
    ok (nothing, delete_node x tx pk)
  interpret_order tx (set_config name master node) = do
    m ← x.master_config.to_vec master
    n ← x.node_config.to_vec node
    ok (config_update name master node, upsert_config tx name m n)
  interpret_order tx (remove_config name) =
      ok (nothing, record tx { configs = retain (λ c. not (same c.name name)) tx.configs })
  interpret_order tx (change_node_config publickey name) = do
    pk ← x.public_key.to_vec publickey
    ok (
      node_config_change publickey name,
      record tx { nodes = update_where (is_node pk) (λ n. record n { conf = name }) tx.nodes },
    )

  -- The loop over the requests inside the transaction.
  unfoldable pub interpret_orders : Database → List RequestType → Fallible (List Update × Database)
  interpret_orders tx [] = ok ([], tx)
  interpret_orders tx (order o ∷ reqs) = do
    (update, tx') ← interpret_order tx o
    (updates, tx'') ← interpret_orders tx' reqs
    ok (update ∷ updates, tx'')

  -- The tables after the call, and its result.
  unfoldable pub interpret_block : Database → List RequestType → Database × Fallible (List Update)
  unfolding interpret_orders
  interpret_block db reqs = elim (interpret_orders db reqs) [
    | ok (updates, tx) ↦ (tx, ok updates)
    | err e ↦ (db, err e)
  ]
