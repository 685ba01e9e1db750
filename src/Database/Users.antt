-- ===== src/Database/Users.antt =====
-- nyumt-proto/src/database/auth.rs and the statements of nyumt-proto/src/db_calls.rs on users and
-- nodes.
use pfe_development_of_a_mon.Prelude.{
  Bool, true, Option, none, some, ◌&&◌, ◌||◌, Bytes, Text, ℤ, same, leb, find, any, count, Fallible,
  ok, ◌>>=◌, ◌>>◌,
}
use pfe_development_of_a_mon.Proto.External.{External}
use pfe_development_of_a_mon.Database.Tables.{User, Node, Database, fetch_one}

-- `public_key = ?1 and active = true`.
abbrev pub is_user : Bytes → User → Bool
is_user pk u = same u.public_key pk && u.active

-- `public_key = ?1`.
abbrev pub is_node : Bytes → Node → Bool
is_node pk n = same n.public_key pk

-- `public_key = ?1 and master_node = true`.
abbrev pub is_master : Bytes → Node → Bool
is_master pk n = same n.public_key pk && n.master_node

-- `UserDetails`.
pub record UserDetails : Type 0 where
  pub name : Text
  pub permissions : Bytes
  pub last_access : ℤ

unfoldable pub user_with_pubkey_exists : Database → Bytes → Fallible Bool
user_with_pubkey_exists db pubkey = ok (leb 1 (count (is_user pubkey) db.users))

abbrev pub read_i64 : External → Option ℤ → Fallible ℤ
read_i64 x none = x.null_i64
read_i64 x (some t) = ok t

unfoldable pub get_user_with_pubkey : External → Database → Bytes → Fallible UserDetails
get_user_with_pubkey x db pubkey = do
  u ← fetch_one (find (is_user pubkey) db.users)
  t ← read_i64 x u.last_access
  ok (record { name = u.name; permissions = u.permissions; last_access = t })

-- `entity_with_pubkey_exists`: an active user or any node.
unfoldable pub entity_with_pubkey_exists : Database → Bytes → Fallible Bool
entity_with_pubkey_exists db pubkey =
    ok (any (is_user pubkey) db.users || any (is_node pubkey) db.nodes)

-- These four use `fetch_one`, which fails where no row matches.
unfoldable pub master_with_pubkey_exists : Database → Bytes → Fallible Bool
master_with_pubkey_exists db pubkey = do fetch_one (find (is_master pubkey) db.nodes); ok true

unfoldable pub node_with_pubkey_exists : Database → Bytes → Fallible Bool
node_with_pubkey_exists db pubkey = do fetch_one (find (is_node pubkey) db.nodes); ok true

unfoldable pub config_exists : Database → Text → Fallible Bool
config_exists db name = do fetch_one (find (λ c. same c.name name) db.configs); ok true

unfoldable pub config_used : Database → Text → Fallible Bool
config_used db name = do fetch_one (find (λ n. same n.conf name) db.nodes); ok true
