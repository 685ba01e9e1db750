-- ===== src/Proto/External.antt =====
-- What the program takes from other crates: the derived borsh encodings, SHA-256, the signatures of
-- libp2p, and two settings of the SQLite driver. All of it is a parameter of the development.
use pfe_development_of_a_mon.Prelude.{
  Bool, true, false, List, Bytes, same, ◌≡◌, Fallible, ℤ, any, same→eq, same_refl,
}
use pfe_development_of_a_mon.Stats.Types.{Report}
use pfe_development_of_a_mon.Proto.Types.{
  PublicKey, ed25519, Permission, root, monitor, Permissions, MasterConfig, NodeConfig, RequestType,
  BodyData, Block,
}

-- `try_to_vec` and `try_from_slice` of a type.
pub record Codec (A : Type 0) : Type 0 where
  pub to_vec : A → Fallible Bytes
  pub from_slice : Bytes → Fallible A

-- `sha256`: the digest. `verify`: `PublicKey::verify_sig`, which fails on a key that cannot be
-- decoded. `null_i64`: what a NULL column reads as, where the row type has an `i64`.
-- `foreign_keys`: whether the connection enforces foreign keys.
pub record External : Type 0 where
  pub sha256 : Bytes → Bytes
  pub verify : PublicKey → Bytes → Bytes → Fallible Bool
  pub public_key : Codec PublicKey
  pub permissions : Codec Permissions
  pub master_config : Codec MasterConfig
  pub node_config : Codec NodeConfig
  pub requests : Codec (List RequestType)
  pub body_data : Codec BodyData
  pub block : Codec Block
  pub report : Codec Report
  pub null_i64 : Fallible ℤ
  pub foreign_keys : Bool

-- `derive(PartialEq)` of a key and of a permission.
abbrev pub key_eq : PublicKey → PublicKey → Bool
key_eq (ed25519 a) (ed25519 b) = same a b

abbrev pub permission_eq : Permission → Permission → Bool
permission_eq root root = true
permission_eq monitor monitor = true
permission_eq _ _ = false

-- `perms.0.contains(&p)`.
abbrev pub contains : Permissions → Permission → Bool
contains perms p = any (λ q. permission_eq q p) perms

pub key_eq→eq : (a b : PublicKey) → key_eq a b ≡ true → a ≡ b
key_eq→eq (ed25519 a) (ed25519 b) h = rw (same→eq a b h)

pub key_eq_refl : (a : PublicKey) → key_eq a a ≡ true
key_eq_refl (ed25519 a) = same_refl a
