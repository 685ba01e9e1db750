-- ===== src/Client/Orders.antt =====
-- nyumt-client-core/src/order.rs: the requests that a client signs, and the sessions with whose keys
-- it does (storage.rs).
use pfe_development_of_a_mon.Prelude.{
  ℕ, zero, suc, Bool, List, [], ◌∷◌, if◌then◌else◌, Bytes, Text, text, same, Option, Fallible, ok,
  err, ◌>>=◌, refused,
}
use pfe_development_of_a_mon.Proto.Types.{
  PublicKey, ed25519, root, monitor, Permissions, MasterConfig, NodeConfig, Order, RequestType,
  order,
}
use pfe_development_of_a_mon.Proto.External.{External}
use pfe_development_of_a_mon.Proto.Keys.{parse_str}
use pfe_development_of_a_mon.Database.Tables.{Database}
use pfe_development_of_a_mon.Database.Nodes.{is_node_master}
use pfe_development_of_a_mon.Serve.Requests.{Request}
use pfe_development_of_a_mon.Client.Oids.{index}

-- `keys` is the pair of ed25519, 64 bytes.
pub record Session : Type 0 where
  pub name : Text
  pub host : Text
  pub keys : Bytes

abbrev pub drop {ℓ} : {A : Type ℓ} → ℕ → List A → List A
drop zero xs = xs
drop (suc n) [] = []
drop (suc n) (x ∷ xs) = drop n xs

-- `KeyPair::public`: the second half.
unfoldable pub public : Bytes → PublicKey
public keys = ed25519 (drop 32 keys)

-- What the client takes from other crates: the two functions of `base58`, and the signature of
-- libp2p, which fails where the pair cannot be decoded.
pub record Crates : Type 0 where
  pub to_base58 : Bytes → Text
  pub from_base58 : Text → Option Bytes
  pub sign : Bytes → Bytes → Fallible Bytes

unfoldable pub parse_perms : List Text → Fallible Permissions
parse_perms [] = ok []
parse_perms (perm ∷ permissions) =
    let rest = parse_perms permissions in
    if same perm (text "root")
    then (do perms ← rest; ok (root ∷ perms))
    else if same perm (text "monitor")
    then (do perms ← rest; ok (monitor ∷ perms))
    else err refused

module _ (x : External) (crates : Crates) (sessions : List Session) (session_id : ℕ) where
  unfoldable pub sign_order : Bytes → Fallible Bytes
  sign_order ser_order = do s ← index sessions session_id; crates.sign s.keys ser_order

  unfoldable pub pack_order : List RequestType → Fallible Request
  unfolding sign_order
  pack_order ord = do
    ser_order ← x.requests.to_vec ord
    sig ← sign_order ser_order
    ok (record { req = ord; sign = sig })

  abbrev pub pubkey_of : Text → Fallible PublicKey
  pubkey_of pk = parse_str crates.to_base58 crates.from_base58 pk

  unfoldable pub add_user : Text → Text → List Text → Fallible Request
  unfolding pack_order parse_perms
  add_user pk name permissions = do
    pubkey ← pubkey_of pk
    perms ← parse_perms permissions
    pack_order (order (Order.add_user name pubkey perms) ∷ [])

  unfoldable pub update_user : Text → Text → List Text → Fallible Request
  unfolding pack_order parse_perms
  update_user pk name permissions = do
    pubkey ← pubkey_of pk
    perms ← parse_perms permissions
    pack_order (order (Order.edit_user name pubkey perms) ∷ [])

  unfoldable pub remove_user : Text → Fallible Request
  unfolding pack_order
  remove_user pk = do pubkey ← pubkey_of pk; pack_order (order (Order.remove_user pubkey) ∷ [])

  unfoldable pub add_node : Text → Text → Bool → Fallible Request
  unfolding pack_order
  add_node pk name master = do
    pubkey ← pubkey_of pk
    pack_order (
        order (if master then Order.add_master_node name pubkey else Order.add_node name pubkey)
        ∷ [])

  -- Whether the key belongs to a master node is read in the client's own tables.
  unfoldable pub update_node : Database → Text → Text → Fallible Request
  unfolding pack_order is_node_master
  update_node db pk name = do
    pubkey ← pubkey_of pk
    bytes ← x.public_key.to_vec pubkey
    master ← is_node_master db bytes
    pack_order (
        order (if master then Order.edit_master_node name pubkey else Order.edit_node name pubkey)
        ∷ [])

  unfoldable pub remove_node : Database → Text → Fallible Request
  unfolding pack_order is_node_master
  remove_node db pk = do
    pubkey ← pubkey_of pk
    bytes ← x.public_key.to_vec pubkey
    master ← is_node_master db bytes
    pack_order
        (order (if master then Order.remove_master_node pubkey else Order.remove_node pubkey) ∷ [])

  unfoldable pub change_node_config : Text → Text → Fallible Request
  unfolding pack_order
  change_node_config pk name = do
    pubkey ← pubkey_of pk
    pack_order (order (Order.change_node_config pubkey name) ∷ [])

  unfoldable pub set_config : Text → MasterConfig → NodeConfig → Fallible Request
  unfolding pack_order
  set_config name master node = pack_order (order (Order.set_config name master node) ∷ [])

  unfoldable pub remove_config : Text → Fallible Request
  unfolding pack_order
  remove_config name = pack_order (order (Order.remove_config name) ∷ [])
