-- ===== src/Consensus/Genesis.antt =====
-- The tables that the first block makes (nyumt-node/src/master/first.rs).
use pfe_development_of_a_mon.Prelude.{
  ℕ, ◌≡◌, refl, same, same_refl, true, some, none, [], ◌∷◌, Bytes, text, pos, ok,
}
use pfe_development_of_a_mon.Proto.Types.{
  PublicKey, root, MasterConfig, NodeConfig, BodyData, nothing, master_node_list_update,
  config_update,
}
use pfe_development_of_a_mon.Proto.Config.{master_default, node_default}
use pfe_development_of_a_mon.Proto.External.{Codec, External}
use pfe_development_of_a_mon.Database.Tables.{Database}
use pfe_development_of_a_mon.Database.Chain.{add_new, get_last_block}
use pfe_development_of_a_mon.Database.Configs.{load_local_master_node_conf}
use pfe_development_of_a_mon.Interpret.Execute.{interpret_order, interpret_orders, interpret_block}
use pfe_development_of_a_mon.Consensus.Types.{NetData}
use pfe_development_of_a_mon.Consensus.Submit.{serialize_block}
use pfe_development_of_a_mon.Consensus.First.{first_orders, first_body, or_kept, create}

module _ (x : External) (net : Codec NetData) where
  -- What the codecs write for the first block.
  pub record Writes (node_pk pk : PublicKey) (now : ℕ) : Type 0 where
    pub master : MasterConfig
    pub node : NodeConfig
    pub body : Bytes
    pub block : Bytes
    pub user_key : Bytes
    pub node_key : Bytes
    pub perms : Bytes
    pub master_conf : Bytes
    pub node_conf : Bytes
    pub has_master : master_default x ≡ ok master
    pub has_node : node_default x ≡ ok node
    pub writes_body : x.body_data.to_vec (first_body node_pk pk master node now) ≡ ok body
    pub writes_block : x.block.to_vec (record { hash = x.sha256 body; body = body }) ≡ ok block
    pub writes_user : x.public_key.to_vec pk ≡ ok user_key
    pub writes_key : x.public_key.to_vec node_pk ≡ ok node_key
    pub writes_perms : x.permissions.to_vec (root ∷ []) ≡ ok perms
    pub writes_master : x.master_config.to_vec master ≡ ok master_conf
    pub writes_node : x.node_config.to_vec node ≡ ok node_conf

  abbrev pub empty : Database
  empty = record { users = []; chain = []; nodes = []; peer_ids = []; stats = []; configs = [] }

  -- The tables after the first block.
  abbrev pub founded : (node_pk pk : PublicKey) (now : ℕ) → Writes node_pk pk now → Database
  founded node_pk pk now w = record {
    users =
        record {
          id = 1;
          name = text "root";
          public_key = w.user_key;
          permissions = w.perms;
          active = true;
          last_access = none;
        }
        ∷ [];
    chain = record { id = pos 0; contents = w.block; hash = x.sha256 w.body } ∷ [];
    nodes =
        record {
          id = 1;
          name = text "controller0";
          public_key = w.node_key;
          master_node = true;
          conf = text "default";
          vote_weight = some 1;
        }
        ∷ [];
    peer_ids = [];
    stats = [];
    configs =
        record { name = text "default"; master_conf = w.master_conf; node_conf = w.node_conf } ∷ [];
  }

  serialized :
      (body : BodyData) (bytes block : Bytes)
      → x.body_data.to_vec body ≡ ok bytes
      → x.block.to_vec (record { hash = x.sha256 bytes; body = bytes }) ≡ ok block
      → serialize_block x net body none [] ≡ ok (block, x.sha256 bytes)
  unfolding serialize_block
  serialized body bytes block e e' = rw (serialize_block, e, e')

  orders_done :
      (db : Database) (node_pk pk : PublicKey) (now : ℕ) (w : Writes node_pk pk now)
      → db ≡ record empty {
        chain = record { id = pos 0; contents = w.block; hash = x.sha256 w.body } ∷ [];
      }
      → interpret_orders x db (first_orders node_pk pk w.master w.node)
        ≡ ok (
          nothing ∷ master_node_list_update ∷ config_update (text "default") w.master w.node ∷ [],
          founded node_pk pk now w,
        )
  unfolding interpret_orders interpret_order
  orders_done db node_pk pk now w e =
      rw (e, w.writes_user, w.writes_perms, w.writes_key, w.writes_master, w.writes_node)

  stored_first :
      (node_pk pk : PublicKey) (now : ℕ) (w : Writes node_pk pk now)
      → or_kept empty (add_new empty 0 w.block (x.sha256 w.body)) ≡ record empty {
        chain = record { id = pos 0; contents = w.block; hash = x.sha256 w.body } ∷ [];
      }
  unfolding add_new
  stored_first node_pk pk now w = refl

  -- If the codecs write the first block, it can be made on empty tables. The tables then have one user,
  -- with the key that was given and all permissions, one node, which is a master node, and one
  -- configuration; the chain has one block, at height 0, whose hash is the digest of its body, and the
  -- node finds its configuration.
  pub create-founded :
      (node_pk pk : PublicKey) (now : ℕ) (w : Writes node_pk pk now)
      → (create x net empty node_pk pk now ≡ ok (founded node_pk pk now w))
        × (get_last_block (founded node_pk pk now w) ≡ ok (some (0, x.sha256 w.body)))
        × (load_local_master_node_conf (founded node_pk pk now w) w.node_key
            ≡ ok (
                some (record {
                  name = text "default";
                  master_conf = w.master_conf;
                  node_conf = w.node_conf;
                })))
  unfolding create interpret_block get_last_block load_local_master_node_conf same
  create-founded node_pk pk now w =
      let body = first_body node_pk pk w.master w.node now in
      let done =
        orders_done (or_kept empty (add_new empty 0 w.block (x.sha256 w.body))) node_pk pk now w
          (stored_first node_pk pk now w) in
      (
        rw
            (
              create,
              w.has_master,
              w.has_node,
              serialized body w.body w.block w.writes_body w.writes_block,
              interpret_block,
              done,
            )
            refl,
        refl,
        rw (same_refl w.node_key) refl,
      )
