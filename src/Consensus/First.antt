-- ===== src/Consensus/First.antt =====
-- nyumt-node/src/master/first.rs: the first block of a chain, and the tables that it makes.
use pfe_development_of_a_mon.Prelude.{ℕ, none, List, [], ◌∷◌, text, Fallible, ok, err, ◌>>=◌}
use pfe_development_of_a_mon.Proto.Types.{
  PublicKey, root, MasterConfig, NodeConfig, add_user, add_master_node, set_config, order,
  RequestType, BodyData,
}
use pfe_development_of_a_mon.Proto.Config.{master_default, node_default}
use pfe_development_of_a_mon.Proto.External.{Codec, External}
use pfe_development_of_a_mon.Database.Tables.{Database}
use pfe_development_of_a_mon.Database.Chain.{add_new}
use pfe_development_of_a_mon.Interpret.Execute.{interpret_block}
use pfe_development_of_a_mon.Consensus.Types.{NetData}
use pfe_development_of_a_mon.Consensus.Submit.{serialize_block}

-- The three orders: the user with all permissions, the node itself, and the configuration of both.
abbrev pub first_orders : PublicKey → PublicKey → MasterConfig → NodeConfig → List RequestType
first_orders node_pk pk master node =
    order (add_user (text "root") pk (root ∷ []))
    ∷ order (add_master_node (text "controller0") node_pk)
    ∷ order (set_config (text "default") master node)
    ∷ []

abbrev pub first_body : PublicKey → PublicKey → MasterConfig → NodeConfig → ℕ → BodyData
first_body node_pk pk master node now = record {
  req = first_orders node_pk pk master node;
  sign = [];
  user_pk = pk;
  timestamp = now;
}

-- A block that is not stored is executed all the same.
abbrev pub or_kept : Database → Fallible Database → Database
or_kept db (ok after) = after
or_kept db (err _) = db

module _ (x : External) (net : Codec NetData) where
  unfoldable pub create : Database → PublicKey → PublicKey → ℕ → Fallible Database
  create db node_pk pk now = do
    master ← master_default x
    node ← node_default x
    let body = first_body node_pk pk master node now
    (bytes, hash) ← serialize_block x net body none []
    ok (interpret_block x (or_kept db (add_new db 0 bytes hash)) body.req).0
