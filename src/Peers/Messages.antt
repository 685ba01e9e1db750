-- ===== src/Peers/Messages.antt =====
-- nyumt-proto/src/peer.rs: the requests and responses between nodes, and the hash of a list of master
-- nodes. A version is the bit pattern of an `f64`.
use pfe_development_of_a_mon.Prelude.{
  ℕ, Option, List, [], ◌∷◌, ◌++◌, Bytes, Text, Fallible, ok, ◌>>=◌,
}
use pfe_development_of_a_mon.Stats.Types.{Oid, Report}
use pfe_development_of_a_mon.Proto.Types.{PublicKey, NodeConfig}
use pfe_development_of_a_mon.Proto.External.{External}

pub record MasterNode : Type 0 where
  pub pubkey : PublicKey
  pub addr : Option Text

-- `NodeReport` of types.rs.
pub record NodeReport : Type 0 where
  pub report : Bytes
  pub sig : Bytes

-- `peer::RequestStatus`.
pub data ReportStatus : Type 0 where
  good bad : ReportStatus

pub data PeerRequest : Type 0 where
  hello : ℕ → PublicKey → PeerRequest
  hello_subscribe block_height node_config node_config_hash master_node_list master_node_list_hash
        unsubscribe_default_node :
      PeerRequest
  update_config : NodeConfig → PeerRequest
  update_master_node_list : List MasterNode → PeerRequest
  report : NodeReport → PeerRequest
  get_stats : Oid → PeerRequest

pub data PeerResponse : Type 0 where
  hi : ℕ → PeerResponse
  block_height : ℕ → PeerResponse
  node_config : NodeConfig → PeerResponse
  node_config_hash : Bytes → PeerResponse
  master_node_list : List MasterNode → PeerResponse
  master_node_list_hash : Bytes → PeerResponse
  report : ReportStatus → PeerResponse
  get_stats : Report → Bytes → PeerResponse
  good error : PeerResponse

module _ (x : External) where
  -- What the hasher is fed.
  unfoldable pub key_stream : List MasterNode → Fallible Bytes
  key_stream [] = ok []
  key_stream (n ∷ nodes) = do
    pk ← x.public_key.to_vec n.pubkey
    rest ← key_stream nodes
    ok (pk ++ rest)

  -- `MasterNodes::hash`.
  unfoldable pub hash : List MasterNode → Fallible Bytes
  unfolding key_stream
  hash nodes = do bytes ← key_stream nodes; ok (x.sha256 bytes)
