-- ===== src/Peers/Stall.antt =====
-- The synchronisation of a node that its master node does not know (nyumt-node/src/node/activity.rs).
use pfe_development_of_a_mon.Prelude.{ℕ, ◌≡◌, some, List, Bytes, Text, Failure, err, Option, ok}
use pfe_development_of_a_mon.Proto.External.{External}
use pfe_development_of_a_mon.Database.Nodes.{get_master_nodes, get_peer_conf}
use pfe_development_of_a_mon.Peers.Messages.{MasterNode, PeerRequest, PeerResponse}
use pfe_development_of_a_mon.Peers.Hub.{Hub, Handling, respond, on_node_config, handle}
use pfe_development_of_a_mon.Peers.Plain.{
  PlainNode, written_masters, waits, config_answer, async_sync,
}
use pfe_development_of_a_mon.Peers.Agree.{Canonical, list_masters-written, list_answer}

module _ (x : External) where
  refused :
      (peer : Text) (h : Hub) (f : Failure)
      → get_peer_conf h.db peer ≡ err f
      → on_node_config x peer h ≡ ok (respond h PeerResponse.error)
  unfolding on_node_config
  refused peer h f e = rw (on_node_config, e)

  stalled :
      (master : Text) (n : PlainNode) (l : List MasterNode) (vec : List (Bytes × Option Text))
      → written_masters x l ≡ ok vec
      → async_sync x
          (some master)
          (some (PeerResponse.master_node_list l))
          (some PeerResponse.error)
          n
        ≡ waits n
  unfolding async_sync config_answer
  stalled master n l vec written = rw (async_sync, written)

  -- A node whose configuration the master node does not find, though it answers the list, waits without
  -- end: the answer Error is not passed on to the task that synchronises.
  async_sync-waits :
      Canonical x
      → (protocol_version : ℕ) (peer master : Text) (h : Hub) (n : PlainNode) (listed : Handling)
        (l : List MasterNode) (f : Failure)
      → handle x protocol_version PeerRequest.master_node_list peer h ≡ ok listed
      → listed.response ≡ some (PeerResponse.master_node_list l)
      → get_peer_conf h.db peer ≡ err f
      → (configured : Handling) × (handle x protocol_version PeerRequest.node_config peer h
          ≡ ok configured)
        × (async_sync x (some master) listed.response configured.response n ≡ waits n)
  unfolding handle
  async_sync-waits canonical protocol_version peer master h n listed l f e answered missing =
      let (vec, written, keys) =
        list_masters-written x canonical h.addr h.pubkey (get_master_nodes h.db) l
          (list_answer x canonical peer h listed l e answered) in
      (
        respond h PeerResponse.error,
        refused peer h f missing,
        rw answered (stalled master n l vec written),
      )
