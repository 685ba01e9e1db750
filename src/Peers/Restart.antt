-- ===== src/Peers/Restart.antt =====
-- A configuration that a plain node is sent, and the one with which it starts again
-- (nyumt-node/src/node/{req_resp,mod}.rs).
use pfe_development_of_a_mon.Prelude.{ℤ, ◌≡◌, refl, some, Bytes, Fallible, ok, arith}
use pfe_development_of_a_mon.Stats.Usage.{Floats, System}
use pfe_development_of_a_mon.Proto.Types.{NodeConfig}
use pfe_development_of_a_mon.Proto.Config.{node_update}
use pfe_development_of_a_mon.Proto.External.{External}
use pfe_development_of_a_mon.Peers.Messages.{PeerRequest, PeerResponse}
use pfe_development_of_a_mon.Peers.Plain.{
  PlainNode, Tables, load_local_node_conf, update_local_node_conf, initial_conf, on_update_config,
  handle,
}
use pfe_development_of_a_mon.Peers.Agree.{load_local_node_conf-update_local_node_conf}

masters_kept : (t : Tables) (v : Bytes) → (update_local_node_conf t v).masters ≡ t.masters
unfolding update_local_node_conf
masters_kept t v = ground arith

module _ (x : External) where
  loaded :
      (t : Tables) (v : Bytes) (c : NodeConfig)
      → load_local_node_conf t ≡ some v
      → x.node_config.from_slice v ≡ ok c
      → initial_conf x t ≡ ok c
  unfolding initial_conf
  loaded t v c e e' = rw (initial_conf, e, e')

  -- A configuration that can be written is taken by the node that it is sent to: the node bears it from
  -- then on, with its hash, and where what was written is read as a configuration, the node starts
  -- again with that one. The list of the master nodes stays.
  pub initial_conf-handle :
      (f : Floats) (sys : System) (now : ℤ) (sign : Bytes → Fallible Bytes) (n : PlainNode)
      (c read : NodeConfig) (v : Bytes)
      → x.node_config.to_vec c ≡ ok v
      → x.node_config.from_slice v ≡ ok read
      → (after : PlainNode) × (handle x f sys now sign (PeerRequest.update_config c) n
          ≡ ok (after, PeerResponse.good))
        × (after.conf ≡ record c { hash = x.sha256 v })
        × (initial_conf x after.tables ≡ ok read)
        × (after.tables.masters ≡ n.tables.masters)
  unfolding handle on_update_config node_update
  initial_conf-handle f sys now sign n c read v written readable =
      let tables = update_local_node_conf n.tables v in
      (
        record n { tables = tables; conf = record c { hash = x.sha256 v } },
        rw (on_update_config, written),
        refl,
        loaded tables v read (load_local_node_conf-update_local_node_conf n.tables v) readable,
        masters_kept n.tables v,
      )
