-- ===== src/Peers/Preserve.antt =====
-- What holds after a request of another node, if it holds after each of the statements that `handle`
-- makes (nyumt-node/src/master/req_resp.rs).
use pfe_development_of_a_mon.Prelude.{
  ℕ, ◌≡◌, Bool-cases, none, some, ◌==◌, Bytes, Text, ok, Fallible-cases, OnOk, inl, inr,
}
use pfe_development_of_a_mon.Proto.Types.{PublicKey}
use pfe_development_of_a_mon.Proto.Config.{node_update}
use pfe_development_of_a_mon.Proto.External.{External}
use pfe_development_of_a_mon.Database.Chain.{get_last_block_height}
use pfe_development_of_a_mon.Database.Nodes.{
  get_master_nodes, update_peerid, get_peer_pk, get_peer_conf_name,
}
use pfe_development_of_a_mon.Database.Reports.{store_stats}
use pfe_development_of_a_mon.Peers.Messages.{NodeReport, PeerRequest, hash}
use pfe_development_of_a_mon.Peers.Hub.{
  Hub, Subscriptions, try_db, on_hello, on_subscribe, on_unsubscribe, on_block_height, on_report,
  on_node_config, on_node_config_hash, list_masters, peer_config, on_master_node_list,
  on_master_node_list_hash, handle,
}

module _ (x : External) (peer : Text) (h : Hub) (P : Hub → Type 0) (same : P h)
    (listed : (subs : Subscriptions) → P (record h { subscribed = subs }))
    (named : (v : Bytes) → P (try_db h (update_peerid h.db v peer)))
    (stored : (pk contents sig : Bytes) (time : ℕ)
      → get_peer_pk h.db peer ≡ ok (some pk)
      → P (try_db h (store_stats h.db pk contents sig time))) where
  on_hello-preserves :
      (protocol_version version : ℕ) (pk : PublicKey)
      → P (on_hello x protocol_version version pk peer h).hub
  unfolding on_hello
  on_hello-preserves protocol_version version pk = elim (Bool-cases (version == protocol_version)) [
    | inr other ↦ rw (on_hello, other) same
    | inl same_version ↦ elim (Fallible-cases (x.public_key.to_vec pk)) [
      | inr (f, e) ↦ rw (on_hello, same_version, e) same
      | inl (v, e) ↦ rw (on_hello, same_version, e) (named v)
    ]
  ]

  on_subscribe-preserves : P (on_subscribe x peer h).hub
  unfolding on_subscribe
  on_subscribe-preserves = elim (Fallible-cases (get_peer_conf_name h.db peer)) [
    | inr (f, e) ↦ rw (on_subscribe, e) same
    | inl (conf, e) ↦ rw (on_subscribe, e) (listed _)
  ]

  on_unsubscribe-preserves : P (on_unsubscribe x peer h).hub
  unfolding on_unsubscribe
  on_unsubscribe-preserves = elim (Fallible-cases (get_peer_conf_name h.db peer)) [
    | inr (f, e) ↦ rw (on_unsubscribe, e) same
    | inl (conf, e) ↦ rw (on_unsubscribe, e) (listed _)
  ]

  on_block_height-preserves : P (on_block_height x h).hub
  unfolding on_block_height
  on_block_height-preserves = elim (Fallible-cases (get_last_block_height h.db)) [
    | inl (none, e) ↦ rw (on_block_height, e) same
    | inl (some v, e) ↦ rw (on_block_height, e) same
    | inr (f, e) ↦ rw (on_block_height, e) same
  ]

  on_report-preserves : (r : NodeReport) → P (on_report x r peer h).hub
  unfolding on_report
  on_report-preserves r = elim (Fallible-cases (x.report.from_slice r.report)) [
    | inr (f, e) ↦ rw (on_report, e) same
    | inl (rep, e) ↦ elim (Fallible-cases (get_peer_pk h.db peer)) [
      | inr (f, e') ↦ rw (on_report, e, e') same
      | inl (none, e') ↦ rw (on_report, e, e') same
      | inl (some pk, e') ↦ rw (on_report, e, e') (stored pk r.report r.sig rep.timestamp e')
    ]
  ]

  on_node_config-preserves : OnOk (λ r. P r.hub) (on_node_config x peer h)
  unfolding on_node_config
  on_node_config-preserves = elim (Fallible-cases (peer_config x peer h)) [
    | inr (f, e) ↦ rw (on_node_config, e) same
    | inl (c, e) ↦ rw (on_node_config, e) same
  ]

  on_node_config_hash-preserves : OnOk (λ r. P r.hub) (on_node_config_hash x peer h)
  unfolding on_node_config_hash
  on_node_config_hash-preserves = elim (Fallible-cases (peer_config x peer h)) [
    | inr (f, e) ↦ rw (on_node_config_hash, e) same
    | inl (c, e) ↦ elim (Fallible-cases (node_update x c)) [
      | inr (f, e') ↦ rw (on_node_config_hash, e, e') tt
      | inl (c', e') ↦ rw (on_node_config_hash, e, e') same
    ]
  ]

  on_master_node_list-preserves : OnOk (λ r. P r.hub) (on_master_node_list x h)
  unfolding on_master_node_list
  on_master_node_list-preserves =
      elim (Fallible-cases (list_masters x h.addr h.pubkey (get_master_nodes h.db))) [
        | inr (f, e) ↦ rw (on_master_node_list, e) tt
        | inl (none, e) ↦ rw (on_master_node_list, e) same
        | inl (some l, e) ↦ rw (on_master_node_list, e) same
      ]

  on_master_node_list_hash-preserves : OnOk (λ r. P r.hub) (on_master_node_list_hash x h)
  unfolding on_master_node_list_hash
  on_master_node_list_hash-preserves =
      elim (Fallible-cases (list_masters x h.addr h.pubkey (get_master_nodes h.db))) [
        | inr (f, e) ↦ rw (on_master_node_list_hash, e) tt
        | inl (none, e) ↦ rw (on_master_node_list_hash, e) same
        | inl (some l, e) ↦ elim (Fallible-cases (hash x l)) [
          | inr (f, e') ↦ rw (on_master_node_list_hash, e, e') same
          | inl (v, e') ↦ rw (on_master_node_list_hash, e, e') same
        ]
      ]

  pub handle-preserves :
      (protocol_version : ℕ) (req : PeerRequest)
      → OnOk (λ r. P r.hub) (handle x protocol_version req peer h)
  unfolding handle
  handle-preserves protocol_version (PeerRequest.hello version pk) =
      on_hello-preserves protocol_version version pk
  handle-preserves protocol_version PeerRequest.hello_subscribe = on_subscribe-preserves
  handle-preserves protocol_version PeerRequest.unsubscribe_default_node = on_unsubscribe-preserves
  handle-preserves protocol_version PeerRequest.block_height = on_block_height-preserves
  handle-preserves protocol_version (PeerRequest.report r) = on_report-preserves r
  handle-preserves protocol_version PeerRequest.node_config = on_node_config-preserves
  handle-preserves protocol_version PeerRequest.node_config_hash = on_node_config_hash-preserves
  handle-preserves protocol_version PeerRequest.master_node_list = on_master_node_list-preserves
  handle-preserves protocol_version PeerRequest.master_node_list_hash =
      on_master_node_list_hash-preserves
  handle-preserves protocol_version (PeerRequest.update_config c) = same
  handle-preserves protocol_version (PeerRequest.update_master_node_list l) = same
  handle-preserves protocol_version (PeerRequest.get_stats o) = same
