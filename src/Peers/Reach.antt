-- ===== src/Peers/Reach.antt =====
-- Which nodes are told of a change of a configuration, and what they make of it: the subscriptions of
-- nyumt-node/src/master/req_resp.rs, `send_update`, and `handle` of nyumt-node/src/node/req_resp.rs.
use pfe_development_of_a_mon.Prelude.{
  ℕ, ◌≡◌, refl, ap, ◌∙◌, Bool, true, Bool-cases, Option, Option-cases, some, List, [], ◌∷◌, ◌++◌,
  Text, same, same_refl, Exists, Fallible, ok, Fallible-cases, OnOk, OnOk_elim, inl, inr,
}
use pfe_development_of_a_mon.Proto.Types.{
  PublicKey, MasterConfig, NodeConfig, Update, config_update, node_config_change,
  master_node_list_update, nothing,
}
use pfe_development_of_a_mon.Proto.External.{External}
use pfe_development_of_a_mon.Database.Nodes.{get_peer_conf_name}
use pfe_development_of_a_mon.Peers.Messages.{PeerRequest, PeerResponse}
use pfe_development_of_a_mon.Peers.Hub.{Hub, Handling, on_subscribe, handle}
use pfe_development_of_a_mon.Peers.Subscribed.{under-subscribe}
use pfe_development_of_a_mon.Proto.Config.{global_update}
use pfe_development_of_a_mon.Proto.External.{key_eq}
use pfe_development_of_a_mon.Database.Nodes.{get_master_nodes}
use pfe_development_of_a_mon.Database.Configs.{get_node_conf}
use pfe_development_of_a_mon.Peers.Updates.{readable_masters}
use pfe_development_of_a_mon.Peers.Updates.{
  Sent, read_conf, to_all, under, take_conf, on_config_update, on_node_config_change,
  on_master_node_list_update, on_update, send_update,
}

module _ (x : External) (writes : PeerRequest → Bool) (to_peer_id : PublicKey → Fallible Text)
    (external : Option Text) where
  take_conf-subscribed :
      (m : MasterConfig) (c : NodeConfig) (h : Hub)
      → OnOk
          (λ (h' : Hub). h'.subscribed ≡ h.subscribed)
          (take_conf x writes to_peer_id external m c h)
  take_conf-subscribed m c h =
      elim (Fallible-cases (global_update x (record { master = m; node = c }))) [
        | inr (f, e) ↦ rw e tt
        | inl (g, e) ↦ rw e refl
      ]

  abbrev Keeps : Hub → Fallible (Hub × List Sent) → Type 0
  Keeps h m = OnOk (λ (r : Hub × List Sent). r.0.subscribed ≡ h.subscribed) m

  on_config_update-Keeps :
      (name : Text) (m : MasterConfig) (c : NodeConfig) (h : Hub)
      → Keeps h (on_config_update x writes to_peer_id external name m c h)
  unfolding on_config_update
  on_config_update-Keeps name m c h = elim (Bool-cases (same h.conf_name name)) [
    | inr other ↦ rw (on_config_update, other) refl
    | inl own ↦ elim (Fallible-cases (take_conf x writes to_peer_id external m c h)) [
      | inr (f, e) ↦ rw (on_config_update, own, e) tt
      | inl (h', e) ↦
          let kept = OnOk_elim _ _ (take_conf-subscribed m c h) e in
          rw (on_config_update, own, e) kept
    ]
  ]

  on_node_config_change-Keeps :
      (pk : PublicKey) (name : Text) (h : Hub)
      → Keeps h (on_node_config_change x writes to_peer_id external pk name h)
  unfolding on_node_config_change
  on_node_config_change-Keeps pk name h =
      elim (Option-cases (read_conf x writes to_peer_id external (get_node_conf h.db name))) [
        | inl unread ↦ rw (on_node_config_change, unread) refl
        | inr ((m, c), read) ↦ elim (Bool-cases (key_eq h.pubkey pk)) [
          | inl own ↦ elim (Fallible-cases (take_conf x writes to_peer_id external m c h)) [
            | inr (f, e) ↦ rw (on_node_config_change, read, own, e) tt
            | inl (h', e) ↦
                let kept = OnOk_elim _ _ (take_conf-subscribed m c h) e in
                rw (on_node_config_change, read, own, e) kept
          ]
          | inr other ↦ elim (Fallible-cases (to_peer_id pk)) [
            | inr (f, e) ↦ rw (on_node_config_change, read, other, e) tt
            | inl (peer, e) ↦ rw (on_node_config_change, read, other, e) refl
          ]
        ]
      ]

  on_master_node_list_update-Keeps :
      (h : Hub) → Keeps h (on_master_node_list_update x writes to_peer_id external h)
  unfolding on_master_node_list_update
  on_master_node_list_update-Keeps h =
      elim (Fallible-cases
        (readable_masters x writes to_peer_id external h.pubkey (get_master_nodes h.db))) [
          | inr (f, e) ↦ rw (on_master_node_list_update, e) tt
          | inl (l, e) ↦ rw (on_master_node_list_update, e) refl
        ]

  on_update-Keeps : (u : Update) (h : Hub) → Keeps h (on_update x writes to_peer_id external u h)
  unfolding on_update
  on_update-Keeps (config_update name m c) h = on_config_update-Keeps name m c h
  on_update-Keeps (node_config_change pk name) h = on_node_config_change-Keeps pk name h
  on_update-Keeps master_node_list_update h = on_master_node_list_update-Keeps h
  on_update-Keeps nothing h = refl

  send_update-subscribed :
      (updates : List Update) (h : Hub)
      → (send_update x writes to_peer_id external updates h).0.subscribed ≡ h.subscribed
  unfolding send_update
  send_update-subscribed [] h = refl
  send_update-subscribed (u ∷ updates) h =
      elim (Fallible-cases (on_update x writes to_peer_id external u h)) [
        | inr (f, e) ↦ rw (send_update, e) refl
        | inl ((h', sent), e) ↦
            let kept = OnOk_elim _ _ (on_update-Keeps u h) e in
            rw (send_update, e) (send_update-subscribed updates h' ∙ kept)
      ]

  to_all-last :
      (req : PeerRequest) (peers : List Text) (peer : Text)
      → Exists (λ (msg : Sent). msg ≡ (peer, req)) (to_all req (peers ++ peer ∷ []))
  to_all-last req [] peer = inl refl
  to_all-last req (p ∷ peers) peer = inr (to_all-last req peers peer)

  sent-last :
      (name : Text) (m : MasterConfig) (c : NodeConfig) (h : Hub) (peers : List Text) (peer : Text)
      → writes (PeerRequest.update_config c) ≡ true
      → under name h.subscribed ≡ peers ++ peer ∷ []
      → OnOk
          (λ (s : Hub × List Sent).
            Exists (λ (msg : Sent). msg ≡ (peer, PeerRequest.update_config c)) s.1)
          (on_config_update x writes to_peer_id external name m c h)
  unfolding on_config_update
  sent-last name m c h peers peer written e = elim (Bool-cases (same h.conf_name name)) [
    | inr other ↦ rw (on_config_update, other, written, e) (to_all-last _ peers peer)
    | inl own ↦ elim (Fallible-cases (take_conf x writes to_peer_id external m c h)) [
      | inr (f, e') ↦ rw (on_config_update, own, e') tt
      | inl (h', e') ↦ rw (on_config_update, own, e', written, e) (to_all-last _ peers peer)
    ]
  ]

  -- A subscription that is answered with Good is one under the configuration of the peer.
  subscribed-under :
      (peer : Text) (h : Hub) (r : Handling)
      → on_subscribe x peer h ≡ r
      → r.response ≡ some PeerResponse.good
      → (conf : Text) × (get_peer_conf_name h.db peer ≡ ok conf)
        × (under conf r.hub.subscribed ≡ under conf h.subscribed ++ peer ∷ [])
  unfolding on_subscribe
  subscribed-under peer h r e answered = elim (Fallible-cases (get_peer_conf_name h.db peer)) [
    | inr (f, e') ↦ absurd (
        let e2 = rw (on_subscribe, e') at e in
        let refused : some PeerResponse.error ≡ r.response = ap (λ (s : Handling). s.response) e2 in
        cc)
    | inl (conf, e') ↦
        let e2 = rw (on_subscribe, e') at e in
        let added = under-subscribe conf conf peer h.subscribed in
        (conf, e', rw (← e2) (rw (same_refl conf) at added))
  ]

  -- A node whose subscription is answered with Good is told of every later change of the configuration
  -- under which it subscribed, if the message of the change can be written, whatever updates come between, also one that has given the node another
  -- configuration: where the master node comes to its end with the change, the node is among those to
  -- which it is sent.
  pub send_update-handle :
      (protocol_version : ℕ) (peer : Text) (h : Hub) (r : Handling)
      → handle x protocol_version PeerRequest.hello_subscribe peer h ≡ ok r
      → r.response ≡ some PeerResponse.good
      → (updates : List Update) (m : MasterConfig) (c : NodeConfig)
      → writes (PeerRequest.update_config c) ≡ true
      → (conf : Text) × (get_peer_conf_name h.db peer ≡ ok conf)
        × OnOk
            (λ (s : Hub × List Sent).
              Exists (λ (msg : Sent). msg ≡ (peer, PeerRequest.update_config c)) s.1)
            (on_update x writes to_peer_id external
              (config_update conf m c)
              (send_update x writes to_peer_id external updates r.hub).0)
  unfolding handle on_update
  send_update-handle protocol_version peer h r e answered updates m c written =
      let is : on_subscribe x peer h ≡ r = cc in
      let (conf, name, there) = subscribed-under peer h r is answered in
      (
        conf,
        name,
        sent-last conf m c _ (under conf h.subscribed) peer written
            (ap (under conf) (send_update-subscribed updates r.hub) ∙ there),
      )
