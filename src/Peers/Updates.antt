-- ===== src/Peers/Updates.antt =====
-- `send_update` and `get_stats` (nyumt-node/src/master/activity.rs): what a master node tells the nodes
-- that have subscribed once a block was executed, and what it asks a node for a client. The groups of
-- subscribers stand in one order of those in which the source's map may hold them.
use pfe_development_of_a_mon.Prelude.{
  ℤ, Bool, true, false, Option, none, some, List, [], ◌∷◌, ◌++◌, any, map, find, Bytes, Text, same,
  if◌then◌else◌, Fallible, ok, err, panicked, ◌>>=◌,
}
use pfe_development_of_a_mon.Stats.Types.{Oid}
use pfe_development_of_a_mon.Stats.Oids.{from_oid}
use pfe_development_of_a_mon.Stats.Usage.{Floats, System}
use pfe_development_of_a_mon.Stats.Report.{generate_report}
use pfe_development_of_a_mon.Proto.Types.{
  PublicKey, MasterConfig, NodeConfig, RequestStatus, Update, config_update, node_config_change,
  master_node_list_update, nothing,
}
use pfe_development_of_a_mon.Proto.Config.{global_update}
use pfe_development_of_a_mon.Proto.External.{External, key_eq}
use pfe_development_of_a_mon.Database.Tables.{Config}
use pfe_development_of_a_mon.Database.Nodes.{get_master_nodes}
use pfe_development_of_a_mon.Database.Configs.{get_node_conf}
use pfe_development_of_a_mon.Peers.Messages.{MasterNode, PeerRequest, PeerResponse}
use pfe_development_of_a_mon.Peers.Hub.{Subscriptions, Hub, is_under, own_addr}

-- A request to a peer.
abbrev pub Sent : Type 0
Sent = Text × PeerRequest

abbrev pub to_all : PeerRequest → List Text → List Sent
to_all r peers = map (λ p. (p, r)) peers

-- The peers that have subscribed under a name.
abbrev pub peers_of : Option (Text × List Text) → List Text
peers_of none = []
peers_of (some (name, peers)) = peers

unfoldable pub under : Text → Subscriptions → List Text
under conf subs = peers_of (find (is_under conf) subs)

-- All of them, group by group.
unfoldable pub everyone : Subscriptions → List Text
everyone [] = []
everyone ((name, peers) ∷ subs) = peers ++ everyone subs

abbrev pub is_in : Text → Text × List Text → Bool
is_in peer (name, peers) = any (λ p. same p peer) peers

-- `writes` says whether a request can be serialised, `to_peer_id` is libp2p's, and `external` the first
-- external address of the swarm.
module _ (x : External) (writes : PeerRequest → Bool) (to_peer_id : PublicKey → Fallible Text)
    (external : Option Text) where
  abbrev pub sends : PeerRequest → List Text → List Sent
  sends r peers = if writes r then to_all r peers else []

  -- The node's own configuration, with its hashes.
  abbrev pub take_conf : MasterConfig → NodeConfig → Hub → Fallible Hub
  take_conf master node h = do
    conf ← global_update x (record { master = master; node = node })
    ok (record h { conf = conf })

  unfoldable pub on_config_update :
      Text → MasterConfig → NodeConfig → Hub → Fallible (Hub × List Sent)
  unfolding under
  on_config_update name master node h = do
    h' ← (if same h.conf_name name then take_conf master node h else ok h)
    ok (h', sends (PeerRequest.update_config node) (under name h.subscribed))

  -- A configuration that cannot be read is passed over.
  abbrev pub read_conf : Fallible (Option Config) → Option (MasterConfig × NodeConfig)
  read_conf (ok (some v)) = elim (x.master_config.from_slice v.master_conf) [
    | err _ ↦ none
    | ok m ↦ elim (x.node_config.from_slice v.node_conf) [ err _ ↦ none | ok n ↦ some (m, n) ]
  ]
  read_conf _ = none

  unfoldable pub on_node_config_change : PublicKey → Text → Hub → Fallible (Hub × List Sent)
  on_node_config_change pubkey name h = elim (read_conf (get_node_conf h.db name)) [
    | none ↦ ok (h, [])
    | some (master, node) ↦
        if key_eq h.pubkey pubkey
        then (do h' ← take_conf master node h; ok (record h' { conf_name = name }, []))
        else elim (to_peer_id pubkey) [
          | err _ ↦ err panicked
          | ok peer_id ↦ ok (
            h,
            if any (is_in peer_id) h.subscribed
                then sends (PeerRequest.update_config node) (peer_id ∷ [])
                else [],
          )
        ]
  ]

  -- A row whose key cannot be read is passed over.
  unfoldable pub readable_masters : PublicKey → List Bytes → Fallible (List MasterNode)
  readable_masters own [] = ok []
  readable_masters own (k ∷ keys) =
      let rest = readable_masters own keys in
      elim (x.public_key.from_slice k) [
        | err _ ↦ rest
        | ok pk ↦ (do
          a ← own_addr external own pk
          ms ← rest
          ok (record { pubkey = pk; addr = a } ∷ ms))
      ]

  unfoldable pub on_master_node_list_update : Hub → Fallible (Hub × List Sent)
  unfolding everyone
  on_master_node_list_update h = do
    list ← readable_masters h.pubkey (get_master_nodes h.db)
    ok (h, sends (PeerRequest.update_master_node_list list) (everyone h.subscribed))

  unfoldable pub on_update : Update → Hub → Fallible (Hub × List Sent)
  unfolding on_config_update on_node_config_change on_master_node_list_update
  on_update (config_update name master node) h = on_config_update name master node h
  on_update (node_config_change pubkey name) h = on_node_config_change pubkey name h
  on_update master_node_list_update h = on_master_node_list_update h
  on_update nothing h = ok (h, [])

  -- The loop: the node, what was sent, and whether the task came to its end.
  unfoldable pub send_update : List Update → Hub → Hub × List Sent × Bool
  unfolding on_update
  send_update [] h = (h, [], true)
  send_update (u ∷ updates) h = elim (on_update u h) [
    | err _ ↦ (h, [], false)
    | ok (h', sent) ↦ let (last, more, done) = send_update updates h' in (last, sent ++ more, done)
  ]

-- What a client is told of a node. `present` is whether the peer is connected, `reply` what it answers,
-- `none` where the time is over.
module _ (x : External) (f : Floats) (sys : System) (now : ℤ) (sign : Bytes → Fallible Bytes)
    (to_peer_id : PublicKey → Fallible Text) (present : Text → Bool)
    (reply : Text → Oid → Option PeerResponse) where
  abbrev is_self : Text → Fallible Text → Bool
  is_self peer (ok me) = same me peer
  is_self peer (err _) = false

  abbrev pub own_stats : Oid → RequestStatus
  own_stats oid =
      let answer = (do
        rep ← generate_report f sys now (from_oid oid)
        v ← x.report.to_vec rep
        sig ← sign v
        ok (RequestStatus.get_stats rep sig)) in
      elim answer [ ok r ↦ r | err _ ↦ RequestStatus.req_error ]

  abbrev pub of_reply : Option PeerResponse → RequestStatus
  of_reply none = RequestStatus.request_timeout
  of_reply (some (PeerResponse.get_stats rep sig)) = RequestStatus.get_stats rep sig
  of_reply (some other) = RequestStatus.req_error

  unfoldable pub get_stats : Text → Oid → Hub → RequestStatus
  unfolding generate_report from_oid
  get_stats peer_id oid h =
      if is_self peer_id (to_peer_id h.pubkey)
      then own_stats oid
      else if present peer_id
      then of_reply (reply peer_id oid)
      else RequestStatus.node_inactive
