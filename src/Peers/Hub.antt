-- ===== src/Peers/Hub.antt =====
-- `handle` of nyumt-node/src/master/req_resp.rs: what a master node answers to another node. The
-- response is what is handed to `send_response`.
use pfe_development_of_a_mon.Prelude.{
  ℕ, Bool, true, false, not, Option, none, some, List, [], ◌∷◌, ◌++◌, ◌==◌, any, retain, Bytes,
  Text, same, if◌then◌else◌, Fallible, ok, err, panicked, ◌>>=◌,
}
use pfe_development_of_a_mon.Proto.Types.{PublicKey, NodeConfig, GlobalConfig}
use pfe_development_of_a_mon.Proto.Config.{node_update}
use pfe_development_of_a_mon.Proto.External.{External, key_eq}
use pfe_development_of_a_mon.Database.Tables.{Database}
use pfe_development_of_a_mon.Database.Chain.{get_last_block_height}
use pfe_development_of_a_mon.Database.Nodes.{
  get_master_nodes, update_peerid, get_peer_pk, get_peer_conf_name, get_peer_conf,
}
use pfe_development_of_a_mon.Database.Reports.{store_stats}
use pfe_development_of_a_mon.Peers.Messages.{
  MasterNode, NodeReport, good, bad, PeerRequest, PeerResponse, hash,
}

abbrev pub Subscriptions : Type 0
Subscriptions = List (Text × List Text)

-- What the handlers use of `SwarmSettings`: the tables, the nodes that have subscribed by the name of
-- their configuration, the address that peers have reached the node under, its key and its own
-- configuration with the name.
pub record Hub : Type 0 where
  pub db : Database
  pub subscribed : Subscriptions
  pub addr : Option Text
  pub pubkey : PublicKey
  pub conf : GlobalConfig
  pub conf_name : Text

pub record Handling : Type 0 where
  pub hub : Hub
  pub response : Option PeerResponse
  pub disconnects : Bool

abbrev pub respond : Hub → PeerResponse → Handling
respond h r = record { hub = h; response = some r; disconnects = false }

-- `.ok()` on a statement: the tables after it.
abbrev pub try_db : Hub → Fallible Database → Hub
try_db h (ok db) = record h { db = db }
try_db h (err _) = h

abbrev pub is_under : Text → Text × List Text → Bool
is_under conf (name, peers) = same name conf

abbrev pub push_peer : Text → Text → Subscriptions → Subscriptions
push_peer conf peer [] = []
push_peer conf peer ((name, peers) ∷ rest) =
    (if same name conf then (name, peers ++ peer ∷ []) else (name, peers))
    ∷ push_peer conf peer rest

unfoldable pub subscribe : Text → Text → Subscriptions → Subscriptions
subscribe conf peer subs =
    if any (is_under conf) subs then push_peer conf peer subs else subs ++ (conf, peer ∷ []) ∷ []

unfoldable pub unsubscribe : Text → Text → Subscriptions → Subscriptions
unsubscribe conf peer [] = []
unsubscribe conf peer ((name, peers) ∷ rest) =
    (if same name conf then (name, retain (λ p. not (same p peer)) peers) else (name, peers))
    ∷ unsubscribe conf peer rest

-- `addr.unwrap()`, for the node itself only.
abbrev pub own_addr : Option Text → PublicKey → PublicKey → Fallible (Option Text)
own_addr addr own pk =
    if key_eq pk own then elim addr [ some a ↦ ok (some a) | none ↦ err panicked ] else ok none

module _ (x : External) where
  -- A version that differs ends the connection.
  unfoldable pub on_hello : ℕ → ℕ → PublicKey → Text → Hub → Handling
  on_hello protocol_version version pk peer h =
      if version == protocol_version
      then record {
        hub = elim (x.public_key.to_vec pk) [
          | ok v ↦ try_db h (update_peerid h.db v peer)
          | err _ ↦ h
        ];
        response = some (PeerResponse.hi protocol_version);
        disconnects = false;
      }
      else record {
        hub = h;
        response = some (PeerResponse.hi protocol_version);
        disconnects = true;
      }

  unfoldable pub on_subscribe : Text → Hub → Handling
  on_subscribe peer h = elim (get_peer_conf_name h.db peer) [
    | ok conf ↦
        respond (record h { subscribed = subscribe conf peer h.subscribed }) PeerResponse.good
    | err _ ↦ respond h PeerResponse.error
  ]

  -- No response.
  unfoldable pub on_unsubscribe : Text → Hub → Handling
  on_unsubscribe peer h = record {
    hub = elim (get_peer_conf_name h.db peer) [
      | ok conf ↦ record h { subscribed = unsubscribe conf peer h.subscribed }
      | err _ ↦ h
    ];
    response = none;
    disconnects = false;
  }

  unfoldable pub on_block_height : Hub → Handling
  on_block_height h = elim (get_last_block_height h.db) [
    | ok (some height) ↦ respond h (PeerResponse.block_height height)
    | ok none ↦ respond h PeerResponse.error
    | err _ ↦ respond h PeerResponse.error
  ]

  -- A report is stored without a look at its signature, and the answer does not tell whether it was.
  unfoldable pub on_report : NodeReport → Text → Hub → Handling
  on_report report peer h = elim (x.report.from_slice report.report) [
    | err _ ↦ respond h (PeerResponse.report bad)
    | ok rep ↦ elim (get_peer_pk h.db peer) [
      | ok (some node_pk) ↦
          respond (try_db h (store_stats h.db node_pk report.report report.sig rep.timestamp))
            (PeerResponse.report good)
      | ok none ↦ respond h (PeerResponse.report bad)
      | err _ ↦ respond h (PeerResponse.report bad)
    ]
  ]

  abbrev pub peer_config : Text → Hub → Fallible NodeConfig
  peer_config peer h = do v ← get_peer_conf h.db peer; x.node_config.from_slice v

  unfoldable pub on_node_config : Text → Hub → Fallible Handling
  on_node_config peer h = elim (peer_config peer h) [
    | ok conf ↦ ok (respond h (PeerResponse.node_config conf))
    | err _ ↦ ok (respond h PeerResponse.error)
  ]

  -- `update` stops the program if the configuration cannot be written.
  unfoldable pub on_node_config_hash : Text → Hub → Fallible Handling
  on_node_config_hash peer h = elim (peer_config peer h) [
    | ok conf ↦ (do
      conf' ← node_update x conf
      ok (respond h (PeerResponse.node_config_hash conf'.hash)))
    | err _ ↦ ok (respond h PeerResponse.error)
  ]

  -- The loop over the rows: `none` where a key cannot be read.
  unfoldable pub list_masters :
      Option Text → PublicKey → List Bytes → Fallible (Option (List MasterNode))
  list_masters addr own [] = ok (some [])
  list_masters addr own (k ∷ keys) =
      let rest = list_masters addr own keys in
      elim (x.public_key.from_slice k) [
        | err _ ↦ ok none
        | ok pk ↦ (do
          a ← own_addr addr own pk
          r ← rest
          ok (elim r [ none ↦ none | some ms ↦ some (record { pubkey = pk; addr = a } ∷ ms) ]))
      ]

  unfoldable pub on_master_node_list : Hub → Fallible Handling
  on_master_node_list h = do
    r ← list_masters h.addr h.pubkey (get_master_nodes h.db)
    ok (elim r [
      | none ↦ respond h PeerResponse.error
      | some list ↦ respond h (PeerResponse.master_node_list list)
    ])

  unfoldable pub on_master_node_list_hash : Hub → Fallible Handling
  on_master_node_list_hash h = do
    r ← list_masters h.addr h.pubkey (get_master_nodes h.db)
    ok (elim r [
      | none ↦ respond h PeerResponse.error
      | some list ↦ elim (hash x list) [
        | ok v ↦ respond h (PeerResponse.master_node_list_hash v)
        | err _ ↦ respond h PeerResponse.error
      ]
    ])

  unfoldable pub handle : ℕ → PeerRequest → Text → Hub → Fallible Handling
  unfolding on_hello on_subscribe on_unsubscribe on_block_height on_report on_node_config
      on_node_config_hash on_master_node_list on_master_node_list_hash
  handle protocol_version (PeerRequest.hello version pk) peer h =
      ok (on_hello protocol_version version pk peer h)
  handle protocol_version PeerRequest.hello_subscribe peer h = ok (on_subscribe peer h)
  handle protocol_version PeerRequest.unsubscribe_default_node peer h = ok (on_unsubscribe peer h)
  handle protocol_version PeerRequest.block_height peer h = ok (on_block_height h)
  handle protocol_version (PeerRequest.report r) peer h = ok (on_report r peer h)
  handle protocol_version PeerRequest.node_config peer h = on_node_config peer h
  handle protocol_version PeerRequest.node_config_hash peer h = on_node_config_hash peer h
  handle protocol_version PeerRequest.master_node_list peer h = on_master_node_list h
  handle protocol_version PeerRequest.master_node_list_hash peer h = on_master_node_list_hash h
  handle protocol_version (PeerRequest.update_config c) peer h = ok (respond h PeerResponse.error)
  handle protocol_version (PeerRequest.update_master_node_list l) peer h =
      ok (respond h PeerResponse.error)
  handle protocol_version (PeerRequest.get_stats o) peer h = ok (respond h PeerResponse.error)
