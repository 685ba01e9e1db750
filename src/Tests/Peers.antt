-- ===== src/Tests/Peers.antt =====
-- The requests between nodes.
use pfe_development_of_a_mon.Prelude.{
  arith, ◌-◌, ◌≡◌, refl, Bool, true, false, none, some, List, [], ◌∷◌, map, Bytes, Text, text, same,
  pos, Exists, Fallible, ok, err, row_not_found, OnOk, codec,
}
use pfe_development_of_a_mon.Stats.Usage.{Floats, System}
use pfe_development_of_a_mon.Proto.Types.{
  PublicKey, NodeConfig, ed25519, config_update, node_config_change,
}
use pfe_development_of_a_mon.Proto.Config.{node_update}
use pfe_development_of_a_mon.Proto.External.{Codec}
use pfe_development_of_a_mon.Database.Tables.{Database}
use pfe_development_of_a_mon.Database.Nodes.{get_master_nodes, get_peer_conf_name, get_peer_conf}
use pfe_development_of_a_mon.Peers.Messages.{MasterNode, PeerRequest, PeerResponse}
use pfe_development_of_a_mon.Peers.Hub.{
  Hub, Handling, respond, subscribe, on_subscribe, on_node_config_hash, list_masters,
  on_master_node_list, handle,
}
use pfe_development_of_a_mon.Peers.Plain
use pfe_development_of_a_mon.Peers.Plain.{
  PlainNode, subscribes, waits, initial_conf, load_local_node_conf, async_sync,
}
use pfe_development_of_a_mon.Peers.Updates.{Sent, on_update, send_update}
use pfe_development_of_a_mon.Peers.Frame.{Frames, handle-Frames}
use pfe_development_of_a_mon.Peers.Agree.{Canonical, row_key, async_sync-handle}
use pfe_development_of_a_mon.Peers.Reach.{send_update-handle}
use pfe_development_of_a_mon.Peers.Loop.{Link, Call, Event, call, connection_established, run}
use pfe_development_of_a_mon.Peers.Dispatch.{run-published}
use pfe_development_of_a_mon.Peers.Restart.{initial_conf-handle}
use pfe_development_of_a_mon.Peers.Collector.{Collector, follow}
use pfe_development_of_a_mon.Peers.Follow.{Keeps, follow-Keeps}
use pfe_development_of_a_mon.Tests.Sample.{toy, db, controller, sensor, master_config, node_config}

toy-Canonical : Canonical toy
toy-Canonical bytes pk h = let e : ed25519 bytes ≡ pk = cc in rw (← e) refl

abbrev known : Database
known = record db { peer_ids = record { node = some 1; peerid = text "peer" } ∷ [] }

abbrev hub_of : Database → Hub
hub_of d = record {
  db = d;
  subscribed = [];
  addr = some (text "/ip4/10.0.0.1");
  pubkey = controller;
  conf = record { master = master_config; node = node_config };
  conf_name = text "other";
}

abbrev hub : Hub
hub = hub_of known

abbrev plain : PlainNode
plain = record {
  tables = record { masters = []; confs = [] };
  conf = node_config;
  default_master_node = none;
  stopped = false;
}

abbrev masters : List MasterNode
masters = record { pubkey = controller; addr = some (text "/ip4/10.0.0.1") } ∷ []

handle-Frames_example :
    OnOk
      (λ (r : Handling). Frames (text "peer") hub r.hub)
      (handle toy 1 PeerRequest.hello_subscribe (text "peer") hub)
handle-Frames_example = handle-Frames toy (text "peer") hub 1 PeerRequest.hello_subscribe

async_sync-handle_example :
    (configured : Handling) × (after : PlainNode) × (v : Bytes) × (handle toy 1
        PeerRequest.node_config
        (text "peer")
        hub
      ≡ ok configured)
    × (async_sync toy
          (some (text "master"))
          (some (PeerResponse.master_node_list masters))
          configured.response
          plain
        ≡ subscribes (text "master") after)
    × (after.conf.hash ≡ 1 ∷ [])
    × (load_local_node_conf after.tables ≡ some v)
    × (v ≡ 1 ∷ [])
    × (map row_key after.tables.masters ≡ get_master_nodes known)
unfolding handle on_node_config_hash on_master_node_list list_masters same get_peer_conf node_update
    get_master_nodes
async_sync-handle_example =
    async_sync-handle toy toy-Canonical 1 (text "peer") (text "master") hub plain
      (respond hub (PeerResponse.node_config_hash (1 ∷ [])))
      (respond hub (PeerResponse.master_node_list masters)) (1 ∷ []) masters refl refl refl refl

abbrev writes_all : PeerRequest → Bool
writes_all r = true

abbrev peer_id_of : PublicKey → Fallible Text
peer_id_of k = ok (text "peer")

abbrev subscribed_hub : Hub
subscribed_hub = record hub { subscribed = (text "default", text "peer" ∷ []) ∷ [] }

send_update-handle_example :
    (conf : Text) × (get_peer_conf_name known (text "peer") ≡ ok conf)
    × OnOk
        (λ (s : Hub × List Sent).
          Exists (λ (msg : Sent). msg ≡ (text "peer", PeerRequest.update_config node_config)) s.1)
        (on_update toy writes_all peer_id_of none
          (config_update conf master_config node_config)
          (send_update toy writes_all peer_id_of none
            (node_config_change sensor (text "other") ∷ [])
            subscribed_hub).0)
unfolding handle on_subscribe subscribe same get_peer_conf_name
send_update-handle_example =
    send_update-handle toy writes_all peer_id_of none 1 (text "peer") hub
      (respond subscribed_hub PeerResponse.good) refl refl
      (node_config_change sensor (text "other") ∷ []) master_config node_config refl

abbrev floats : Floats
floats = record { sub = λ a b. a - b; mul = λ a b. a }

abbrev machine : System
machine = record {
  cpu_load = err row_not_found;
  memory = err row_not_found;
  networks = err row_not_found;
  network_stats = λ name. err row_not_found;
  interfaces = [];
  mounts = err row_not_found;
}

abbrev sign_plain : Bytes → Fallible Bytes
sign_plain b = ok b

initial_conf-handle_example :
    (after : PlainNode) × (Plain.handle toy floats machine
        (pos 0)
        sign_plain
        (PeerRequest.update_config node_config)
        plain
      ≡ ok (after, PeerResponse.good))
    × (after.conf ≡ record node_config { hash = 1 ∷ [] })
    × (initial_conf toy after.tables ≡ ok node_config)
    × (after.tables.masters ≡ [])
initial_conf-handle_example =
    initial_conf-handle toy floats machine (pos 0) sign_plain plain node_config node_config (1 ∷ [])
      refl refl

abbrev link : Link
link = record { node = plain; sent = []; reports = []; responses = []; syncs = 0 }

-- The second report finds another peer, and the third one none.
abbrev later : List Event
later =
    connection_established (text "other")
    ∷ call (text "other" ∷ []) 2 (Call.report [] 7 (2 ∷ []))
    ∷ call [] 3 (Call.report [] 8 (3 ∷ []))
    ∷ []

abbrev greetings : Codec PeerRequest
greetings = record { to_vec = λ r. ok (1 ∷ []); from_slice = λ b. err codec }

run-published_example :
    (run greetings 1 sensor link
      (call (text "master" ∷ []) 1 (Call.report [] 6 (1 ∷ [])) ∷ later)).reports
    ≡ (text "master", 1 ∷ []) ∷ (text "master", 2 ∷ []) ∷ (text "master", 3 ∷ []) ∷ []
run-published_example =
    run-published greetings 1 sensor link (text "master") [] 1 6 [] (1 ∷ []) later refl

abbrev collector : Collector
collector = record { conf = node_config; period = 5 }

abbrev renewed : NodeConfig
renewed = record node_config { hash = 8 ∷ []; report_timeframe = 60 }

follow-Keeps_example :
    OnOk (λ c. Keeps c × (c.conf.hash ≡ 8 ∷ [])) (follow (node_config ∷ renewed ∷ []) collector)
follow-Keeps_example = follow-Keeps (node_config ∷ renewed ∷ []) collector (refl, omega arith)
