-- ===== src/Peers/Plain.antt =====
-- A plain node: its tables (nyumt-proto/src/database), `handle` of nyumt-node/src/node/req_resp.rs, and
-- `async_sync`, the start and the dispatch of reports (nyumt-node/src/node/{activity,mod}.rs).
use pfe_development_of_a_mon.Prelude.{
  ℕ, ◌+◌, ℤ, Bool, true, false, Option, none, some, List, [], ◌∷◌, ◌++◌, ◌==◌, any, find, Bytes,
  Text, if◌then◌else◌, Fallible, ok, err, ◌>>=◌,
}
use pfe_development_of_a_mon.Stats.Types.{Oid}
use pfe_development_of_a_mon.Stats.Oids.{from_oid}
use pfe_development_of_a_mon.Stats.Usage.{System, Floats}
use pfe_development_of_a_mon.Stats.Report.{generate_report}
use pfe_development_of_a_mon.Proto.Types.{NodeConfig}
use pfe_development_of_a_mon.Proto.Config.{node_update, node_default}
use pfe_development_of_a_mon.Proto.External.{External}
use pfe_development_of_a_mon.Interpret.Execute.{update_where}
use pfe_development_of_a_mon.Peers.Messages.{MasterNode, PeerRequest, PeerResponse}

-- A row of `node`, and a row of `config`, in the tables of a plain node.
pub record MasterRow : Type 0 where
  pub id : ℕ
  pub public_key : Bytes
  pub addr : Option Text

pub record ConfRow : Type 0 where
  pub node : ℕ
  pub node_conf : Bytes

pub record Tables : Type 0 where
  pub masters : List MasterRow
  pub confs : List ConfRow

-- The upsert on the row of node 0.
unfoldable pub update_local_node_conf : Tables → Bytes → Tables
update_local_node_conf t conf =
    if any (λ r. r.node == 0) t.confs
    then record t {
      confs = update_where (λ r. r.node == 0) (λ r. record r { node_conf = conf }) t.confs;
    }
    else record t { confs = t.confs ++ record { node = 0; node_conf = conf } ∷ [] }

abbrev pub conf_of : Option ConfRow → Option Bytes
conf_of none = none
conf_of (some r) = some r.node_conf

unfoldable pub load_local_node_conf : Tables → Option Bytes
load_local_node_conf t = conf_of (find (λ r. r.node == 0) t.confs)

-- The inserts after the table was emptied: SQLite counts the ids from 1.
abbrev pub numbered_from : ℕ → List (Bytes × Option Text) → List MasterRow
numbered_from n [] = []
numbered_from n ((pk, addr) ∷ masters) =
    record { id = n; public_key = pk; addr = addr } ∷ numbered_from (n + 1) masters

unfoldable pub add_master_nodes : Tables → List (Bytes × Option Text) → Tables
add_master_nodes t masters = record t { masters = numbered_from 1 masters }

-- `SwarmSettings`. `stopped` is raised where the node sends a stop request to the runtime.
pub record PlainNode : Type 0 where
  pub tables : Tables
  pub conf : NodeConfig
  pub default_master_node : Option Text
  pub stopped : Bool

module _ (x : External) where
  -- The configuration with which `serve` starts. One that is read has no hash yet.
  unfoldable pub initial_conf : Tables → Fallible NodeConfig
  initial_conf t = elim (load_local_node_conf t) [
    | some v ↦ elim (x.node_config.from_slice v) [ ok c ↦ ok c | err _ ↦ node_default x ]
    | none ↦ node_default x
  ]

  unfoldable pub written_masters : List MasterNode → Fallible (List (Bytes × Option Text))
  written_masters [] = ok []
  written_masters (i ∷ list) = do
    pk ← x.public_key.to_vec i.pubkey
    rest ← written_masters list
    ok ((pk, i.addr) ∷ rest)

  abbrev stored : Tables → Fallible Bytes → Tables
  stored t (ok v) = update_local_node_conf t v
  stored t (err _) = t

  -- `handle`: the node after it, and the response.
  unfoldable pub on_update_config : NodeConfig → PlainNode → Fallible (PlainNode × PeerResponse)
  on_update_config config n = do
    let tables = stored n.tables (x.node_config.to_vec config)
    conf ← node_update x config
    ok (record n { tables = tables; conf = conf }, PeerResponse.good)

  unfoldable pub on_update_list : List MasterNode → PlainNode → PlainNode × PeerResponse
  unfolding written_masters add_master_nodes
  on_update_list list n = elim (written_masters list) [
    | ok vec ↦ (record n { tables = add_master_nodes n.tables vec }, PeerResponse.good)
    | err _ ↦ (n, PeerResponse.error)
  ]

  -- `sys` and `now` are the machine and its clock, `sign` is the signature of the node.
  module _ (f : Floats) (sys : System) (now : ℤ) (sign : Bytes → Fallible Bytes) where
    unfoldable pub live_stats : Oid → PeerResponse
    unfolding generate_report from_oid
    live_stats oid =
        let answer = (do
          rep ← generate_report f sys now (from_oid oid)
          v ← x.report.to_vec rep
          sig ← sign v
          ok (PeerResponse.get_stats rep sig)) in
        elim answer [ ok r ↦ r | err _ ↦ PeerResponse.error ]

    unfoldable pub handle : PeerRequest → PlainNode → Fallible (PlainNode × PeerResponse)
    unfolding on_update_config on_update_list live_stats
    handle (PeerRequest.update_config config) n = on_update_config config n
    handle (PeerRequest.update_master_node_list list) n = ok (on_update_list list n)
    handle (PeerRequest.get_stats oid) n = ok (n, live_stats oid)
    handle (PeerRequest.hello version pk) n = ok (n, PeerResponse.error)
    handle PeerRequest.hello_subscribe n = ok (n, PeerResponse.error)
    handle PeerRequest.block_height n = ok (n, PeerResponse.error)
    handle PeerRequest.node_config n = ok (n, PeerResponse.error)
    handle PeerRequest.node_config_hash n = ok (n, PeerResponse.error)
    handle PeerRequest.master_node_list n = ok (n, PeerResponse.error)
    handle PeerRequest.master_node_list_hash n = ok (n, PeerResponse.error)
    handle PeerRequest.unsubscribe_default_node n = ok (n, PeerResponse.error)
    handle (PeerRequest.report r) n = ok (n, PeerResponse.error)

  -- The responses that `handle_response` passes on to the task that waits; any other is dropped, and
  -- the task goes on waiting.
  abbrev pub is_passed : PeerResponse → Bool
  is_passed (PeerResponse.node_config_hash v) = true
  is_passed (PeerResponse.node_config c) = true
  is_passed (PeerResponse.master_node_list_hash v) = true
  is_passed (PeerResponse.master_node_list l) = true
  is_passed _ = false

  -- Where the task stands in the end: done, with the subscription that it sends; stopped; ended by an
  -- error; or waiting for good.
  pub data Sync : Type 0 where
    subscribes : Text → PlainNode → Sync
    stops : PlainNode → Sync
    fails : PlainNode → Sync
    waits : PlainNode → Sync

  abbrev stop : PlainNode → Sync
  stop n = stops (record n { stopped = true })

  -- The end of `async_sync`, with what was answered.
  unfoldable pub finish_sync : Text → List (Bytes × Option Text) → NodeConfig → PlainNode → Sync
  finish_sync peer master_list config n = elim (x.node_config.to_vec config) [
    | err _ ↦ fails n
    | ok v ↦
        let n' = record n {
          tables = add_master_nodes (update_local_node_conf n.tables v) master_list;
        } in
        elim (node_update x config) [
          | ok config' ↦ subscribes peer (record n' { conf = config' })
          | err _ ↦ fails n'
        ]
  ]

  unfoldable pub config_answer :
      Text → List (Bytes × Option Text) → Option PeerResponse → PlainNode → Sync
  unfolding finish_sync
  config_answer peer master_list none n = stop n
  config_answer peer master_list (some (PeerResponse.node_config conf)) n =
      finish_sync peer master_list conf n
  config_answer peer master_list (some other) n = if is_passed other then stop n else waits n

  -- `async_sync` with the peer that was drawn, and what came back for the list and the configuration:
  -- `none` where the channel is closed.
  unfoldable pub async_sync :
      Option Text → Option PeerResponse → Option PeerResponse → PlainNode → Sync
  unfolding config_answer written_masters
  async_sync none list_resp config_resp n = stop n
  async_sync (some peer) none config_resp n = stop n
  async_sync (some peer) (some (PeerResponse.master_node_list list)) config_resp n =
      elim (written_masters list) [
        | ok vec ↦ config_answer peer vec config_resp n
        | err _ ↦ fails n
      ]
  async_sync (some peer) (some other) config_resp n = if is_passed other then stop n else waits n

-- The dispatch of a report: to the default master node, which is the first connected peer where there
-- is none yet; to nobody where no peer is connected.
unfoldable pub dispatch_report : List Text → PlainNode → PlainNode × Option Text
dispatch_report connected n = elim n.default_master_node [
  | some master ↦ (n, some master)
  | none ↦ elim connected [
    | [] ↦ (n, none)
    | ◌∷◌ p _ ↦ (record n { default_master_node = some p }, some p)
  ]
]
