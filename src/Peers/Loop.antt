-- ===== src/Peers/Loop.antt =====
-- The loop of a plain node and what its tasks ask of it: `swarm_event_handler` and `SwarmHandlerCall`
-- (nyumt-node/src/node/activity.rs).
use pfe_development_of_a_mon.Prelude.{
  ℕ, ◌+◌, true, Option, none, some, List, [], ◌∷◌, ◌++◌, length, Bytes, Text, Fallible, ok, err,
  panicked,
}
use pfe_development_of_a_mon.Proto.Types.{PublicKey}
use pfe_development_of_a_mon.Proto.External.{Codec}
use pfe_development_of_a_mon.Peers.Messages.{PeerRequest}
use pfe_development_of_a_mon.Peers.Plain.{PlainNode, dispatch_report}

-- The node, and what the loop has done: the requests that it has handed to the swarm, among them the
-- reports, the responses, and the number of the synchronisations that it has started. Only the loop
-- writes `default_master_node`.
pub record Link : Type 0 where
  pub node : PlainNode
  pub sent : List (Text × Bytes)
  pub reports : List (Text × Bytes)
  pub responses : List (ℕ × Bytes)
  pub syncs : ℕ

-- `SwarmHandlerRequest`. The key and the time of a report are not looked at.
pub data Call : Type 0 where
  report : Bytes → ℕ → Bytes → Call
  peers peers_count synchronise : Call
  request : Text → Bytes → Call
  response : ℕ → Bytes → Call

-- `SwarmHandlerResponse`.
pub data Reply : Type 0 where
  report synchronise nothing : Reply
  peers_count : ℕ → Reply
  peers : List Text → Reply
  resp : ℕ → Reply

abbrev pub send_request : Text → Bytes → Link → Link
send_request peer bytes l = record l { sent = l.sent ++ (peer, bytes) ∷ [] }

abbrev pub send_report : Bytes → PlainNode × Option Text → Link → Link
send_report bytes (n, none) l = record l { node = n }
send_report bytes (n, some peer) l = record l {
  node = n;
  sent = l.sent ++ (peer, bytes) ∷ [];
  reports = l.reports ++ (peer, bytes) ∷ [];
}

-- `connected` are the peers with a connection at that time, `id` is the one that libp2p gives to a request.
unfoldable pub on_call : List Text → ℕ → Call → Link → Reply × Link
unfolding dispatch_report
on_call connected id (Call.report pk timestamp bytes) l =
    (Reply.report, send_report bytes (dispatch_report connected l.node) l)
on_call connected id Call.peers l = (Reply.peers connected, l)
on_call connected id Call.peers_count l = (Reply.peers_count (length connected), l)
on_call connected id Call.synchronise l = (Reply.synchronise, record l { syncs = l.syncs + 1 })
on_call connected id (Call.request peer bytes) l = (Reply.resp id, send_request peer bytes l)
on_call connected id (Call.response channel bytes) l =
    (Reply.nothing, record l { responses = l.responses ++ (channel, bytes) ∷ [] })

-- What happens: a call, or a connection that is established.
pub data Event : Type 0 where
  call : List Text → ℕ → Call → Event
  connection_established : Text → Event

module _ (requests : Codec PeerRequest) (protocol_version : ℕ) (pubkey : PublicKey) where
  -- A node that cannot write its greeting stops.
  unfoldable pub on_connection : Text → Link → Link
  on_connection peer l = elim (requests.to_vec (PeerRequest.hello protocol_version pubkey)) [
    | ok v ↦ send_request peer v l
    | err _ ↦ record l { node = record l.node { stopped = true } }
  ]

  unfoldable pub step : Link → Event → Link
  unfolding on_call on_connection
  step l (call connected id c) = (on_call connected id c l).1
  step l (connection_established peer) = on_connection peer l

  unfoldable pub run : Link → List Event → Link
  run l [] = l
  run l (e ∷ es) = run (step l e) es

  -- The methods of `SwarmHandlerCall`: an answer of another kind stops the task.
  module _ (connected : List Text) (id : ℕ) where
    abbrev on_report : Reply × Link → Fallible Link
    on_report (Reply.report, l) = ok l
    on_report (_, l) = err panicked

    abbrev on_count : Reply × Link → Fallible (ℕ × Link)
    on_count (Reply.peers_count v, l) = ok (v, l)
    on_count (_, l) = err panicked

    abbrev on_peers : Reply × Link → Fallible (List Text × Link)
    on_peers (Reply.peers v, l) = ok (v, l)
    on_peers (_, l) = err panicked

    abbrev on_synchronise : Reply × Link → Fallible Link
    on_synchronise (Reply.synchronise, l) = ok l
    on_synchronise (_, l) = err panicked

    abbrev on_resp : Reply × Link → Fallible (ℕ × Link)
    on_resp (Reply.resp v, l) = ok (v, l)
    on_resp (_, l) = err panicked

    abbrev on_nothing : Reply × Link → Fallible Link
    on_nothing (Reply.nothing, l) = ok l
    on_nothing (_, l) = err panicked

    unfoldable publish_report : Bytes → ℕ → Bytes → Link → Fallible Link
    unfolding on_call
    publish_report pk timestamp bytes l =
        on_report (on_call connected id (Call.report pk timestamp bytes) l)

    unfoldable count_peers : Link → Fallible (ℕ × Link)
    unfolding on_call
    count_peers l = on_count (on_call connected id Call.peers_count l)

    unfoldable peers_list : Link → Fallible (List Text × Link)
    unfolding on_call
    peers_list l = on_peers (on_call connected id Call.peers l)

    unfoldable synchronise_node : Link → Fallible Link
    unfolding on_call
    synchronise_node l = on_synchronise (on_call connected id Call.synchronise l)

    -- `get_config`, `get_master_node_list` and `subscribe`: a request that cannot be written stops the
    -- task.
    unfoldable ask : PeerRequest → Text → Link → Fallible (ℕ × Link)
    unfolding on_call
    ask r peer l = elim (requests.to_vec r) [
      | ok bytes ↦ on_resp (on_call connected id (Call.request peer bytes) l)
      | err _ ↦ err panicked
    ]

    abbrev get_config : Text → Link → Fallible (ℕ × Link)
    get_config = ask PeerRequest.node_config

    abbrev get_master_node_list : Text → Link → Fallible (ℕ × Link)
    get_master_node_list = ask PeerRequest.master_node_list

    abbrev subscribe : Text → Link → Fallible (ℕ × Link)
    subscribe = ask PeerRequest.hello_subscribe

    unfoldable respond : ℕ → Bytes → Link → Fallible Link
    unfolding on_call
    respond channel bytes l = on_nothing (on_call connected id (Call.response channel bytes) l)
