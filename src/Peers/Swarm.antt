-- ===== src/Peers/Swarm.antt =====
-- The loop of a master node and what its tasks ask of it: `swarm_event_handler` and `SwarmHandlerCall`
-- (nyumt-node/src/master/activity.rs).
use pfe_development_of_a_mon.Prelude.{
  ℕ, ◌%◌, Bool, Option, none, some, List, [], ◌∷◌, ◌++◌, length, u32_mod, Bytes, Text, Fallible, ok,
  err, panicked,
}
use pfe_development_of_a_mon.Consensus.Publish.{Answer}

-- What the swarm says at the time of a call: the peers of the gossip mesh, the addresses under which the
-- node is known, whether a peer is connected, what gossipsub answers, and the id that it gives to the
-- next request.
pub record Network : Type 0 where
  pub mesh_peers : List Text
  pub external_addresses : List Text
  pub connected : Text → Bool
  pub gossip : Text → Bytes → Answer
  pub request_id : ℕ

-- The address of `SwarmSettings`, and what was handed to the swarm.
pub record Loop : Type 0 where
  pub addr : Option Text
  pub sent : List (Text × Bytes)
  pub responses : List (ℕ × Bytes)
  pub gossiped : List (Text × Bytes)
  pub topics : List Text
  pub left : List Text

-- `SwarmHandlerRequest`.
pub data Call : Type 0 where
  publish : Text → Bytes → Call
  master_peers_count address : Call
  disconnect_peer subscribe peer_present : Text → Call
  config_update master_node_list_update request : Text → Bytes → Call
  response : ℕ → Bytes → Call

-- `SwarmHandlerResponse`.
pub data Reply : Type 0 where
  publish : Answer → Reply
  master_peers_count request : ℕ → Reply
  disconnect_peer_status peer_present : Bool → Reply
  config_update master_node_list_update subscribe nothing : Reply
  address : Text → Reply

abbrev send_request : Text → Bytes → Loop → Loop
send_request peer bytes l = record l { sent = l.sent ++ (peer, bytes) ∷ [] }

-- `none` where the loop drops the call without an answer.
unfoldable pub on_call : Network → Call → Loop → Option Reply × Loop
on_call net (Call.request peer bytes) l =
    (some (Reply.request net.request_id), send_request peer bytes l)
on_call net (Call.response channel bytes) l =
    (some Reply.nothing, record l { responses = l.responses ++ (channel, bytes) ∷ [] })
on_call net (Call.peer_present peer) l = (some (Reply.peer_present (net.connected peer)), l)
on_call net Call.master_peers_count l =
    (some (Reply.master_peers_count (length net.mesh_peers % u32_mod)), l)
on_call net (Call.config_update peer bytes) l =
    (some Reply.config_update, send_request peer bytes l)
on_call net (Call.master_node_list_update peer bytes) l =
    (some Reply.master_node_list_update, send_request peer bytes l)
on_call net (Call.publish topic bytes) l = (
  some (Reply.publish (net.gossip topic bytes)),
  record l { gossiped = l.gossiped ++ (topic, bytes) ∷ [] },
)
on_call net (Call.disconnect_peer peer) l = (
  some (Reply.disconnect_peer_status (net.connected peer)),
  record l { left = l.left ++ peer ∷ [] },
)
on_call net (Call.subscribe topic) l =
    (some Reply.subscribe, record l { topics = l.topics ++ topic ∷ [] })
on_call net Call.address l = elim net.external_addresses [
  | [] ↦ (none, l)
  | ◌∷◌ a _ ↦ (some (Reply.address a), l)
]

-- The first incoming connection gives the node its address.
unfoldable pub on_incoming : Text → Loop → Loop
on_incoming local_addr l = elim l.addr [ none ↦ record l { addr = some local_addr } | some _ ↦ l ]

-- What happens: a call, or an incoming connection.
pub data Event : Type 0 where
  call : Network → Call → Event
  incoming_connection : Text → Event

unfoldable pub step : Loop → Event → Loop
unfolding on_call on_incoming
step l (call net c) = (on_call net c l).1
step l (incoming_connection local_addr) = on_incoming local_addr l

unfoldable pub run : Loop → List Event → Loop
run l [] = l
run l (e ∷ es) = run (step l e) es

-- The methods of `SwarmHandlerCall`: a call that is dropped, or answered in another kind, stops the task.
abbrev taking : {A : Type 0} → (Reply → Option A) → Option Reply × Loop → Fallible (A × Loop)
taking take (none, l) = err panicked
taking take (some r, l) = elim (take r) [ none ↦ err panicked | some a ↦ ok (a, l) ]

abbrev take_publish : Reply → Option Answer
take_publish (Reply.publish v) = some v
take_publish _ = none

abbrev take_address : Reply → Option Text
take_address (Reply.address v) = some v
take_address _ = none

abbrev take_peers : Reply → Option ℕ
take_peers (Reply.master_peers_count v) = some v
take_peers _ = none

abbrev take_present : Reply → Option Bool
take_present (Reply.peer_present v) = some v
take_present _ = none

abbrev take_status : Reply → Option Bool
take_status (Reply.disconnect_peer_status v) = some v
take_status _ = none

module _ (net : Network) where
  unfoldable publish_data : Text → Bytes → Loop → Fallible (Answer × Loop)
  unfolding on_call
  publish_data topic bytes l = taking take_publish (on_call net (Call.publish topic bytes) l)

  unfoldable pub external_address : Loop → Fallible (Text × Loop)
  unfolding on_call
  external_address l = taking take_address (on_call net Call.address l)

  unfoldable count_peers : Loop → Fallible (ℕ × Loop)
  unfolding on_call
  count_peers l = taking take_peers (on_call net Call.master_peers_count l)

  unfoldable is_present : Text → Loop → Fallible (Bool × Loop)
  unfolding on_call
  is_present peer l = taking take_present (on_call net (Call.peer_present peer) l)

  unfoldable disconnect_from_peer : Text → Loop → Fallible (Bool × Loop)
  unfolding on_call
  disconnect_from_peer peer l = taking take_status (on_call net (Call.disconnect_peer peer) l)
