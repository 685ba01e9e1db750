-- ===== src/Peers/Addresses.antt =====
-- The addresses that a master node names: to the nodes that ask it for the list of the master nodes, and to
-- those that it tells of a change of the list.
use pfe_development_of_a_mon.Prelude.{
  ◌≡◌, refl, Option, none, some, List, [], ◌∷◌, Text, ok, ◌>>=◌, inl, inr, Option-cases,
}
use pfe_development_of_a_mon.Proto.Types.{PublicKey}
use pfe_development_of_a_mon.Proto.External.{key_eq_refl}
use pfe_development_of_a_mon.Peers.Hub.{own_addr}
use pfe_development_of_a_mon.Peers.Swarm.{
  Network, Loop, Call, on_call, on_incoming, Event, call, incoming_connection, step, run,
  external_address,
}

abbrev first : List Text → Option Text
first [] = none
first (a ∷ _) = some a

-- What `send_update` takes for the node's own address, the first external one, is what the loop answers,
-- and where the loop drops the call the task stops.
external_address-own_addr :
    (net : Network) (l : Loop) (own : PublicKey)
    → own_addr (first net.external_addresses) own own
      ≡ (do (a, after) ← external_address net l; ok (some a))
unfolding external_address on_call
external_address-own_addr net l own = go net.external_addresses refl
  where
    go :
        (addresses : List Text)
        → net.external_addresses ≡ addresses
        → own_addr (first net.external_addresses) own own
          ≡ (do (a, after) ← external_address net l; ok (some a))
    go [] e = rw (external_address, on_call, e, key_eq_refl own) refl
    go (a ∷ rest) e = rw (external_address, on_call, e, key_eq_refl own) refl

-- The address at which the first connection came in.
abbrev first_incoming : List Event → Option Text
first_incoming [] = none
first_incoming (incoming_connection a ∷ es) = some a
first_incoming (call net c ∷ es) = first_incoming es

abbrev addr_or : Option Text → Option Text → Option Text
addr_or none b = b
addr_or (some a) b = some a

on_call-addr : (net : Network) (c : Call) (l : Loop) → (on_call net c l).1.addr ≡ l.addr
unfolding on_call
on_call-addr net (Call.request peer bytes) l = refl
on_call-addr net (Call.response channel bytes) l = refl
on_call-addr net (Call.peer_present peer) l = refl
on_call-addr net Call.master_peers_count l = refl
on_call-addr net (Call.config_update peer bytes) l = refl
on_call-addr net (Call.master_node_list_update peer bytes) l = refl
on_call-addr net (Call.publish topic bytes) l = refl
on_call-addr net (Call.disconnect_peer peer) l = refl
on_call-addr net (Call.subscribe topic) l = refl
on_call-addr net Call.address l = go net.external_addresses refl
  where
    go :
        (addresses : List Text)
        → net.external_addresses ≡ addresses
        → (on_call net Call.address l).1.addr ≡ l.addr
    go [] e = rw (on_call, e) refl
    go (a ∷ rest) e = rw (on_call, e) refl

-- A node names the address at which the first connection came in, and keeps it.
run-addr : (es : List Event) (l : Loop) → (run l es).addr ≡ addr_or l.addr (first_incoming es)
unfolding run step on_incoming
run-addr [] l = elim (Option-cases l.addr) [ inl e ↦ rw e refl | inr (a, e) ↦ rw e refl ]
run-addr (call net c ∷ es) l = rw (run-addr es (on_call net c l).1, on_call-addr net c l) refl
run-addr (incoming_connection a ∷ es) l = elim (Option-cases l.addr) [
  | inl e ↦ rw (run-addr es (on_incoming a l), on_incoming, e) refl
  | inr (b, e) ↦ rw (run-addr es (on_incoming a l), on_incoming, e) (rw e refl)
]
