-- ===== src/Invariant/Reached.antt =====
-- The tables of a node or a client, whatever its handlers have been called with and in which order.
use pfe_development_of_a_mon.Prelude.{
  ℕ, ◌≡◌, Option, Bytes, Text, ok, OnOk_elim, Fallible-cases, inl, inr,
}
use pfe_development_of_a_mon.Proto.Types.{PublicKey, BodyData}
use pfe_development_of_a_mon.Proto.External.{Codec, External}
use pfe_development_of_a_mon.Database.Tables.{Database}
use pfe_development_of_a_mon.Consensus.Types.{NetData, NetEvent, Master}
use pfe_development_of_a_mon.Consensus.Events.{handle_event}
use pfe_development_of_a_mon.Consensus.Submit.{commit}
use pfe_development_of_a_mon.Consensus.First.{create}
use pfe_development_of_a_mon.Consensus.Genesis.{empty}
use pfe_development_of_a_mon.Peers.Messages.{PeerRequest}
use pfe_development_of_a_mon.Peers.Hub
use pfe_development_of_a_mon.Peers.Hub.{Hub, Handling}
use pfe_development_of_a_mon.Client.Sync.{Replica}
use pfe_development_of_a_mon.Client.Channel
use pfe_development_of_a_mon.Client.Channel.{
  ClientRequest, ClientResponse, Link, good, send_response,
}
use pfe_development_of_a_mon.Invariant.Keys.{IsConsistent}
use pfe_development_of_a_mon.Invariant.Handlers.{
  commit-IsConsistent, create-IsConsistent, handle_blocks-IsConsistent, handle_stats-IsConsistent,
}
use pfe_development_of_a_mon.Invariant.Events.{handle_event-IsConsistent, handle-IsConsistent}

module _ (x : External) (net : Codec NetData) (requests : Codec ClientRequest)
    (responses : Codec ClientResponse) where
  -- One call of a handler, with the tables before and after it.
  infix 40 ◌⟶◌
  pub data ◌⟶◌ : Database → Database → Type 0 where
    -- the first block is made
    created :
        (db after : Database) (node_pk pk : PublicKey) (now : ℕ)
        → create x net db node_pk pk now ≡ ok after
        → db ⟶ after
    -- a submitted block is stored and executed after its vote
    committed :
        (m : Master) (body : BodyData) (height : ℕ) (vhash : Option Bytes) (seed : Bytes)
        → m.db ⟶ (commit x net body height vhash seed m).state.db
    -- a message or a time-out of the vote on another node's block
    heard : (m : Master) (e : NetEvent) → m.db ⟶ (handle_event x net m e).db
    -- a request of another node
    asked :
        (h : Hub) (version : ℕ) (req : PeerRequest) (peer : Text) (r : Handling)
        → Hub.handle x version req peer h ≡ ok r
        → h.db ⟶ r.hub.db
    -- a message of the master node to a client
    told :
        (r : Replica) (l : Link) (bytes : Bytes) (peer : Text) (channel : ℕ)
        → r.db ⟶ (Channel.handle requests responses x bytes peer channel (r, l)).0.db

  infix 40 ◌⟶*◌
  pub data ◌⟶*◌ : Database → Database → Type 0 where
    done : (db : Database) → db ⟶* db
    next : (a b c : Database) → a ⟶ b → b ⟶* c → a ⟶* c

  client-IsConsistent :
      (r : Replica) (l : Link) (bytes : Bytes) (peer : Text) (channel : ℕ)
      → IsConsistent x r.db
      → IsConsistent x (Channel.handle requests responses x bytes peer channel (r, l)).0.db
  unfolding Channel.handle
  client-IsConsistent r l bytes peer channel h = elim (Fallible-cases (requests.from_slice bytes)) [
    | inr (f, e) ↦ rw (Channel.handle, e) h
    | inl (ClientRequest.hello v k s, e) ↦ rw (Channel.handle, e) h
    | inl (ClientRequest.request q, e) ↦ rw (Channel.handle, e) h
    | inl (ClientRequest.stat s, e) ↦ rw (Channel.handle, e) h
    | inl (ClientRequest.get_stats k o, e) ↦ rw (Channel.handle, e) h
    | inl (ClientRequest.block blocks, e) ↦
        elim (Fallible-cases
          (send_response requests responses (ClientResponse.block good) channel l)) [
            | inr (f, e') ↦ rw (Channel.handle, e, e') h
            | inl (l', e') ↦ rw (Channel.handle, e, e') (handle_blocks-IsConsistent x blocks r h)
          ]
    | inl (ClientRequest.stats reports, e) ↦
        elim (Fallible-cases
          (send_response requests responses (ClientResponse.stats good) channel l)) [
            | inr (f, e') ↦ rw (Channel.handle, e, e') h
            | inl (l', e') ↦ rw (Channel.handle, e, e') (handle_stats-IsConsistent x reports r.db h)
          ]
  ]

  ⟶-IsConsistent : (a b : Database) → a ⟶ b → IsConsistent x a → IsConsistent x b
  ⟶-IsConsistent a b (created _ _ node_pk pk now e) h =
      create-IsConsistent x net a node_pk pk now h e
  ⟶-IsConsistent a b (committed m body height vhash seed) h =
      commit-IsConsistent x net body height vhash seed m h
  ⟶-IsConsistent a b (heard m e) h = handle_event-IsConsistent x net m h e
  ⟶-IsConsistent a b (asked hub version req peer r e) h =
      OnOk_elim _ _ (handle-IsConsistent x version req peer hub h) e
  ⟶-IsConsistent a b (told r l bytes peer channel) h = client-IsConsistent r l bytes peer channel h

  ⟶*-IsConsistent : (a b : Database) → a ⟶* b → IsConsistent x a → IsConsistent x b
  ⟶*-IsConsistent a b (done _) h = h
  ⟶*-IsConsistent a c (next _ b _ s rest) h = ⟶*-IsConsistent b c rest (⟶-IsConsistent a b s h)

  empty-IsConsistent : IsConsistent x (empty x net)
  empty-IsConsistent = record {
    users = tt;
    chain = tt;
    nodes = tt;
    peer_ids = tt;
    stats = tt;
    configs = tt;
    peers_refer = λ e. tt;
    stats_refer = λ e. tt;
  }

  -- Whatever is executed, heard, asked or sent, and in whatever order: in tables that have come from
  -- empty ones no two rows have the same key, and where foreign keys are enforced each peer and each
  -- report that names a node names one that is there.
  pub empty-⟶* : (db : Database) → empty x net ⟶* db → IsConsistent x db
  empty-⟶* db run = ⟶*-IsConsistent (empty x net) db run empty-IsConsistent
