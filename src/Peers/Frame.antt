-- ===== src/Peers/Frame.antt =====
-- What a request of another node leaves alone (`handle` of nyumt-node/src/master/req_resp.rs).
use pfe_development_of_a_mon.Prelude.{
  ℕ, ◌≡◌, ◌⊎◌, refl, Bool-cases, Option-cases, some, [], ◌∷◌, ◌++◌, any, find, as_i64, Bytes, Text,
  ok, OnOk, inl, inr, arith,
}
use pfe_development_of_a_mon.Proto.External.{External}
use pfe_development_of_a_mon.Database.Tables.{StatRow, Database}
use pfe_development_of_a_mon.Database.Nodes.{node_id, update_peerid, get_peer_pk}
use pfe_development_of_a_mon.Database.Reports.{store_stats, clashes, append_stats}
use pfe_development_of_a_mon.Database.Users.{is_node}
use pfe_development_of_a_mon.Peers.Messages.{PeerRequest}
use pfe_development_of_a_mon.Peers.Preserve.{handle-preserves}
use pfe_development_of_a_mon.Peers.Hub.{Hub, Subscriptions, try_db, handle}

-- The stored report is the last row, of the node that has the peer's key.
abbrev pub AddsReport : Text → Database → Database → Type 0
AddsReport peer db after =
    (after.stats ≡ db.stats)
    ⊎ ((pk : Bytes) × (r : StatRow) × (get_peer_pk db peer ≡ ok (some pk))
        × (r.node ≡ node_id db pk)
        × (after.stats ≡ db.stats ++ r ∷ []))

-- The chain, the users, the nodes and the configurations are as they were, and so are the reports but
-- for one of the peer.
pub record Frames (peer : Text) (h after : Hub) : Type 0 where
  pub users : after.db.users ≡ h.db.users
  pub chain : after.db.chain ≡ h.db.chain
  pub nodes : after.db.nodes ≡ h.db.nodes
  pub configs : after.db.configs ≡ h.db.configs
  pub conf : after.conf ≡ h.conf
  pub reports : AddsReport peer h.db after.db

Frames-refl : (peer : Text) (h : Hub) → Frames peer h h
Frames-refl peer h = record {
  users = refl;
  chain = refl;
  nodes = refl;
  configs = refl;
  conf = refl;
  reports = inl refl;
}

module _ (x : External) (peer : Text) (h : Hub) where
  update_peerid-Frames : (v : Bytes) → Frames peer h (try_db h (update_peerid h.db v peer))
  unfolding update_peerid
  update_peerid-Frames v = record {
    users = ground arith;
    chain = ground arith;
    nodes = ground arith;
    configs = ground arith;
    conf = refl;
    reports = inl (ground arith);
  }

  append_stats-Frames :
      (pk contents sig : Bytes) (time : ℕ)
      → get_peer_pk h.db peer ≡ ok (some pk)
      → Frames peer h (record h { db = append_stats h.db (node_id h.db pk) contents sig time })
  append_stats-Frames pk contents sig time e = record {
    users = refl;
    chain = refl;
    nodes = refl;
    configs = refl;
    conf = refl;
    reports = inr (pk, _, e, refl, refl);
  }

  store_stats-Frames :
      (pk contents sig : Bytes) (time : ℕ)
      → get_peer_pk h.db peer ≡ ok (some pk)
      → Frames peer h (try_db h (store_stats h.db pk contents sig time))
  unfolding store_stats node_id
  store_stats-Frames pk contents sig time e =
      let added = append_stats-Frames pk contents sig time e in
      elim (Option-cases (find (is_node pk) h.db.nodes)) [
        | inl missing ↦ rw (store_stats, missing) (rw (missing, node_id) at added)
        | inr (n, found) ↦ elim (Bool-cases (any (clashes (as_i64 time) n.id) h.db.stats)) [
          | inl taken ↦ rw (store_stats, found, taken) (Frames-refl peer h)
          | inr free ↦ rw (store_stats, found, free) (rw (found, node_id) at added)
        ]
      ]

  subscribed-Frames : (subs : Subscriptions) → Frames peer h (record h { subscribed = subs })
  subscribed-Frames subs = record {
    users = refl;
    chain = refl;
    nodes = refl;
    configs = refl;
    conf = refl;
    reports = inl refl;
  }

  -- Whatever another node asks of a master node, the chain, the users, the nodes and the configurations
  -- stay as they are; at most one report is added, and it is filed under the node that has the key of
  -- the peer.
  pub handle-Frames :
      (protocol_version : ℕ) (req : PeerRequest)
      → OnOk (λ r. Frames peer h r.hub) (handle x protocol_version req peer h)
  handle-Frames protocol_version req =
      handle-preserves x peer h (Frames peer h) (Frames-refl peer h) subscribed-Frames
        update_peerid-Frames store_stats-Frames protocol_version req
