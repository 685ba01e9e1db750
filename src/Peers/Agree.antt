-- ===== src/Peers/Agree.antt =====
-- A plain node that synchronises with a master node (`async_sync` of nyumt-node/src/node/activity.rs,
-- `handle` of nyumt-node/src/master/req_resp.rs).
use pfe_development_of_a_mon.Prelude.{
  ℕ, ◌+◌, ◌≡◌, refl, ap, ◌∙◌, true, false, Bool-cases, Option, none, some, List, [], ◌∷◌, ◌++◌,
  ◌==◌, any, find, map, Bytes, Text, ok, Fallible-cases, inl, inr, arith,
}
use pfe_development_of_a_mon.Proto.Types.{PublicKey, NodeConfig}
use pfe_development_of_a_mon.Proto.Config.{node_update}
use pfe_development_of_a_mon.Proto.External.{External}
use pfe_development_of_a_mon.Interpret.Execute.{update_where}
use pfe_development_of_a_mon.Database.Nodes.{get_master_nodes}
use pfe_development_of_a_mon.Peers.Messages.{MasterNode, PeerRequest, PeerResponse}
use pfe_development_of_a_mon.Peers.Hub.{
  Hub, Handling, respond, own_addr, on_node_config, on_node_config_hash, list_masters, peer_config,
  on_master_node_list, handle,
}
use pfe_development_of_a_mon.Peers.Plain.{
  MasterRow, ConfRow, Tables, update_local_node_conf, load_local_node_conf, conf_of, numbered_from,
  add_master_nodes, PlainNode, written_masters, subscribes, finish_sync, config_answer, async_sync,
}

-- What is read as a key is written the same way.
abbrev pub Canonical : External → Type 0
Canonical x =
    (bytes : Bytes) (pk : PublicKey)
    → x.public_key.from_slice bytes ≡ ok pk
    → x.public_key.to_vec pk ≡ ok bytes

abbrev pub row_key : MasterRow → Bytes
row_key r = r.public_key

abbrev first : Bytes × Option Text → Bytes
first (pk, addr) = pk

numbered_from-keys :
    (n : ℕ) (vec : List (Bytes × Option Text)) → map row_key (numbered_from n vec) ≡ map first vec
numbered_from-keys n [] = refl
numbered_from-keys n ((pk, addr) ∷ vec) = ap (λ ks. pk ∷ ks) (numbered_from-keys (n + 1) vec)

stored_conf :
    (conf : Bytes) (rows : List ConfRow)
    → any (λ r. r.node == 0) rows ≡ true
    → conf_of (
        find
          (λ r. r.node == 0)
          (update_where (λ r. r.node == 0) (λ r. record r { node_conf = conf }) rows))
      ≡ some conf
stored_conf conf [] h = cc
stored_conf conf (r ∷ rows) h = ground (arith, stored_conf conf rows)

added_conf :
    (conf : Bytes) (rows : List ConfRow)
    → any (λ r. r.node == 0) rows ≡ false
    → conf_of (find (λ r. r.node == 0) (rows ++ record { node = 0; node_conf = conf } ∷ []))
      ≡ some conf
added_conf conf [] h = refl
added_conf conf (r ∷ rows) h = ground (arith, added_conf conf rows)

-- What was stored is loaded.
pub load_local_node_conf-update_local_node_conf :
    (t : Tables) (conf : Bytes) → load_local_node_conf (update_local_node_conf t conf) ≡ some conf
unfolding load_local_node_conf update_local_node_conf
load_local_node_conf-update_local_node_conf t conf =
    elim (Bool-cases (any (λ r. r.node == 0) t.confs)) [
      | inl e ↦ rw e (stored_conf conf t.confs e)
      | inr e ↦ rw e (added_conf conf t.confs e)
    ]

module _ (x : External) (canonical : Canonical x) where
  -- The keys of the list that a master node answers are those of its table.
  pub list_masters-written :
      (addr : Option Text) (own : PublicKey) (keys : List Bytes) (l : List MasterNode)
      → list_masters x addr own keys ≡ ok (some l)
      → (vec : List (Bytes × Option Text)) × (written_masters x l ≡ ok vec) × (map first vec ≡ keys)
  unfolding list_masters written_masters
  list_masters-written addr own [] l h = let e : [] ≡ l = cc in rw (← e) ([], refl, refl)
  list_masters-written addr own (k ∷ keys) l h = elim (Fallible-cases (x.public_key.from_slice k)) [
    | inr (f, e) ↦ absurd (let h' = rw (list_masters, e) at h in cc)
    | inl (pk, e) ↦ elim (Fallible-cases (own_addr addr own pk)) [
      | inr (f, e') ↦ absurd (let h' = rw (list_masters, e, e') at h in cc)
      | inl (a, e') ↦ elim (Fallible-cases (list_masters x addr own keys)) [
        | inr (f, e'') ↦ absurd (let h' = rw (list_masters, e, e', e'') at h in cc)
        | inl (none, e'') ↦ absurd (let h' = rw (list_masters, e, e', e'') at h in cc)
        | inl (some ms, e'') ↦
            let h' = rw (list_masters, e, e', e'') at h in
            let head : MasterNode = record { pubkey = pk; addr = a } in
            let is : head ∷ ms ≡ l = cc in
            let (vec, written, same_keys) = list_masters-written addr own keys ms e'' in
            rw (← is) (
              rw (written_masters, canonical k pk e, written)
                ((k, a) ∷ vec, refl, ap (λ ks. k ∷ ks) same_keys))
      ]
    ]
  ]

  -- What a master node has answered where it answered the hash, and where it answered the list.
  module _ (peer : Text) (h : Hub) where
    hash_answer :
        (r : Handling) (d : Bytes)
        → on_node_config_hash x peer h ≡ ok r
        → r.response ≡ some (PeerResponse.node_config_hash d)
        → (c : NodeConfig) × (v : Bytes) × (peer_config x peer h ≡ ok c)
          × (x.node_config.to_vec c ≡ ok v)
          × (x.sha256 v ≡ d)
    unfolding on_node_config_hash node_update
    hash_answer r d e answered = elim (Fallible-cases (peer_config x peer h)) [
      | inr (f, e') ↦ absurd (
          let e2 = rw (on_node_config_hash, e') at e in
          let same_response : some PeerResponse.error ≡ r.response = cc in cc)
      | inl (c, e') ↦ elim (Fallible-cases (x.node_config.to_vec c)) [
        | inr (f, e'') ↦ absurd (let e2 = rw (on_node_config_hash, e', node_update, e'') at e in cc)
        | inl (v, e'') ↦
            let e2 = rw (on_node_config_hash, e', node_update, e'') at e in
            let same_response : some (PeerResponse.node_config_hash (x.sha256 v)) ≡ r.response =
              cc in
            (c, v, e', e'', cc)
      ]
    ]

    pub list_answer :
        (r : Handling) (l : List MasterNode)
        → on_master_node_list x h ≡ ok r
        → r.response ≡ some (PeerResponse.master_node_list l)
        → list_masters x h.addr h.pubkey (get_master_nodes h.db) ≡ ok (some l)
    unfolding on_master_node_list
    list_answer r l e answered =
        elim (Fallible-cases (list_masters x h.addr h.pubkey (get_master_nodes h.db))) [
          | inr (f, e') ↦ absurd (let e2 = rw (on_master_node_list, e') at e in cc)
          | inl (none, e') ↦ absurd (
              let e2 = rw (on_master_node_list, e') at e in
              let same_response : some PeerResponse.error ≡ r.response = cc in cc)
          | inl (some ms, e') ↦
              let e2 = rw (on_master_node_list, e') at e in
              let same_response : some (PeerResponse.master_node_list ms) ≡ r.response = cc in
              let is : ms ≡ l = cc in rw (← is) e'
        ]

  configured_answer :
      (peer : Text) (h : Hub) (c : NodeConfig)
      → peer_config x peer h ≡ ok c
      → on_node_config x peer h ≡ ok (respond h (PeerResponse.node_config c))
  unfolding on_node_config
  configured_answer peer h c e = rw (on_node_config, e)

  updated :
      (c : NodeConfig) (v : Bytes)
      → x.node_config.to_vec c ≡ ok v
      → node_update x c ≡ ok (record c { hash = x.sha256 v })
  unfolding node_update
  updated c v wrote = rw wrote

  synced_end :
      (master : Text) (n : PlainNode) (c : NodeConfig) (v : Bytes) (l : List MasterNode)
      (vec : List (Bytes × Option Text))
      → written_masters x l ≡ ok vec
      → x.node_config.to_vec c ≡ ok v
      → async_sync x
          (some master)
          (some (PeerResponse.master_node_list l))
          (some (PeerResponse.node_config c))
          n
        ≡ subscribes master (record n {
          tables = add_master_nodes (update_local_node_conf n.tables v) vec;
          conf = record c { hash = x.sha256 v };
        })
  unfolding async_sync config_answer finish_sync
  synced_end master n c v l vec written wrote =
      rw (async_sync, written, config_answer, finish_sync, wrote, updated c v wrote)

  -- If what is read as a key is written back as the same bytes: where a master node answers a node's requests for the hash of its configuration and for the list of
  -- the master nodes, it answers that for the configuration too, and the synchronisation with what it
  -- answers comes to its end, the subscription. The node then has a configuration of that hash, which
  -- is also the one that it loads when it starts again, and lists the keys of the master's table in
  -- their order.
  pub async_sync-handle :
      (protocol_version : ℕ) (peer master : Text) (h : Hub) (n : PlainNode)
      (hashed listed : Handling) (d : Bytes) (l : List MasterNode)
      → handle x protocol_version PeerRequest.node_config_hash peer h ≡ ok hashed
      → hashed.response ≡ some (PeerResponse.node_config_hash d)
      → handle x protocol_version PeerRequest.master_node_list peer h ≡ ok listed
      → listed.response ≡ some (PeerResponse.master_node_list l)
      → (configured : Handling) × (after : PlainNode) × (v : Bytes) × (handle x protocol_version
            PeerRequest.node_config peer h
          ≡ ok configured)
        × (async_sync x (some master) listed.response configured.response n
            ≡ subscribes master after)
        × (after.conf.hash ≡ d)
        × (load_local_node_conf after.tables ≡ some v)
        × (x.sha256 v ≡ d)
        × (map row_key after.tables.masters ≡ get_master_nodes h.db)
  unfolding handle add_master_nodes load_local_node_conf
  async_sync-handle protocol_version peer master h n hashed listed d l e answered e' answered' =
      let (c, v, read, wrote, digest) = hash_answer peer h hashed d e answered in
      let (vec, written, keys) =
        list_masters-written h.addr h.pubkey (get_master_nodes h.db) l
          (list_answer peer h listed l e' answered') in
      let tables = add_master_nodes (update_local_node_conf n.tables v) vec in
      (
        respond h (PeerResponse.node_config c),
        record n { tables = tables; conf = record c { hash = x.sha256 v } },
        v,
        configured_answer peer h c read,
        rw answered' (synced_end master n c v l vec written wrote),
        digest,
        load_local_node_conf-update_local_node_conf n.tables v,
        digest,
        numbered_from-keys 1 vec ∙ keys,
      )
