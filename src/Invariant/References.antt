-- ===== src/Invariant/References.antt =====
-- The statements on peers and reports, and the removal of a node with what refers to it, keep the keys.
use pfe_development_of_a_mon.Prelude.{
  ◌≡◌, refl, sym, ◌∙◌, Bool, true, false, not, Option, none, some, List, [], ◌∷◌, map, ◌&&◌, ◌==◌,
  find, any, as_i64, All, All-append, ℕ, ℤ, Bytes, Text, retain, if◌then◌else◌, inl, inr,
  Bool-cases, Option-cases, OnOk, arith,
}
use mathlib.Core.Path.{subst}
use pfe_development_of_a_mon.Proto.External.{External}
use pfe_development_of_a_mon.Database.Tables.{Node, NodePeerId, StatRow, Database}
use pfe_development_of_a_mon.Database.Users.{is_node}
use pfe_development_of_a_mon.Database.Nodes.{
  update_peerid, set_peerid, has_node, node_id, then_find,
}
use pfe_development_of_a_mon.Database.Reports.{
  clashes, append_stats, store_stats, store_stats_with_id,
}
use pfe_development_of_a_mon.Interpret.Execute.{delete_node, points_to}
use pfe_development_of_a_mon.Invariant.Distinct.{Distinct, append-Distinct, retain-Distinct}
use pfe_development_of_a_mon.Invariant.Keys.{same_row, same_peer, same_stat, Refers, IsConsistent}

survives :
    (p : Node → Bool) (n : ℕ) (nodes : List Node)
    → any (λ m. m.id == n) nodes ≡ true
    → any (λ i. i == n) (map (λ m. m.id) (retain p nodes)) ≡ false
    → any (λ m. m.id == n) (retain (λ m. not (p m)) nodes) ≡ true
survives p n [] h gone = h
survives p n (m ∷ nodes) h gone = ground (arith, survives p n nodes)

Refers-retain :
    (p : Node → Bool) (nodes : List Node) (n : Option ℕ)
    → Refers nodes n
    → points_to (map (λ m. m.id) (retain p nodes)) n ≡ false
    → Refers (retain (λ m. not (p m)) nodes) n
Refers-retain p nodes none h gone = tt
Refers-retain p nodes (some n) h gone = survives p n nodes h gone

All-cascade :
    {A : Type 0} (f : A → Option ℕ) (p : Node → Bool) (nodes : List Node) (rows : List A)
    → All (λ a. Refers nodes (f a)) rows
    → All
        (λ a. Refers (retain (λ m. not (p m)) nodes) (f a))
        (retain (λ a. not (points_to (map (λ m. m.id) (retain p nodes)) (f a))) rows)
All-cascade f p nodes [] h = tt
All-cascade f p nodes (a ∷ rows) h =
    elim (Bool-cases (points_to (map (λ (m : Node). m.id) (retain p nodes)) (f a))) [
      | inl e ↦ rw e (All-cascade f p nodes rows h.1)
      | inr e ↦ rw e (Refers-retain p nodes (f a) h.0 e, All-cascade f p nodes rows h.1)
    ]

no_null_stat :
    (r : StatRow) (rows : List StatRow) → r.node ≡ none → any (λ s. same_stat s r) rows ≡ false
no_null_stat r [] e = refl
no_null_stat r (s ∷ rows) e = ground (arith, no_null_stat r rows e)

no_null_peer :
    (r : NodePeerId) (rows : List NodePeerId)
    → r.node ≡ none
    → any (λ s. same_peer s r) rows ≡ false
no_null_peer r [] e = refl
no_null_peer r (s ∷ rows) e = ground (arith, no_null_peer r rows e)

stat_free :
    (t : ℤ) (n : ℕ) (r : StatRow) (rows : List StatRow)
    → r.timestamp ≡ t
    → r.node ≡ some n
    → any (clashes t n) rows ≡ false
    → any (λ s. same_stat s r) rows ≡ false
stat_free t n r [] a b h = refl
stat_free t n r (s ∷ rows) a b h = ground (arith, stat_free t n r rows a b)

peer_free :
    (n : ℕ) (r : NodePeerId) (rows : List NodePeerId)
    → r.node ≡ some n
    → any (has_node n) rows ≡ false
    → any (λ s. same_peer s r) rows ≡ false
peer_free n r [] e h = refl
peer_free n r (s ∷ rows) e h = ground (arith, peer_free n r rows e)

renamed_node :
    (peerid : Text) (r : NodePeerId) (b : Bool)
    → (if b then record r { peerid = peerid } else r).node ≡ r.node
renamed_node peerid r true = refl
renamed_node peerid r false = refl

module _ (n : ℕ) (peerid : Text) where
  any-set_peerid :
      (q r : NodePeerId) (rows : List NodePeerId)
      → q.node ≡ r.node
      → any (same_peer q) (set_peerid n peerid rows) ≡ any (same_peer r) rows
  any-set_peerid q r [] e = refl
  any-set_peerid q r (s ∷ rows) e = ground (arith, any-set_peerid q r rows e)

  set_peerid-Distinct :
      (rows : List NodePeerId)
      → Distinct same_peer rows
      → Distinct same_peer (set_peerid n peerid rows)
  set_peerid-Distinct [] h = tt
  set_peerid-Distinct (r ∷ rows) h = (
    any-set_peerid (if has_node n r then record r { peerid = peerid } else r) r rows
          (renamed_node peerid r (has_node n r))
        ∙ h.0,
    set_peerid-Distinct rows h.1,
  )

  set_peerid-Refers :
      (nodes : List Node) (rows : List NodePeerId)
      → All (λ p. Refers nodes p.node) rows
      → All (λ p. Refers nodes p.node) (set_peerid n peerid rows)
  set_peerid-Refers nodes [] h = tt
  set_peerid-Refers nodes (r ∷ rows) h = (
    subst (Refers nodes) (sym (renamed_node peerid r (has_node n r))) h.0,
    set_peerid-Refers nodes rows h.1,
  )

-- A node that is looked up by its key is there.
node_id-Refers :
    (pk : Bytes) (n : ℕ) (nodes : List Node)
    → then_find (find (is_node pk) nodes) (λ m. some m.id) ≡ some n
    → any (λ m. m.id == n) nodes ≡ true
node_id-Refers pk n [] e = cc
node_id-Refers pk n (m ∷ nodes) e = ground (arith, node_id-Refers pk n nodes)

abbrev report_row : Option ℕ → Bytes → Bytes → ℕ → StatRow
report_row owner contents sig t = record {
  timestamp = as_i64 t;
  node = owner;
  contents = contents;
  sig = sig;
}

module _ (x : External) (db : Database) (h : IsConsistent x db) where
  in_references :
      (peers : List NodePeerId) (rows : List StatRow)
      → Distinct same_peer peers
      → Distinct same_stat rows
      → (x.foreign_keys ≡ true → All (λ p. Refers db.nodes p.node) peers)
      → (x.foreign_keys ≡ true → All (λ r. Refers db.nodes r.node) rows)
      → IsConsistent x (record db { peer_ids = peers; stats = rows })
  in_references peers rows d d' r r' = record {
    users = h.users;
    chain = h.chain;
    nodes = h.nodes;
    peer_ids = d;
    stats = d';
    configs = h.configs;
    peers_refer = r;
    stats_refer = r';
  }

  pub delete_node-IsConsistent : (pk : Bytes) → IsConsistent x (delete_node x db pk)
  delete_node-IsConsistent pk = elim (Bool-cases x.foreign_keys) [
    | inl on ↦ rw on (record {
      users = h.users;
      chain = h.chain;
      nodes = retain-Distinct same_row _ db.nodes h.nodes;
      peer_ids = retain-Distinct same_peer _ db.peer_ids h.peer_ids;
      stats = retain-Distinct same_stat _ db.stats h.stats;
      configs = h.configs;
      peers_refer = λ e.
          All-cascade (λ (p : NodePeerId). p.node) (is_node pk) db.nodes db.peer_ids
            (h.peers_refer on);
      stats_refer = λ e.
          All-cascade (λ (r : StatRow). r.node) (is_node pk) db.nodes db.stats (h.stats_refer on);
    })
    | inr off ↦ rw off (record {
      users = h.users;
      chain = h.chain;
      nodes = retain-Distinct same_row _ db.nodes h.nodes;
      peer_ids = h.peer_ids;
      stats = h.stats;
      configs = h.configs;
      peers_refer = λ e. cc;
      stats_refer = λ e. cc;
    })
  ]

  appended :
      (owner : Option ℕ) (contents sig : Bytes) (t : ℕ)
      → any (λ r. same_stat r (report_row owner contents sig t)) db.stats ≡ false
      → (x.foreign_keys ≡ true → Refers db.nodes owner)
      → IsConsistent x (append_stats db owner contents sig t)
  appended owner contents sig t new refers =
      in_references db.peer_ids _ h.peer_ids (append-Distinct same_stat _ db.stats h.stats new)
        h.peers_refer
        λ e.
          All-append (λ (r : StatRow). Refers db.nodes r.node) db.stats _ (h.stats_refer e)
            (refers e, tt)

  pub store_stats_with_id-IsConsistent :
      (id : ℕ) (contents sig : Bytes) (t : ℕ)
      → OnOk (IsConsistent x) (store_stats_with_id x db id contents sig t)
  unfolding store_stats_with_id
  store_stats_with_id-IsConsistent id contents sig t =
      elim (Bool-cases (any (clashes (as_i64 t) id) db.stats)) [
        | inl e ↦ rw e tt
        | inr e ↦
            elim (Bool-cases (x.foreign_keys && not (any (λ (n : Node). n.id == id) db.nodes))) [
              | inl bad ↦ rw (e, bad) tt
              | inr good ↦
                  rw (e, good)
                    (appended (some id) contents sig t
                      (stat_free (as_i64 t) id (report_row (some id) contents sig t) db.stats refl
                        refl e)
                      (λ on. ground arith))
            ]
      ]

  pub store_stats-IsConsistent :
      (pk contents sig : Bytes) (t : ℕ) → OnOk (IsConsistent x) (store_stats db pk contents sig t)
  unfolding store_stats node_id
  store_stats-IsConsistent pk contents sig t = elim (Option-cases (node_id db pk)) [
    | inl e ↦
        rw (store_stats, e)
          (appended none contents sig t
            (no_null_stat (report_row none contents sig t) db.stats refl) (λ on. tt))
    | inr (id, e) ↦ elim (Bool-cases (any (clashes (as_i64 t) id) db.stats)) [
      | inl taken ↦ rw (store_stats, e, taken) tt
      | inr free ↦
          rw (store_stats, e, free)
            (appended (some id) contents sig t
              (stat_free (as_i64 t) id (report_row (some id) contents sig t) db.stats refl refl
                free)
              (λ on. node_id-Refers pk id db.nodes e))
    ]
  ]

  pub update_peerid-IsConsistent :
      (pk : Bytes) (peerid : Text) → OnOk (IsConsistent x) (update_peerid db pk peerid)
  unfolding update_peerid node_id
  update_peerid-IsConsistent pk peerid = elim (Option-cases (node_id db pk)) [
    | inl e ↦
        rw (update_peerid, e)
          (in_references _ db.stats
            (append-Distinct same_peer _ db.peer_ids h.peer_ids
              (no_null_peer (record { node = none; peerid = peerid }) db.peer_ids refl))
            h.stats
            (λ on.
              All-append (λ (p : NodePeerId). Refers db.nodes p.node) db.peer_ids _
                (h.peers_refer on) (tt, tt))
            h.stats_refer)
    | inr (n, e) ↦ elim (Bool-cases (any (has_node n) db.peer_ids)) [
      | inl taken ↦
          rw (update_peerid, e, taken)
            (in_references _ db.stats (set_peerid-Distinct n peerid db.peer_ids h.peer_ids) h.stats
              (λ on. set_peerid-Refers n peerid db.nodes db.peer_ids (h.peers_refer on))
              h.stats_refer)
      | inr free ↦
          rw (update_peerid, e, free)
            (in_references _ db.stats
              (append-Distinct same_peer _ db.peer_ids h.peer_ids
                (peer_free n (record { node = some n; peerid = peerid }) db.peer_ids refl free))
              h.stats
              (λ on.
                All-append (λ (p : NodePeerId). Refers db.nodes p.node) db.peer_ids _
                  (h.peers_refer on) (node_id-Refers pk n db.nodes e, tt))
              h.stats_refer)
    ]
  ]
