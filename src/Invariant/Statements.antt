-- ===== src/Invariant/Statements.antt =====
-- The statements keep the keys.
use pfe_development_of_a_mon.Prelude.{
  ◌≡◌, refl, sym, ◌∙◌, Bool, Option, none, some, List, [], ◌∷◌, ◌++◌, map, ◌==◌, same, any,
  any-append, eqb_ℤ, as_i64, All, ℕ, Bytes, Text, inl, inr, Bool-cases, OnOk, arith,
}
use pfe_development_of_a_mon.Proto.External.{External}
use pfe_development_of_a_mon.Database.Tables.{
  User, ChainRow, Node, NodePeerId, StatRow, Config, Database, next_id,
}
use pfe_development_of_a_mon.Database.Chain.{add_new}
use pfe_development_of_a_mon.Interpret.Execute.{
  update_where, upsert_config, insert_user, insert_node,
}
use pfe_development_of_a_mon.Invariant.Distinct.{
  Distinct, append-Distinct, update-Distinct, next_id-new, any-map,
}
use pfe_development_of_a_mon.Invariant.Keys.{
  same_user, same_block, same_row, same_config, Refers, IsConsistent,
}

Refers-append :
    (nodes : List Node) (row : Node) (n : Option ℕ) → Refers nodes n → Refers (nodes ++ row ∷ []) n
Refers-append nodes row none h = tt
Refers-append nodes row (some n) h =
    any-append (λ (m : Node). m.id == n) nodes (row ∷ []) ∙ ground (arith, h)

-- An update that leaves the id of a node.
any-update_id :
    (p : Node → Bool) (f : Node → Node) (k : ℕ) (nodes : List Node)
    → ((n : Node) → (f n).id ≡ n.id)
    → any (λ m. m.id == k) (update_where p f nodes) ≡ any (λ m. m.id == k) nodes
any-update_id p f k [] kept = refl
any-update_id p f k (n ∷ nodes) kept = ground (arith, kept n, any-update_id p f k nodes kept)

Refers-update :
    (p : Node → Bool) (f : Node → Node) (nodes : List Node) (n : Option ℕ)
    → ((m : Node) → (f m).id ≡ m.id)
    → Refers nodes n
    → Refers (update_where p f nodes) n
Refers-update p f nodes none kept h = tt
Refers-update p f nodes (some n) kept h = any-update_id p f n nodes kept ∙ h

All-map :
    {A : Type 0} (f : A → Option ℕ) (nodes nodes' : List Node) (rows : List A)
    → ((n : Option ℕ) → Refers nodes n → Refers nodes' n)
    → All (λ a. Refers nodes (f a)) rows
    → All (λ a. Refers nodes' (f a)) rows
All-map f nodes nodes' [] keep h = tt
All-map f nodes nodes' (a ∷ rows) keep h = (keep (f a) h.0, All-map f nodes nodes' rows keep h.1)

module _ (x : External) (db : Database) (h : IsConsistent x db) where
  in_chain :
      (rows : List ChainRow)
      → Distinct same_block rows
      → IsConsistent x (record db { chain = rows })
  in_chain rows d = record {
    users = h.users;
    chain = d;
    nodes = h.nodes;
    peer_ids = h.peer_ids;
    stats = h.stats;
    configs = h.configs;
    peers_refer = h.peers_refer;
    stats_refer = h.stats_refer;
  }

  pub in_users :
      (rows : List User) → Distinct same_user rows → IsConsistent x (record db { users = rows })
  in_users rows d = record {
    users = d;
    chain = h.chain;
    nodes = h.nodes;
    peer_ids = h.peer_ids;
    stats = h.stats;
    configs = h.configs;
    peers_refer = h.peers_refer;
    stats_refer = h.stats_refer;
  }

  pub in_configs :
      (rows : List Config)
      → Distinct same_config rows
      → IsConsistent x (record db { configs = rows })
  in_configs rows d = record {
    users = h.users;
    chain = h.chain;
    nodes = h.nodes;
    peer_ids = h.peer_ids;
    stats = h.stats;
    configs = d;
    peers_refer = h.peers_refer;
    stats_refer = h.stats_refer;
  }

  pub in_nodes :
      (rows : List Node)
      → Distinct same_row rows
      → ((n : Option ℕ) → Refers db.nodes n → Refers rows n)
      → IsConsistent x (record db { nodes = rows })
  in_nodes rows d keep = record {
    users = h.users;
    chain = h.chain;
    nodes = d;
    peer_ids = h.peer_ids;
    stats = h.stats;
    configs = h.configs;
    peers_refer =
        λ e. All-map (λ (p : NodePeerId). p.node) db.nodes rows db.peer_ids keep (h.peers_refer e);
    stats_refer =
        λ e. All-map (λ (r : StatRow). r.node) db.nodes rows db.stats keep (h.stats_refer e);
  }

  pub update_nodes :
      (p : Node → Bool) (f : Node → Node)
      → ((m : Node) → (f m).id ≡ m.id)
      → IsConsistent x (record db { nodes = update_where p f db.nodes })
  update_nodes p f kept =
      in_nodes (update_where p f db.nodes)
        (update-Distinct same_row p f (λ a b. rw (kept a) refl) (λ a b. rw (kept b) refl) db.nodes
          h.nodes)
        λ n. Refers-update p f db.nodes n kept

  pub add_new-IsConsistent :
      (id : ℕ) (contents hash : Bytes) → OnOk (IsConsistent x) (add_new db id contents hash)
  unfolding add_new
  add_new-IsConsistent id contents hash =
      elim (Bool-cases (any (λ (r : ChainRow). eqb_ℤ r.id (as_i64 id)) db.chain)) [
        | inl e ↦ rw e tt
        | inr e ↦ rw e (in_chain _ (append-Distinct same_block _ db.chain h.chain e))
      ]

  pub insert_user-IsConsistent :
      (name : Text) (pk perm : Bytes) → IsConsistent x (insert_user db name pk perm)
  insert_user-IsConsistent name pk perm = in_users _ (
      append-Distinct same_user _ db.users h.users (
        sym (
          any-map (λ i. i == next_id (map (λ (u : User). u.id) db.users)) (λ (u : User). u.id)
            db.users)
        ∙ next_id-new (map (λ (u : User). u.id) db.users)))

  pub insert_node-IsConsistent :
      (name : Text) (pk : Bytes) (master : Bool) (weight : Option ℕ)
      → IsConsistent x (insert_node db name pk master weight)
  insert_node-IsConsistent name pk master weight =
      in_nodes _
        (append-Distinct same_row _ db.nodes h.nodes (
          sym (
            any-map (λ i. i == next_id (map (λ (n : Node). n.id) db.nodes)) (λ (n : Node). n.id)
              db.nodes)
          ∙ next_id-new (map (λ (n : Node). n.id) db.nodes)))
        λ n. Refers-append db.nodes _ n

  pub upsert_config-IsConsistent :
      (name : Text) (m n : Bytes) → IsConsistent x (upsert_config db name m n)
  upsert_config-IsConsistent name m n =
      elim (Bool-cases (any (λ (c : Config). same c.name name) db.configs)) [
        | inl e ↦ rw e (
            in_configs _
              (update-Distinct same_config _ _ (λ a b. refl) (λ a b. refl) db.configs h.configs))
        | inr e ↦ rw e (in_configs _ (append-Distinct same_config _ db.configs h.configs e))
      ]
