-- ===== src/Invariant/Keys.antt =====
-- The keys of the tables: the constraints that `create_if_not_exists` declares
-- (nyumt-proto/src/database/mod.rs).
use pfe_development_of_a_mon.Prelude.{
  ◌≡◌, Bool, true, false, Option, none, some, List, ◌&&◌, ◌==◌, same, any, eqb_ℤ, All, ℕ,
}
use pfe_development_of_a_mon.Proto.External.{External}
use pfe_development_of_a_mon.Database.Tables.{
  User, ChainRow, Node, NodePeerId, StatRow, Config, Database,
}
use pfe_development_of_a_mon.Invariant.Distinct.{Distinct}

-- A NULL is equal to nothing.
abbrev pub same_node : Option ℕ → Option ℕ → Bool
same_node (some n) (some m) = n == m
same_node _ _ = false

abbrev pub same_user : User → User → Bool
same_user u v = u.id == v.id

abbrev pub same_block : ChainRow → ChainRow → Bool
same_block r s = eqb_ℤ r.id s.id

abbrev pub same_row : Node → Node → Bool
same_row n m = n.id == m.id

abbrev pub same_peer : NodePeerId → NodePeerId → Bool
same_peer p q = same_node p.node q.node

abbrev pub same_stat : StatRow → StatRow → Bool
same_stat r s = eqb_ℤ r.timestamp s.timestamp && same_node r.node s.node

abbrev pub same_config : Config → Config → Bool
same_config c d = same c.name d.name

-- The reference is NULL, or to a row of the table of nodes.
abbrev pub Refers : List Node → Option ℕ → Type 0
Refers nodes none = Unit
Refers nodes (some n) = any (λ m. m.id == n) nodes ≡ true

-- No two rows of a table have the same key; and where foreign keys are enforced, a peer and a report
-- that name a node name one that is there.
pub record IsConsistent (x : External) (db : Database) : Type 0 where
  pub users : Distinct same_user db.users
  pub chain : Distinct same_block db.chain
  pub nodes : Distinct same_row db.nodes
  pub peer_ids : Distinct same_peer db.peer_ids
  pub stats : Distinct same_stat db.stats
  pub configs : Distinct same_config db.configs
  pub peers_refer : x.foreign_keys ≡ true → All (λ p. Refers db.nodes p.node) db.peer_ids
  pub stats_refer : x.foreign_keys ≡ true → All (λ r. Refers db.nodes r.node) db.stats
