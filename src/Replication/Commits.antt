-- ===== src/Replication/Commits.antt =====
-- A run of a master node that stores one block after the other: `serialize_block` and what follows it
-- in `sync` (nyumt-node/src/master/activity.rs), and what the client is sent for it.
use pfe_development_of_a_mon.Prelude.{
  ℕ, suc, ◌≤◌, ◌<◌, ◌≡◌, ◌⊎◌, Option, List, [], ◌∷◌, Bytes, i64_limit, ok,
}
use pfe_development_of_a_mon.Proto.Types.{BodyData}
use pfe_development_of_a_mon.Proto.External.{Codec, External}
use pfe_development_of_a_mon.Database.Chain.{add_new}
use pfe_development_of_a_mon.Database.Tables.{Database}
use pfe_development_of_a_mon.Consensus.Types.{NetData, Master}
use pfe_development_of_a_mon.Consensus.Submit.{serialize_block, commit}
use pfe_development_of_a_mon.Client.Sync.{RequestBlock, authenticate}

-- A block with its place in the chain, as the vote has left it, and what is written for it.
pub record Entry : Type 0 where
  pub body : BodyData
  pub height : ℕ
  pub vhash : Option Bytes
  pub seed : Bytes
  pub contents : Bytes
  pub hash : Bytes

abbrev pub sent : Entry → RequestBlock
sent e = record { id = e.height; body = e.contents }

module _ (x : External) (net : Codec NetData) where
  abbrev pub add_entry : Entry → Master → Master
  add_entry e m = (commit x net e.body e.height e.vhash e.seed m).state

  abbrev pub play : Master → List Entry → Master
  play m [] = m
  play m (e ∷ es) = play (add_entry e m) es

  -- The block can be written, what is written of its body is read back, its height is an `i64` and
  -- is free, and its requests are authentic and allowed in the tables to which it is added, unless it is
  -- the first block of a chain.
  pub record IsCommitted (m : Master) (e : Entry) : Type 0 where
    pub bytes : Bytes
    pub written : x.body_data.to_vec e.body ≡ ok bytes
    pub read : x.body_data.from_slice bytes ≡ ok e.body
    pub serialized : serialize_block x net e.body e.vhash e.seed ≡ ok (e.contents, e.hash)
    pub fits : e.height < i64_limit
    pub authentic : (e.height ≡ 0) ⊎ (authenticate x m.db e.body ≡ ok tt)
    pub row : Database
    pub stored : add_new m.db e.height e.contents e.hash ≡ ok row

  -- Each block is committed to the tables that the blocks before it leave, and lies above them.
  abbrev pub Committed : ℕ → Master → List Entry → Type 0
  Committed lo m [] = Unit
  Committed lo m (e ∷ es) =
      (lo ≤ e.height) × IsCommitted m e × Committed (suc e.height) (add_entry e m) es
