-- ===== src/Consensus/Types.antt =====
-- nyumt-node/src/master/{types,mod,net_behavior}.rs: votes, the events and messages, and the state
-- that the tasks of a master node share (`SwarmSettings`).
use pfe_development_of_a_mon.Prelude.{ℕ, Bool, List, Bytes}
use pfe_development_of_a_mon.Proto.Types.{Block, BodyData, GlobalConfig}
use pfe_development_of_a_mon.Database.Tables.{Database}

-- `Vote::Ok` and `Vote::No`.
pub data Vote : Type 0 where
  vote_ok vote_no : Vote

-- `TotalVote`: the weights for (`ok`) and against (`no`), both `u32`.
pub record TotalVote : Type 0 where
  pub in_favour : ℕ
  pub against : ℕ

-- An entry of `pending_blocks`.
pub record Pending : Type 0 where
  pub hash : Bytes
  pub votes : TotalVote
  pub voters : ℕ

-- An entry of `approved_blocks`.
pub record Approved : Type 0 where
  pub height : ℕ
  pub hash : Bytes
  pub votes : TotalVote
  pub voters : ℕ

pub record ArchiveBlock : Type 0 where
  pub hash : Bytes
  pub serial_hash : Bytes
  pub id : ℕ

pub data NetEvent : Type 0 where
  new_block : BodyData → Bytes → NetEvent
  archive_block : ArchiveBlock → NetEvent
  vote : Bytes → Vote → ℕ → NetEvent
  serial_vote : ℕ → Bytes → Vote → ℕ → NetEvent
  pending_block_timeout : Bytes → NetEvent
  approved_block_timeout : ℕ → Bytes → Bytes → NetEvent

pub data NetData : Type 0 where
  block : Block → NetData
  vote : Bytes → Vote → NetData
  archive_block : ArchiveBlock → NetData
  serial_vote : ℕ → Bytes → Vote → NetData

-- A block that `handle_incoming_data` keeps until its votes are in, under the hash of its body: a
-- local variable of the source, also named `approved_blocks`.
pub record Candidate : Type 0 where
  pub hash : Bytes
  pub serialized : Bytes
  pub body : BodyData

-- `outbox` is what was handed to gossipsub, `timers` the events that spawned tasks will send when
-- their voting time is over, and `running` falls when `handle_incoming_data` returns.
pub record Master : Type 0 where
  pub db : Database
  pub conf : GlobalConfig
  pub vote : ℕ
  pub pending : List Pending
  pub approved : List Approved
  pub candidates : List Candidate
  pub outbox : List NetData
  pub timers : List NetEvent
  pub running : Bool
