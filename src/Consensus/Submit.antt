-- ===== src/Consensus/Submit.antt =====
-- The `ChannelRequestType::Block` arm of `sync`, with `serialize_req` and `serialize_block`
-- (nyumt-node/src/master/activity.rs): from a verified request to a stored and executed block.
use pfe_development_of_a_mon.Prelude.{
  ℕ, ◌+◌, ◌%◌, Option, none, some, List, [], ◌++◌, Bytes, u64_mod, Fallible, ok, err, ◌>>=◌,
}
use pfe_development_of_a_mon.Proto.Types.{BodyData, RequestStatus, Update}
use pfe_development_of_a_mon.Proto.External.{Codec, External}
use pfe_development_of_a_mon.Database.Tables.{Database}
use pfe_development_of_a_mon.Database.Chain.{get_last_block, add_new}
use pfe_development_of_a_mon.Interpret.Execute.{interpret_block}
use pfe_development_of_a_mon.Consensus.Types.{NetData, Master}
use pfe_development_of_a_mon.Consensus.Publish.{
  Attempt, Returned, success, failure, general_failure, req_error, dup_req, rejected, publish,
}

-- What the requester is told, the state, and the updates for the subscribed nodes.
pub record Submitted : Type 0 where
  pub status : RequestStatus
  pub state : Master
  pub updates : Option (List Update)

abbrev pub answer : RequestStatus → Master → Submitted
answer status m = record { status = status; state = m; updates = none }

abbrev pub map_some : {A B : Type 0} → (A → B) → Option A → Option B
map_some f none = none
map_some f (some a) = some (f a)

module _ (x : External) (net : Codec NetData) where
  unfoldable pub serialize_req : BodyData → Fallible (Bytes × Bytes)
  serialize_req body = do
    bytes ← x.body_data.to_vec body
    let hash = x.sha256 bytes
    message ← net.to_vec (NetData.block (record { hash = hash; body = bytes }))
    ok (message, hash)

  -- The hash of a block: the one that was voted for, or the digest of the seed and the body.
  abbrev pub block_hash : Option Bytes → Bytes → Bytes → Bytes
  block_hash (some v) seed bytes = v
  block_hash none seed bytes = x.sha256 (seed ++ bytes)

  -- `seed` is what the hasher has been fed already.
  unfoldable pub serialize_block : BodyData → Option Bytes → Bytes → Fallible (Bytes × Bytes)
  serialize_block body vhash seed = do
    bytes ← x.body_data.to_vec body
    let hash = block_hash vhash seed bytes
    ser ← x.block.to_vec (record { hash = hash; body = bytes })
    ok (ser, hash)

  -- The requester has the answer `Ok` before the block is stored and executed.
  unfoldable pub executed : Master → Database × Fallible (List Update) → Submitted
  executed m (db, err _) = answer RequestStatus.ok (record m { db = db })
  executed m (db, ok us) = record {
    status = RequestStatus.ok;
    state = record m { db = db };
    updates = some us;
  }

  unfoldable pub commit_row : BodyData → Master → Fallible Database → Submitted
  unfolding executed
  commit_row body m (err _) = answer RequestStatus.ok m
  commit_row body m (ok db) = executed m (interpret_block x db body.req)

  unfoldable pub commit_block : BodyData → ℕ → Master → Fallible (Bytes × Bytes) → Submitted
  unfolding commit_row
  commit_block body height m (err _) = answer RequestStatus.node_error m
  commit_block body height m (ok (block, hash)) = commit_row body m (add_new m.db height block hash)

  unfoldable pub commit : BodyData → ℕ → Option Bytes → Bytes → Master → Submitted
  unfolding commit_block serialize_block
  commit body height vhash seed m = commit_block body height m (serialize_block body vhash seed)

  -- What `publish` returns decides how the block is stored.
  unfoldable pub answered : BodyData → ℕ → Bytes → Returned (Option (ℕ × Bytes)) → Submitted
  unfolding commit
  answered body height last_hash (success (some (h, v)), m, n) = commit body h (some v) [] m
  answered body height last_hash (success none, m, n) =
      commit body ((height + 1) % u64_mod) none last_hash m
  answered body height last_hash (failure dup_req, m, n) = answer RequestStatus.dup_req m
  answered body height last_hash (failure rejected, m, n) = answer RequestStatus.rejected m
  answered body height last_hash (failure general_failure, m, n) = answer RequestStatus.req_error m
  answered body height last_hash (failure req_error, m, n) = answer RequestStatus.req_error m

  -- `none` is the loops' lack of fuel.
  unfoldable pub submit_message :
      (ℕ → Attempt) → BodyData → ℕ → Bytes → Fallible (Bytes × Bytes) → Master → Option Submitted
  unfolding answered
  submit_message world body height last_hash (err _) m = some (answer RequestStatus.node_error m)
  submit_message world body height last_hash (ok (bytes, hash)) m =
      map_some (answered body height last_hash) (publish x net world bytes hash m)

  unfoldable pub submit_last :
      (ℕ → Attempt) → BodyData → Fallible (Option (ℕ × Bytes)) → Master → Option Submitted
  unfolding submit_message serialize_req
  submit_last world body (err _) m = some (answer RequestStatus.node_error m)
  submit_last world body (ok none) m = some (answer RequestStatus.node_error m)
  submit_last world body (ok (some (height, last_hash))) m =
      submit_message world body height last_hash (serialize_req body) m

  unfoldable pub submit : (ℕ → Attempt) → BodyData → Master → Option Submitted
  unfolding submit_last
  submit world body m = submit_last world body (get_last_block m.db) m
