-- ===== src/Consensus/Publish.antt =====
-- `block_order_vote`, `publish` and `multi_master` (nyumt-node/src/master/{activity,peer}.rs). The
-- network and the other tasks are a parameter: for each attempt to publish, what gossipsub answers,
-- and what the other tasks do to the shared state until the vote is over and while the task sleeps.
-- Every loop runs on fuel; `none` means that it ran out.
use pfe_development_of_a_mon.Prelude.{
  ℕ, zero, suc, ◌+◌, ◌%◌, Bool, true, false, not, Option, none, some, [], ◌∷◌, ◌++◌, Bytes, same,
  ltb, leb, ◌==◌, if◌then◌else◌, u64_mod, retain, any, find, Fallible, ok, err, ◌&&◌,
}
use pfe_development_of_a_mon.Proto.Types.{Block}
use pfe_development_of_a_mon.Proto.External.{Codec, External}
use pfe_development_of_a_mon.Database.Tables.{Database}
use pfe_development_of_a_mon.Database.Chain.{get_last_block}
use pfe_development_of_a_mon.Database.Nodes.{master_node_count}
use pfe_development_of_a_mon.Consensus.Types.{NetData, Master}
use pfe_development_of_a_mon.Consensus.Events.{chained, outvoted}

-- `swarm.publish`: `Ok`, `PublishError::InsufficientPeers`, or another error.
pub data Answer : Type 0 where
  published insufficient_peers other_error : Answer

pub record Attempt : Type 0 where
  pub answer : Answer
  pub votes_window : Master → Master
  pub sleep : Master → Master

pub data BlockPublishError : Type 0 where
  general_failure req_error dup_req rejected : BlockPublishError

pub data Outcome (A : Type 0) : Type 0 where
  success : A → Outcome A
  failure : BlockPublishError → Outcome A

-- What a call returns: its result, the state, and the number of the next attempt.
abbrev pub Returned : Type 0 → Type 0
Returned A = Outcome A × Master × ℕ

-- A database that cannot be read counts as one with a single master.
unfoldable pub multi_master : Database → Bool
multi_master db = elim (master_node_count db) [ ok v ↦ ltb 1 v | err _ ↦ false ]

-- `retry >= conf.master.block_push_retries`.
abbrev pub exhausted : ℕ → Master → Bool
exhausted retry m = leb m.conf.master.block_push_retries retry

-- The node's own vote, cast when the block is published.
abbrev pub push_approved : ℕ → Bytes → Master → Master
push_approved height hash m = record m {
  approved =
      m.approved
      ++ record {
        height = height;
        hash = hash;
        votes = record { in_favour = m.vote; against = 0 };
        voters = 1;
      }
        ∷ [];
}

abbrev pub push_pending : Bytes → Master → Master
push_pending hash m = record m {
  pending =
      m.pending
      ++ record { hash = hash; votes = record { in_favour = m.vote; against = 0 }; voters = 1 }
        ∷ [];
}

abbrev pub drop_height : ℕ → Master → Master
drop_height height m = record m { approved = retain (λ a. not (a.height == height)) m.approved }

abbrev pub drop_pending : Bytes → Master → Master
drop_pending hash m = record m { pending = retain (λ p. not (same p.hash hash)) m.pending }

-- What the loop over `approved_blocks` finds when the vote is over.
pub data Ballot : Type 0 where
  missing carried lost : Ballot

abbrev pub ballot : Bytes → Master → Ballot
ballot hash m = elim (find (λ a. same a.hash hash) m.approved) [
  | none ↦ missing
  | some a ↦ if outvoted a.votes then lost else carried
]

-- One round of a loop: a `return`, or the state with which the next round begins.
pub data Round (A : Type 0) : Type 0 where
  finished : Returned A → Round A
  again : Master → Round A

-- A `return` of the error when the retries are used up, and else another round after a pause.
abbrev pub retry_or_fail :
    {A : Type 0}
    → BlockPublishError
    → (Master → Master)
    → ℕ
    → ℕ
    → Master
    → (Master → Master)
    → Round A
retry_or_fail e sleep retry n m cleanup =
    if exhausted retry m then finished (failure e, cleanup m, n + 1) else again (sleep m)

-- What one round of `publish` comes to: a block that is not voted down goes on to the vote on its
-- place.
pub data Pushed : Type 0 where
  place : Master → Pushed
  round : Round (Option (ℕ × Bytes)) → Pushed

abbrev pub wrap : Option (Returned (ℕ × Bytes)) → Option (Returned (Option (ℕ × Bytes)))
wrap none = none
wrap (some (success v, m, n)) = some (success (some v), m, n)
wrap (some (failure e, m, n)) = some (failure e, m, n)

-- A retry counter is a `u8`, so that each loop makes at most 256 rounds.
abbrev pub rounds : ℕ
rounds = 256

module _ (x : External) (net : Codec NetData) (world : ℕ → Attempt) where
  -- What follows the vote on the place of a block.
  unfoldable pub order_verdict : Ballot → ℕ → Bytes → ℕ → ℕ → Master → Round (ℕ × Bytes)
  order_verdict missing height finhash retry n voted =
      finished (failure req_error, drop_height height voted, n + 1)
  order_verdict carried height finhash retry n voted =
      finished (success (height, finhash), drop_height height voted, n + 1)
  order_verdict lost height finhash retry n voted =
      retry_or_fail rejected (world n).sleep retry n voted (drop_height height)

  -- What follows the attempt to publish the place.
  unfoldable pub order_answer : Answer → ℕ → Bytes → ℕ → ℕ → Master → Round (ℕ × Bytes)
  unfolding order_verdict
  order_answer published height finhash retry n m =
      let voted = (world n).votes_window (push_approved height finhash m) in
      order_verdict (ballot finhash voted) height finhash retry n voted
  order_answer insufficient_peers height finhash retry n m =
      retry_or_fail req_error (world n).sleep retry n m (λ s. s)
  order_answer other_error height finhash retry n m = finished (failure req_error, m, n + 1)

  -- The message that asks for the votes.
  abbrev place_message : Block → ℕ → Bytes → NetData
  place_message b height finhash =
      NetData.archive_block (record { hash = b.hash; serial_hash = finhash; id = height })

  unfoldable pub order_message : Fallible Bytes → ℕ → Bytes → ℕ → ℕ → Master → Round (ℕ × Bytes)
  unfolding order_answer
  order_message (err _) height finhash retry n m = finished (failure general_failure, m, n)
  order_message (ok _) height finhash retry n m =
      order_answer (world n).answer height finhash retry n m

  unfoldable pub order_last :
      Fallible (Option (ℕ × Bytes)) → Block → ℕ → ℕ → Master → Round (ℕ × Bytes)
  unfolding order_message
  order_last (err _) b retry n m = finished (failure rejected, m, n)
  order_last (ok none) b retry n m = finished (failure rejected, m, n)
  order_last (ok (some (height, hash))) b retry n m =
      let finhash = chained x hash b.body in
      let block_height = (height + 1) % u64_mod in
      order_message (net.to_vec (place_message b block_height finhash)) block_height finhash retry n
        m

  -- The body of the loop `'APPROVE_VOTE`.
  unfoldable pub order_round : Block → ℕ → ℕ → Master → Round (ℕ × Bytes)
  unfolding order_last
  order_round b retry n m = order_last (get_last_block m.db) b retry n m

  unfoldable pub order_loop : Block → ℕ → ℕ → ℕ → Master → Option (Returned (ℕ × Bytes))
  unfolding order_round
  order_loop b zero retry n m = none
  order_loop b (suc fuel) retry n m = elim (order_round b retry n m) [
    | finished r ↦ some r
    | again m' ↦ order_loop b fuel (retry + 1) (n + 1) m'
  ]

  -- `block_order_vote`.
  unfoldable pub block_order_vote : Bytes → ℕ → ℕ → Master → Option (Returned (ℕ × Bytes))
  unfolding order_loop
  block_order_vote bytes fuel n m = elim (net.from_slice bytes) [
    | ok (NetData.block b) ↦ order_loop b fuel 0 n m
    | _ ↦ some (failure general_failure, m, n)
  ]

  -- What follows the vote on the validity of a block.
  unfoldable pub publish_verdict : Bool → Bytes → ℕ → Master → Pushed
  publish_verdict true hash n voted = round (finished (failure rejected, voted, n + 1))
  publish_verdict false hash n voted = place (drop_pending hash voted)

  unfoldable pub publish_answer : Answer → Bytes → ℕ → ℕ → Master → Pushed
  unfolding publish_verdict
  publish_answer published hash retry n m =
      let voted = (world n).votes_window (push_pending hash m) in
      publish_verdict (any (λ p. same p.hash hash && outvoted p.votes) voted.pending) hash n voted
  publish_answer insufficient_peers hash retry n m =
      if not (multi_master m.db)
      then round (finished (success none, m, n + 1))
      else round (retry_or_fail req_error (world n).sleep retry n m (λ s. s))
  publish_answer other_error hash retry n m = round (finished (failure req_error, m, n + 1))

  -- The body of the loop of `publish`, up to the vote on the place.
  unfoldable pub publish_round : Bytes → ℕ → ℕ → Master → Pushed
  unfolding publish_answer
  publish_round hash retry n m = publish_answer (world n).answer hash retry n m

  unfoldable pub publish_loop :
      Bytes → Bytes → ℕ → ℕ → ℕ → Master → Option (Returned (Option (ℕ × Bytes)))
  unfolding publish_round block_order_vote
  publish_loop bytes hash zero retry n m = none
  publish_loop bytes hash (suc fuel) retry n m = elim (publish_round hash retry n m) [
    | place m' ↦ wrap (block_order_vote bytes rounds (n + 1) m')
    | round (finished r) ↦ some r
    | round (again m') ↦ publish_loop bytes hash fuel (retry + 1) (n + 1) m'
  ]

  unfoldable pub publish : Bytes → Bytes → Master → Option (Returned (Option (ℕ × Bytes)))
  unfolding publish_loop
  publish bytes hash m = publish_loop bytes hash rounds 0 0 m
