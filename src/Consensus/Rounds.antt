-- ===== src/Consensus/Rounds.antt =====
-- The loops of `publish` and `block_order_vote` end within 256 rounds each: the retry counter and the
-- configured number of retries are `u8`.
use pfe_development_of_a_mon.Prelude.{
  ℕ, zero, suc, ◌+◌, ◌≤◌, ◌<◌, ◌≡◌, ◌≢◌, refl, Bool, true, false, Option, none, some, Bytes,
  Fallible, ok, err, inl, inr, Option-cases, arith, Bool-cases, any, same, ◌&&◌,
}
use pfe_development_of_a_mon.Proto.Types.{Block, BodyData}
use pfe_development_of_a_mon.Proto.External.{Codec, External}
use pfe_development_of_a_mon.Database.Chain.{get_last_block}
use pfe_development_of_a_mon.Consensus.Types.{NetData, Master}
use pfe_development_of_a_mon.Consensus.Events.{outvoted}
use pfe_development_of_a_mon.Consensus.Publish.{
  Attempt, Answer, Ballot, missing, carried, lost, BlockPublishError, retry_or_fail, exhausted,
  push_approved, push_pending, drop_height, multi_master, success, failure, general_failure, rounds,
  Returned, Round, finished, again, Pushed, place, round, order_verdict, order_answer,
  order_message, order_last, publish_verdict, publish_answer, published, insufficient_peers,
  other_error, rejected, req_error, order_round, order_loop, block_order_vote, publish_round,
  publish_loop, publish, wrap,
}
use pfe_development_of_a_mon.Consensus.Submit.{
  Submitted, submit, submit_last, submit_message, map_some, answered, serialize_req,
}

-- The configured number of retries is a `u8`.
abbrev pub IsU8 : Master → Type 0
IsU8 m = m.conf.master.block_push_retries < 256

-- The other tasks keep it one.
pub record KeepsU8 (world : ℕ → Attempt) : Type 0 where
  pub window : (n : ℕ) (m : Master) → IsU8 m → IsU8 ((world n).votes_window m)
  pub sleep : (n : ℕ) (m : Master) → IsU8 m → IsU8 ((world n).sleep m)

-- A round that does not end the loop leaves room for the counter.
abbrev HasRoom : {A : Type 0} → ℕ → Round A → Type 0
HasRoom retry (finished r) = Unit
HasRoom retry (again m) = (retry + 1 < 256) × IsU8 m

abbrev PushedHasRoom : ℕ → Pushed → Type 0
PushedHasRoom retry (place m) = IsU8 m
PushedHasRoom retry (round r) = HasRoom retry r

retry_or_fail-HasRoom :
    (A : Type 0) (e : BlockPublishError) (sleep : Master → Master) (retry n : ℕ) (m : Master)
    (cleanup : Master → Master)
    → IsU8 m
    → IsU8 (sleep m)
    → HasRoom {A = A} retry (retry_or_fail e sleep retry n m cleanup)
retry_or_fail-HasRoom A e sleep retry n m cleanup u8 after = elim (Bool-cases (exhausted retry m)) [
  | inl full ↦ rw full tt
  | inr free ↦ rw free (ground arith, after)
]

module _ (x : External) (net : Codec NetData) (world : ℕ → Attempt) (keeps : KeepsU8 world) where
  order_verdict-HasRoom :
      (v : Ballot) (height : ℕ) (hash : Bytes) (retry n : ℕ) (voted : Master)
      → IsU8 voted
      → HasRoom retry (order_verdict x net world v height hash retry n voted)
  unfolding order_verdict
  order_verdict-HasRoom missing height hash retry n voted u8 = tt
  order_verdict-HasRoom carried height hash retry n voted u8 = tt
  order_verdict-HasRoom lost height hash retry n voted u8 =
      retry_or_fail-HasRoom _ rejected (world n).sleep retry n voted (drop_height height) u8
        (keeps.sleep n voted u8)

  order_answer-HasRoom :
      (a : Answer) (height : ℕ) (hash : Bytes) (retry n : ℕ) (m : Master)
      → IsU8 m
      → HasRoom retry (order_answer x net world a height hash retry n m)
  unfolding order_answer
  order_answer-HasRoom published height hash retry n m u8 =
      order_verdict-HasRoom _ height hash retry n _
        (keeps.window n (push_approved height hash m) u8)
  order_answer-HasRoom insufficient_peers height hash retry n m u8 =
      retry_or_fail-HasRoom _ req_error (world n).sleep retry n m (λ s. s) u8 (keeps.sleep n m u8)
  order_answer-HasRoom other_error height hash retry n m u8 = tt

  order_message-HasRoom :
      (f : Fallible Bytes) (height : ℕ) (hash : Bytes) (retry n : ℕ) (m : Master)
      → IsU8 m
      → HasRoom retry (order_message x net world f height hash retry n m)
  unfolding order_message
  order_message-HasRoom (err e) height hash retry n m u8 = tt
  order_message-HasRoom (ok b) height hash retry n m u8 =
      order_answer-HasRoom (world n).answer height hash retry n m u8

  order_last-HasRoom :
      (l : Fallible (Option (ℕ × Bytes))) (b : Block) (retry n : ℕ) (m : Master)
      → IsU8 m
      → HasRoom retry (order_last x net world l b retry n m)
  unfolding order_last
  order_last-HasRoom (err e) b retry n m u8 = tt
  order_last-HasRoom (ok none) b retry n m u8 = tt
  order_last-HasRoom (ok (some (height, hash))) b retry n m u8 =
      order_message-HasRoom _ _ _ retry n m u8

  order_loop-ne-none :
      (b : Block) (fuel retry n : ℕ) (m : Master)
      → IsU8 m
      → retry < 256
      → 256 ≤ fuel + retry
      → order_loop x net world b fuel retry n m ≢ none
  unfolding order_loop
  order_loop-ne-none b zero retry n m u8 low enough = absurd (omega arith)
  order_loop-ne-none b (suc fuel) retry n m u8 low enough =
      next (order_round x net world b retry n m) (order_last-HasRoom _ b retry n m u8)
        (order_loop-ne-none b fuel (retry + 1) (n + 1))
    where
      next :
          (r : Round (ℕ × Bytes))
          → HasRoom retry r
          → ((m' : Master)
              → IsU8 m'
              → retry + 1 < 256
              → 256 ≤ fuel + (retry + 1)
              → order_loop x net world b fuel (retry + 1) (n + 1) m' ≢ none)
          → elim r [
            | finished d ↦ some d
            | again m' ↦ order_loop x net world b fuel (retry + 1) (n + 1) m'
          ]
            ≢ none
      next (finished d) room rec = cc
      next (again m') room rec = rec m' room.1 room.0 (omega arith)

  publish_answer-HasRoom :
      (a : Answer) (hash : Bytes) (retry n : ℕ) (m : Master)
      → IsU8 m
      → PushedHasRoom retry (publish_answer x net world a hash retry n m)
  unfolding publish_answer publish_verdict
  publish_answer-HasRoom published hash retry n m u8 =
      verdict (any (λ p. same p.hash hash && outvoted p.votes) voted.pending)
    where
      voted : Master
      voted = (world n).votes_window (push_pending hash m)

      verdict : (v : Bool) → PushedHasRoom retry (publish_verdict x net world v hash n voted)
      verdict true = tt
      verdict false = keeps.window n (push_pending hash m) u8
  publish_answer-HasRoom insufficient_peers hash retry n m u8 =
      elim (Bool-cases (multi_master m.db)) [
        | inl several ↦ rw several (
            retry_or_fail-HasRoom _ req_error (world n).sleep retry n m (λ s. s) u8
              (keeps.sleep n m u8))
        | inr alone ↦ rw alone tt
      ]
  publish_answer-HasRoom other_error hash retry n m u8 = tt

  block_order_vote-ne-none :
      (bytes : Bytes) (n : ℕ) (m : Master)
      → IsU8 m
      → block_order_vote x net world bytes rounds n m ≢ none
  unfolding block_order_vote
  block_order_vote-ne-none bytes n m u8 = at (net.from_slice bytes)
    where
      at :
          (f : Fallible NetData)
          → elim f [
            | ok (NetData.block b) ↦ order_loop x net world b rounds 0 n m
            | _ ↦ some (failure general_failure, m, n)
          ]
            ≢ none
      at (ok (NetData.block b)) = order_loop-ne-none b rounds 0 n m u8 (omega arith) (omega arith)
      at (ok (NetData.vote hash v)) = cc
      at (ok (NetData.archive_block a)) = cc
      at (ok (NetData.serial_vote i h v)) = cc
      at (err e) = cc

  wrap-ne-none : (o : Option (Returned (ℕ × Bytes))) → o ≢ none → wrap o ≢ none
  wrap-ne-none none h = absurd (h refl)
  wrap-ne-none (some (success v, m, n)) h = cc
  wrap-ne-none (some (failure e, m, n)) h = cc

  publish_loop-ne-none :
      (bytes hash : Bytes) (fuel retry n : ℕ) (m : Master)
      → IsU8 m
      → retry < 256
      → 256 ≤ fuel + retry
      → publish_loop x net world bytes hash fuel retry n m ≢ none
  unfolding publish_loop publish_round
  publish_loop-ne-none bytes hash zero retry n m u8 low enough = absurd (omega arith)
  publish_loop-ne-none bytes hash (suc fuel) retry n m u8 low enough =
      next (publish_round x net world hash retry n m)
        (publish_answer-HasRoom (world n).answer hash retry n m u8)
        (publish_loop-ne-none bytes hash fuel (retry + 1) (n + 1))
    where
      next :
          (r : Pushed)
          → PushedHasRoom retry r
          → ((m' : Master)
              → IsU8 m'
              → retry + 1 < 256
              → 256 ≤ fuel + (retry + 1)
              → publish_loop x net world bytes hash fuel (retry + 1) (n + 1) m' ≢ none)
          → elim r [
            | place m' ↦ wrap (block_order_vote x net world bytes rounds (n + 1) m')
            | round (finished d) ↦ some d
            | round (again m') ↦ publish_loop x net world bytes hash fuel (retry + 1) (n + 1) m'
          ]
            ≢ none
      next (place m') room rec = wrap-ne-none _ (block_order_vote-ne-none bytes (n + 1) m' room)
      next (round (finished d)) room rec = cc
      next (round (again m')) room rec = rec m' room.1 room.0 (omega arith)

  submit_message_total :
      (body : BodyData) (height : ℕ) (last_hash : Bytes) (f : Fallible (Bytes × Bytes)) (m : Master)
      → IsU8 m
      → submit_message x net world body height last_hash f m ≢ none
  unfolding submit_message publish
  submit_message_total body height last_hash (err e) m u8 = cc
  submit_message_total body height last_hash (ok (bytes, hash)) m u8 =
      mapped _ (publish_loop-ne-none bytes hash rounds 0 0 m u8 (omega arith) (omega arith))
    where
      mapped :
          (o : Option (Returned (Option (ℕ × Bytes))))
          → o ≢ none
          → map_some (answered x net body height last_hash) o ≢ none
      mapped none h = absurd (h refl)
      mapped (some r) h = cc

  submit_last-ne-none :
      (body : BodyData) (l : Fallible (Option (ℕ × Bytes))) (m : Master)
      → IsU8 m
      → submit_last x net world body l m ≢ none
  unfolding submit_last
  submit_last-ne-none body (err e) m u8 = cc
  submit_last-ne-none body (ok none) m u8 = cc
  submit_last-ne-none body (ok (some (height, last_hash))) m u8 =
      submit_message_total body height last_hash (serialize_req x net body) m u8

  -- A submitted block is answered, whatever the network answers and the other tasks do, as long as
  -- the configured number of retries is a `u8` and they leave it one.
  pub submit_total :
      (body : BodyData) (m : Master)
      → IsU8 m
      → (r : Submitted) × (submit x net world body m ≡ some r)
  unfolding submit
  submit_total body m u8 =
      elim (Option-cases (submit_last x net world body (get_last_block m.db) m)) [
        | inl gone ↦ absurd (submit_last-ne-none body (get_last_block m.db) m u8 gone)
        | inr (r, e) ↦ (r, e)
      ]
