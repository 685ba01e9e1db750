-- ===== src/Consensus/Append.antt =====
-- What a submitted block does to the chain, as long as no other block is stored while its votes are
-- awaited.
use pfe_development_of_a_mon.Prelude.{
  ℕ, zero, suc, ◌+◌, ◌%◌, ◌≡◌, refl, sym, Bool, true, false, Option, none, some, ◌&&◌, ◌∙◌, Bytes,
  any, same, as_u64, ap, u64_mod, Fallible, ok, err, inl, inr, Bool-cases,
}
use pfe_development_of_a_mon.Proto.Types.{Block}
use pfe_development_of_a_mon.Proto.External.{Codec, External}
use pfe_development_of_a_mon.Database.Tables.{Database, ChainRow}
use pfe_development_of_a_mon.Database.Chain.{get_last_block, last_row, map_row}
use pfe_development_of_a_mon.Consensus.Types.{NetData, Master}
use pfe_development_of_a_mon.Consensus.Events.{chained, outvoted}
use pfe_development_of_a_mon.Consensus.Publish.{
  Attempt, Answer, Ballot, missing, carried, lost, BlockPublishError, retry_or_fail, exhausted,
  push_approved, push_pending, drop_height, multi_master, success, failure, req_error, rejected,
  Returned, Round, finished, again, Pushed, place, round, order_verdict, order_answer,
  order_message, order_last, order_round, order_loop, block_order_vote, publish_verdict,
  publish_answer, publish_round, publish_loop, wrap, published, insufficient_peers, other_error,
  rounds,
}

-- The other tasks store no block.
pub record KeepsChain (world : ℕ → Attempt) : Type 0 where
  pub window : (n : ℕ) (m : Master) → ((world n).votes_window m).db.chain ≡ m.db.chain
  pub sleep : (n : ℕ) (m : Master) → ((world n).sleep m).db.chain ≡ m.db.chain

-- What is written is read back.
abbrev pub RoundTrips : {A : Type 0} → Codec A → Type 0
RoundTrips {A} c = (a : A) (b : Bytes) → c.to_vec a ≡ ok b → c.from_slice b ≡ ok a

pub get_last_block_congr :
    (d e : Database) → d.chain ≡ e.chain → get_last_block d ≡ get_last_block e
unfolding get_last_block
get_last_block_congr d e h =
    ap (λ c. ok (map_row (λ (r : ChainRow). (as_u64 r.id, r.hash)) (last_row c))) h

module _ (x : External) (start : Database) where
  abbrev pub Same : Master → Type 0
  Same m = m.db.chain ≡ start.chain

  -- The place behind the last block of the chain, and the serial hash of a body there.
  abbrev pub IsPlace : Bytes → ℕ × Bytes → Type 0
  IsPlace body (height, finhash) =
      (last : ℕ) × (hash : Bytes) × (get_last_block start ≡ ok (some (last, hash)))
      × (height ≡ (last + 1) % u64_mod)
      × (finhash ≡ chained x hash body)

  abbrev Placed : Bytes → Round (ℕ × Bytes) → Type 0
  Placed body (again m) = Same m
  Placed body (finished (success v, m, n)) = Same m × IsPlace body v
  Placed body (finished (failure e, m, n)) = Same m

  abbrev PlacedEnd : Bytes → Option (Returned (ℕ × Bytes)) → Type 0
  PlacedEnd body none = Unit
  PlacedEnd body (some r) = Placed body (finished r)

  module _ (net : Codec NetData) (world : ℕ → Attempt) (keeps : KeepsChain world) (b : Block) where
    retry_or_fail-Placed :
        (e : BlockPublishError) (retry n : ℕ) (m : Master) (cleanup : Master → Master)
        → Same m
        → Same (cleanup m)
        → Placed b.body (retry_or_fail e (world n).sleep retry n m cleanup)
    retry_or_fail-Placed e retry n m cleanup h clean = elim (Bool-cases (exhausted retry m)) [
      | inl full ↦ rw full clean
      | inr free ↦ rw free (keeps.sleep n m ∙ h)
    ]

    order_verdict-Placed :
        (v : Ballot) (height : ℕ) (hash : Bytes) (retry n : ℕ) (voted : Master)
        → Same voted
        → IsPlace b.body (height, hash)
        → Placed b.body (order_verdict x net world v height hash retry n voted)
    unfolding order_verdict
    order_verdict-Placed missing height hash retry n voted h p = h
    order_verdict-Placed carried height hash retry n voted h p = (h, p)
    order_verdict-Placed lost height hash retry n voted h p =
        retry_or_fail-Placed rejected retry n voted (drop_height height) h h

    order_answer-Placed :
        (a : Answer) (height : ℕ) (hash : Bytes) (retry n : ℕ) (m : Master)
        → Same m
        → IsPlace b.body (height, hash)
        → Placed b.body (order_answer x net world a height hash retry n m)
    unfolding order_answer
    order_answer-Placed published height hash retry n m h p =
        order_verdict-Placed _ height hash retry n _
          (keeps.window n (push_approved height hash m) ∙ h) p
    order_answer-Placed insufficient_peers height hash retry n m h p =
        retry_or_fail-Placed req_error retry n m (λ s. s) h h
    order_answer-Placed other_error height hash retry n m h p = h

    order_message-Placed :
        (f : Fallible Bytes) (height : ℕ) (hash : Bytes) (retry n : ℕ) (m : Master)
        → Same m
        → IsPlace b.body (height, hash)
        → Placed b.body (order_message x net world f height hash retry n m)
    unfolding order_message
    order_message-Placed (err e) height hash retry n m h p = h
    order_message-Placed (ok bytes) height hash retry n m h p =
        order_answer-Placed (world n).answer height hash retry n m h p

    order_last-Placed :
        (l : Fallible (Option (ℕ × Bytes))) (retry n : ℕ) (m : Master)
        → Same m
        → l ≡ get_last_block m.db
        → Placed b.body (order_last x net world l b retry n m)
    unfolding order_last
    order_last-Placed (err e) retry n m h is = h
    order_last-Placed (ok none) retry n m h is = h
    order_last-Placed (ok (some (last, hash))) retry n m h is =
        order_message-Placed _ _ _ retry n m h
          (last, hash, sym (is ∙ get_last_block_congr m.db start h), refl, refl)

    order_loop-Placed :
        (fuel retry n : ℕ) (m : Master)
        → Same m
        → PlacedEnd b.body (order_loop x net world b fuel retry n m)
    unfolding order_loop order_round
    order_loop-Placed zero retry n m h = tt
    order_loop-Placed (suc fuel) retry n m h =
        next (order_last x net world (get_last_block m.db) b retry n m)
          (order_last-Placed (get_last_block m.db) retry n m h refl)
          (order_loop-Placed fuel (retry + 1) (n + 1))
      where
        next :
            (r : Round (ℕ × Bytes))
            → Placed b.body r
            → ((m' : Master)
                → Same m'
                → PlacedEnd b.body (order_loop x net world b fuel (retry + 1) (n + 1) m'))
            → PlacedEnd b.body (elim r [
              | finished d ↦ some d
              | again m' ↦ order_loop x net world b fuel (retry + 1) (n + 1) m'
            ])
        next (finished (success v, m', k)) p rec = p
        next (finished (failure e, m', k)) p rec = p
        next (again m') p rec = rec m' p

    -- What `publish` may return: a place behind the last block, or none.
    abbrev pub PublishEnd : Option (Returned (Option (ℕ × Bytes))) → Type 0
    PublishEnd none = Unit
    PublishEnd (some (success (some v), m, n)) = Same m × IsPlace b.body v
    PublishEnd (some (success none, m, n)) = Same m
    PublishEnd (some (failure e, m, n)) = Same m

    abbrev PushedPlaced : Pushed → Type 0
    PushedPlaced (place m) = Same m
    PushedPlaced (round (again m)) = Same m
    PushedPlaced (round (finished r)) = PublishEnd (some r)

    publish_answer-Placed :
        (a : Answer) (hash : Bytes) (retry n : ℕ) (m : Master)
        → Same m
        → PushedPlaced (publish_answer x net world a hash retry n m)
    unfolding publish_answer publish_verdict
    publish_answer-Placed published hash retry n m h =
        verdict (any (λ p. same p.hash hash && outvoted p.votes) voted.pending)
      where
        voted : Master
        voted = (world n).votes_window (push_pending hash m)

        verdict : (v : Bool) → PushedPlaced (publish_verdict x net world v hash n voted)
        verdict true = keeps.window n (push_pending hash m) ∙ h
        verdict false = keeps.window n (push_pending hash m) ∙ h
    publish_answer-Placed insufficient_peers hash retry n m h =
        elim (Bool-cases (multi_master m.db)) [
          | inr alone ↦ rw alone h
          | inl several ↦ elim (Bool-cases (exhausted retry m)) [
            | inl full ↦ rw (several, full) h
            | inr free ↦ rw (several, free) (keeps.sleep n m ∙ h)
          ]
        ]
    publish_answer-Placed other_error hash retry n m h = h

    wrap-Placed : (o : Option (Returned (ℕ × Bytes))) → PlacedEnd b.body o → PublishEnd (wrap o)
    wrap-Placed none p = tt
    wrap-Placed (some (success v, m, n)) p = p
    wrap-Placed (some (failure e, m, n)) p = p

    module _ (bytes : Bytes) (reads : net.from_slice bytes ≡ ok (NetData.block b)) where
      block_order_vote-Placed :
          (n : ℕ) (m : Master)
          → Same m
          → PlacedEnd b.body (block_order_vote x net world bytes rounds n m)
      unfolding block_order_vote
      block_order_vote-Placed n m h =
          rw (reads, block_order_vote) (order_loop-Placed rounds 0 n m h)

      pub publish_loop-Placed :
          (hash : Bytes) (fuel retry n : ℕ) (m : Master)
          → Same m
          → PublishEnd (publish_loop x net world bytes hash fuel retry n m)
      unfolding publish_loop publish_round
      publish_loop-Placed hash zero retry n m h = tt
      publish_loop-Placed hash (suc fuel) retry n m h =
          next (publish_answer x net world (world n).answer hash retry n m)
            (publish_answer-Placed (world n).answer hash retry n m h)
            (publish_loop-Placed hash fuel (retry + 1) (n + 1))
        where
          next :
              (r : Pushed)
              → PushedPlaced r
              → ((m' : Master)
                  → Same m'
                  → PublishEnd (publish_loop x net world bytes hash fuel (retry + 1) (n + 1) m'))
              → PublishEnd (elim r [
                | place m' ↦ wrap (block_order_vote x net world bytes rounds (n + 1) m')
                | round (finished d) ↦ some d
                | round (again m') ↦ publish_loop x net world bytes hash fuel (retry + 1) (n + 1) m'
              ])
          next (place m') p rec = wrap-Placed _ (block_order_vote-Placed (n + 1) m' p)
          next (round (finished d)) p rec = p
          next (round (again m')) p rec = rec m' p
