-- ===== src/Consensus/Growth.antt =====
-- A submitted block extends the chain by one row behind the last, or leaves the chain alone.
use pfe_development_of_a_mon.Prelude.{
  ℕ, ◌+◌, ◌%◌, ◌≡◌, ◌⊎◌, refl, Option, none, some, List, [], ◌∷◌, ◌++◌, ◌∙◌, sym, ap, Bytes, as_i64,
  u64_mod, Fallible, ok, err, inl, inr, Fallible-cases, arith,
}
use mathlib.Core.Path.{subst}
use pfe_development_of_a_mon.Proto.Types.{Block, BodyData, RequestStatus, Update}
use pfe_development_of_a_mon.Proto.External.{Codec, External}
use pfe_development_of_a_mon.Database.Tables.{Database, ChainRow}
use pfe_development_of_a_mon.Database.Chain.{get_last_block, add_new}
use pfe_development_of_a_mon.Interpret.Execute.{interpret_block}
use pfe_development_of_a_mon.Interpret.Blocks.{interpret_block_frame}
use pfe_development_of_a_mon.Consensus.Types.{NetData, Master}
use pfe_development_of_a_mon.Consensus.Events.{chained}
use pfe_development_of_a_mon.Consensus.Publish.{
  Attempt, success, failure, general_failure, req_error, dup_req, rejected, Returned, publish,
  publish_loop, rounds,
}
use pfe_development_of_a_mon.Consensus.Append.{
  KeepsChain, RoundTrips, Same, IsPlace, PublishEnd, publish_loop-Placed,
}
use pfe_development_of_a_mon.Consensus.Submit.{
  Submitted, submit, submit_last, submit_message, map_some, answered, executed, block_hash,
  commit_row, commit_block, commit, serialize_block, serialize_req,
}

-- A row was added behind the last block: its id is the next, and its hash is the digest of the last
-- block's hash and the body.
pub record Appends (x : External) (body : BodyData) (before after : Database) : Type 0 where
  pub last : ℕ
  pub hash : Bytes
  pub bytes : Bytes
  pub row : ChainRow
  pub behind : get_last_block before ≡ ok (some (last, hash))
  pub serialized : x.body_data.to_vec body ≡ ok bytes
  pub next_id : row.id ≡ as_i64 ((last + 1) % u64_mod)
  pub digest : row.hash ≡ chained x hash bytes
  pub added : after.chain ≡ before.chain ++ row ∷ []

-- The chain is as it was, or the requester was told `Ok` and the row was added.
abbrev pub Grows : External → BodyData → Database → Submitted → Type 0
Grows x body before r =
    (r.state.db.chain ≡ before.chain)
    ⊎ ((r.status ≡ RequestStatus.ok) × Appends x body before r.state.db)

pub add_new-chain :
    (db db' : Database) (id : ℕ) (contents hash : Bytes)
    → add_new db id contents hash ≡ ok db'
    → db'.chain ≡ db.chain ++ record { id = as_i64 id; contents = contents; hash = hash } ∷ []
unfolding add_new
add_new-chain db db' id contents hash h = ground arith

pub executed-chain :
    (x : External) (net : Codec NetData) (m : Master) (r : Database × Fallible (List Update))
    → ((executed x net m r).state.db.chain ≡ r.0.chain)
      × ((executed x net m r).status ≡ RequestStatus.ok)
unfolding executed
executed-chain x net m (db, err e) = (refl, refl)
executed-chain x net m (db, ok us) = (refl, refl)

module _ (x : External) (net : Codec NetData) (body : BodyData) (bytes : Bytes)
    (serialized : x.body_data.to_vec body ≡ ok bytes) (before : Database) where
  module _ (m : Master) (same : m.db.chain ≡ before.chain) (last : ℕ) (hash : Bytes)
      (behind : get_last_block before ≡ ok (some (last, hash))) where
    -- Storing and executing a block.
    commit_row-Grows :
        (contents final : Bytes) (f : Fallible Database)
        → f ≡ add_new m.db ((last + 1) % u64_mod) contents final
        → final ≡ chained x hash bytes
        → Grows x body before (commit_row x net body m f)
    unfolding commit_row
    commit_row-Grows contents final (err e) is digest = inl same
    commit_row-Grows contents final (ok db) is digest =
        let (kept, done) = executed-chain x net m (interpret_block x db body.req) in
        let row : ChainRow = record {
          id = as_i64 ((last + 1) % u64_mod);
          contents = contents;
          hash = final;
        } in
        inr (
          done,
          record {
            last = last;
            hash = hash;
            bytes = bytes;
            row = row;
            behind = behind;
            serialized = serialized;
            next_id = refl;
            digest = digest;
            added =
                kept
                ∙ (interpret_block_frame x db body.req).0
                ∙ add_new-chain m.db db _ contents final (sym is)
                ∙ ap (λ c. c ++ row ∷ []) same;
          },
        )

    serialized_hash :
        (vhash : Option Bytes) (seed contents final : Bytes)
        → ok (contents, final) ≡ serialize_block x net body vhash seed
        → final ≡ block_hash x net vhash seed bytes
    unfolding serialize_block
    serialized_hash vhash seed contents final is = ground arith

    -- `commit` at the place behind the last block.
    commit_block-Grows :
        (vhash : Option Bytes) (seed : Bytes) (f : Fallible (Bytes × Bytes))
        → f ≡ serialize_block x net body vhash seed
        → block_hash x net vhash seed bytes ≡ chained x hash bytes
        → Grows x body before (commit_block x net body ((last + 1) % u64_mod) m f)
    unfolding commit_block
    commit_block-Grows vhash seed (err e) is digest = inl same
    commit_block-Grows vhash seed (ok (contents, final)) is digest =
        commit_row-Grows contents final _ refl
          (serialized_hash vhash seed contents final is ∙ digest)

  module _ (world : ℕ → Attempt) (last : ℕ) (hash : Bytes)
      (behind : get_last_block before ≡ ok (some (last, hash))) where
    abbrev Ends : Returned (Option (ℕ × Bytes)) → Type 0
    Ends (success (some v), m, n) = Same x before m × IsPlace x before bytes v
    Ends (success none, m, n) = Same x before m
    Ends (failure e, m, n) = Same x before m

    answered-Grows :
        (r : Returned (Option (ℕ × Bytes)))
        → Ends r
        → Grows x body before (answered x net body last hash r)
    unfolding answered commit
    answered-Grows (success (some (h, v)), m, n) (same, (l, k, at, height, digest)) =
        rw height (commit_block-Grows m same l k at (some v) [] _ refl digest)
    answered-Grows (success none, m, n) same =
        commit_block-Grows m same last hash behind none hash _ refl refl
    answered-Grows (failure dup_req, m, n) same = inl same
    answered-Grows (failure rejected, m, n) same = inl same
    answered-Grows (failure general_failure, m, n) same = inl same
    answered-Grows (failure req_error, m, n) same = inl same

module _ (x : External) (net : Codec NetData) (world : ℕ → Attempt) (keeps : KeepsChain world)
    (reads : RoundTrips net) (body : BodyData) (m : Master) where
  -- What `serialize_req` writes is read back as a block with the serialised body.
  serialize_req-reads :
      (message hash : Bytes)
      → ok (message, hash) ≡ serialize_req x net body
      → (bytes : Bytes) × (x.body_data.to_vec body ≡ ok bytes)
        × (net.from_slice message
            ≡ ok (NetData.block (record { hash = x.sha256 bytes; body = bytes })))
  unfolding serialize_req
  serialize_req-reads message hash is = elim (Fallible-cases (x.body_data.to_vec body)) [
    | inr (e, no_bytes) ↦ absurd (ground arith)
    | inl (bytes, e) ↦ (bytes, e, reads _ message (ground arith))
  ]

  abbrev GrowsEnd : Option Submitted → Type 0
  GrowsEnd none = Unit
  GrowsEnd (some r) = Grows x body m.db r

  submit_message-Grows :
      (last : ℕ) (hash : Bytes) (f : Fallible (Bytes × Bytes))
      → get_last_block m.db ≡ ok (some (last, hash))
      → f ≡ serialize_req x net body
      → GrowsEnd (submit_message x net world body last hash f m)
  unfolding submit_message publish
  submit_message-Grows last hash (err e) behind is = inl refl
  submit_message-Grows last hash (ok (message, h)) behind is =
      let (bytes, serialized, read) = serialize_req-reads message h is in
      let b : Block = record { hash = x.sha256 bytes; body = bytes } in
      ends bytes serialized (publish_loop x net world message h rounds 0 0 m)
        (publish_loop-Placed x m.db net world keeps b message read h rounds 0 0 m refl)
    where
      ends :
          (bytes : Bytes)
          → x.body_data.to_vec body ≡ ok bytes
          → (o : Option (Returned (Option (ℕ × Bytes))))
          → PublishEnd x m.db net world keeps (record { hash = x.sha256 bytes; body = bytes }) o
          → GrowsEnd (map_some (answered x net body last hash) o)
      ends bytes serialized none p = tt
      ends bytes serialized (some (success (some v), m', n)) p =
          answered-Grows x net body bytes serialized m.db world last hash behind
            (success (some v), m', n) p
      ends bytes serialized (some (success none, m', n)) p =
          answered-Grows x net body bytes serialized m.db world last hash behind
            (success none, m', n) p
      ends bytes serialized (some (failure e, m', n)) p =
          answered-Grows x net body bytes serialized m.db world last hash behind (failure e, m', n)
            p

  submit_last-Grows :
      (l : Fallible (Option (ℕ × Bytes)))
      → l ≡ get_last_block m.db
      → GrowsEnd (submit_last x net world body l m)
  unfolding submit_last
  submit_last-Grows (err e) is = inl refl
  submit_last-Grows (ok none) is = inl refl
  submit_last-Grows (ok (some (last, hash))) is =
      submit_message-Grows last hash (serialize_req x net body) (sym is) refl

  -- If the other tasks leave the chain alone while the voting lasts, and what is written as a
  -- message is read back, a submitted request leaves the chain as it was, or is answered with Ok
  -- and adds one row to it: its id is the one above the last id, and its hash is the digest of the
  -- last hash and the serialised body.
  pub submit-Grows : (r : Submitted) → submit x net world body m ≡ some r → Grows x body m.db r
  unfolding submit
  submit-Grows r e = subst GrowsEnd e (submit_last-Grows (get_last_block m.db) refl)
