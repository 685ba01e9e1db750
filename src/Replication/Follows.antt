-- ===== src/Replication/Follows.antt =====
-- The client executes what the master node has executed.
use pfe_development_of_a_mon.Prelude.{
  ℕ, suc, ◌≤◌, ◌≡◌, refl, ◌∙◌, ap, sym, Bool-cases, List, [], ◌∷◌, map, Bytes, pos, ◌≤ℤ◌, ltb_ℤ,
  ◌==◌, Fallible, ok, err, ◌>>=◌, >>=-eq-ok, Fallible-cases, inl, inr, arith, false, ltb, i64_limit,
  true,
}
use mathlib.Core.Path.{subst}
use pfe_development_of_a_mon.Proto.Types.{BodyData, Block, Update}
use pfe_development_of_a_mon.Proto.External.{Codec, External}
use pfe_development_of_a_mon.Database.Tables.{Database}
use pfe_development_of_a_mon.Database.Chain.{add_new}
use pfe_development_of_a_mon.Interpret.Execute.{interpret_block}
use pfe_development_of_a_mon.Interpret.Shared.{
  core, map_core, core-add_new, get_user-core, verify_req-core, interpret_block-core,
}
use pfe_development_of_a_mon.Consensus.Types.{NetData, Master}
use pfe_development_of_a_mon.Consensus.Append.{RoundTrips}
use pfe_development_of_a_mon.Consensus.Submit.{
  serialize_block, commit_block, commit_row, commit, executed, block_hash, Submitted,
}
use pfe_development_of_a_mon.Client.Sync.{
  Replica, read_block, authenticate, contradictory, check_block, counted, store_block, handle_block,
  handle_blocks,
}
use pfe_development_of_a_mon.Replication.Commits.{
  Entry, sent, add_entry, play, IsCommitted, Committed,
}

module _ (x : External) (net : Codec NetData) where
  authenticate-core :
      (db : Database) (body : BodyData) → authenticate x (core db) body ≡ authenticate x db body
  unfolding authenticate
  authenticate-core db body = λ i. do
    ser_pk ← x.public_key.to_vec body.user_pk
    user ← get_user-core x db ser_pk i
    perms ← x.permissions.from_slice user.permissions
    raw_req ← x.requests.to_vec body.req
    v ← verify_req-core x db raw_req body.req body.user_pk perms body.sign i
    contradictory x v

  authenticate-shared :
      (d e : Database) (body : BodyData)
      → core d ≡ core e
      → authenticate x d body ≡ authenticate x e body
  authenticate-shared d e body h =
      sym (authenticate-core d body) ∙ ap (λ t. authenticate x t body) h ∙ authenticate-core e body

  add_new-shared :
      (d e : Database) (id : ℕ) (contents hash : Bytes)
      → core d ≡ core e
      → map_core (add_new d id contents hash) ≡ map_core (add_new e id contents hash)
  add_new-shared d e id contents hash h =
      core-add_new x d id contents hash
      ∙ ap (λ t. map_core (add_new t id contents hash)) h
      ∙ sym (core-add_new x e id contents hash)

  -- The client's tables have the core of the master node's, and its last height is at most `lo`.
  pub record InStep (lo : ℕ) (r : Replica) (m : Master) : Type 0 where
    pub tables : core r.db ≡ core m.db
    pub height : r.last ≤ℤ pos lo

  executed-InStep :
      (r : Replica) (m : Master) (h : ℕ) (body : BodyData) (d e : Database)
      → r.last ≤ℤ pos h
      → core d ≡ core e
      → InStep
          (suc h)
          (counted x r (interpret_block x d body.req)).0
          (executed x net m (interpret_block x e body.req)).state
  unfolding executed
  executed-InStep r m h body d e low same =
      let (cores, results) = interpret_block-core x body.req d e same in
      both (interpret_block x d body.req) (interpret_block x e body.req) cores results
    where
      both :
          (p q : Database × Fallible (List Update))
          → core p.0 ≡ core q.0
          → p.1 ≡ q.1
          → InStep (suc h) (counted x r p).0 (executed x net m q).state
      both (d', ok u) (e', ok v) c s = record { tables = c; height = ground arith }
      both (d', err f) (e', err g) c s = record { tables = c; height = ground arith }
      both (d', ok u) (e', err g) c s = cc
      both (d', err f) (e', ok v) c s = cc

  -- What the client reads of a block that was committed.
  read_block-sent :
      RoundTrips x.block
      → (m : Master) (e : Entry) → IsCommitted x net m e
      → (block : Block) × (block.hash ≡ e.hash)
        × (read_block x (sent e) ≡ ok (block, e.body, pos e.height))
  unfolding serialize_block read_block
  read_block-sent trips m e c =
      let h0 : (do
        bytes ← x.body_data.to_vec e.body
        let hash = block_hash x net e.vhash e.seed bytes
        ser ← x.block.to_vec (record { hash = hash; body = bytes })
        ok (ser, hash))
          ≡ ok (e.contents, e.hash) =
        c.serialized in
      let h1 = rw c.written at h0 in
      let block : Block = record {
        hash = block_hash x net e.vhash e.seed c.bytes;
        body = c.bytes;
      } in
      let (ser, writes, h2) = >>=-eq-ok (x.block.to_vec block) _ h1 in
      let is : ser ≡ e.contents = cc in
      let digest : block.hash ≡ e.hash = cc in
      let reads : x.block.from_slice e.contents ≡ ok block = rw (← is) (trips block ser writes) in
      let small : ltb e.height i64_limit ≡ true = ground (arith, c.fits) in
      (block, digest, rw (read_block, reads, c.read, small) refl)

  check_block-sent :
      (r : Replica) (m : Master) (e : Entry)
      → IsCommitted x net m e
      → InStep e.height r m
      → check_block x r (sent e) e.body (pos e.height) ≡ ok tt
  unfolding check_block
  check_block-sent r m e c s =
      let fresh : ltb_ℤ (pos e.height) r.last ≡ false = ground (arith, s.height) in
      elim (Bool-cases (e.height == 0)) [
        | inl first ↦ rw (check_block, fresh, first) refl
        | inr later ↦ elim c.authentic [
          | inl zero' ↦ absurd (ground arith)
          | inr known ↦
              rw (check_block, fresh, later) (authenticate-shared r.db m.db e.body s.tables ∙ known)
        ]
      ]

  pub commit-stored :
      (m : Master) (e : Entry) (c : IsCommitted x net m e)
      → commit x net e.body e.height e.vhash e.seed m
        ≡ executed x net m (interpret_block x c.row e.body.req)
  unfolding commit commit_block commit_row
  commit-stored m e c = rw (commit, c.serialized, c.stored) refl

  -- A block that is stored and executed by both.
  store-InStep :
      (r : Replica) (m : Master) (e : Entry) (block : Block)
      → block.hash ≡ e.hash
      → IsCommitted x net m e
      → InStep e.height r m
      → InStep (suc e.height) (store_block x r (sent e) block e.body).0 (add_entry x net e m)
  unfolding store_block
  store-InStep r m e block digest c s =
      let same =
        ap (λ h. map_core (add_new r.db e.height e.contents h)) digest
        ∙ add_new-shared r.db m.db e.height e.contents e.hash s.tables in
      elim (Fallible-cases (add_new r.db e.height e.contents block.hash)) [
        | inl (db, took) ↦
            let cores : core db ≡ core c.row = let p = rw (took, c.stored) at same in cc in
            rw (store_block, took)
              (subst
                (λ (t : Submitted).
                  InStep (suc e.height) (counted x r (interpret_block x db e.body.req)).0 t.state)
                (sym (commit-stored m e c))
                (executed-InStep r m e.height e.body db c.row s.height cores))
        | inr (f, bad) ↦ absurd (let p = rw (bad, c.stored) at same in cc)
      ]

  handle_block-InStep :
      RoundTrips x.block
      → (r : Replica) (m : Master) (e : Entry) → IsCommitted x net m e
      → InStep e.height r m
      → InStep (suc e.height) (handle_block x r (sent e)).0 (add_entry x net e m)
  unfolding handle_block
  handle_block-InStep trips r m e c s =
      let (block, digest, reads) = read_block-sent trips m e c in
      rw (handle_block, reads, check_block-sent r m e c s) (store-InStep r m e block digest c s)

  rise : (lo hi : ℕ) (r : Replica) (m : Master) → lo ≤ hi → InStep lo r m → InStep hi r m
  rise lo hi r m le s = record { tables = s.tables; height = omega (arith, s.height) }

  -- A client whose tables have the core of the master node's takes in the blocks that are committed
  -- from then on, and its tables have the core of the master node's again: the same blocks, users,
  -- nodes and configurations, also where the execution of a block fails.
  pub handle_blocks-play :
      RoundTrips x.block
      → (es : List Entry) (lo : ℕ) (r : Replica) (m : Master) → Committed x net lo m es
      → core r.db ≡ core m.db
      → r.last ≤ℤ pos lo
      → core (handle_blocks x r (map sent es)).0.db ≡ core (play x net m es).db
  unfolding handle_blocks
  handle_blocks-play trips [] lo r m run same low = same
  handle_blocks-play trips (e ∷ es) lo r m (le, c, run) same low =
      let s =
        handle_block-InStep trips r m e c
          (rise lo e.height r m le (record { tables = same; height = low })) in
      let rest =
        handle_blocks-play trips es (suc e.height) (handle_block x r (sent e)).0
          (add_entry x net e m) run s.tables s.height in
      elim (Fallible-cases (handle_block x r (sent e)).1) [
        | inl (done, is) ↦ rw (handle_blocks, is) rest
        | inr (f, is) ↦ rw (handle_blocks, is) rest
      ]
