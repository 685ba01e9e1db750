-- ===== src/Client/Outcomes.antt =====
-- What a client's tables hold once a block has been taken in or refused.
use pfe_development_of_a_mon.Prelude.{
  Option, ◌≡◌, refl, false, List, [], ◌∷◌, ◌++◌, ◌∙◌, ap, Bytes, ℤ, pos, suc_ℤ, ◌≤ℤ◌, ◌==◌, as_i64,
  arith, ◌⊎◌, inl, inr, Fallible, ok, err, is_ok, >>=-eq-ok, Fallible-cases, Bool-cases, none, some,
}
use mathlib.Core.Path.{subst, sym}
use pfe_development_of_a_mon.Proto.Types.{BodyData, Block, Permissions, Update, RequestError}
use pfe_development_of_a_mon.Proto.External.{External}
use pfe_development_of_a_mon.Database.Tables.{Database}
use pfe_development_of_a_mon.Database.Users.{UserDetails, get_user_with_pubkey}
use pfe_development_of_a_mon.Database.Chain.{add_new}
use pfe_development_of_a_mon.Verify.Check.{Verdict, accept, verify_req}
use pfe_development_of_a_mon.Interpret.Execute.{interpret_block}
use pfe_development_of_a_mon.Interpret.Blocks.{interpret_block_frame}
use pfe_development_of_a_mon.Interpret.Registry.{view, apply_all}
use pfe_development_of_a_mon.Interpret.Refinement.{interpret_block-Refines}
use pfe_development_of_a_mon.Client.Sync.{
  RequestBlock, Replica, read_block, authenticate, contradictory, check_block, counted, store_block,
  handle_block,
}

-- The requests of the body were signed by an active user of the tables, whose permissions there
-- allow them.
pub record IsAuthentic (x : External) (db : Database) (body : BodyData) : Type 0 where
  pub key : Bytes
  pub written : x.public_key.to_vec body.user_pk ≡ ok key
  pub user : UserDetails
  pub known : get_user_with_pubkey x db key ≡ ok user
  pub perms : Permissions
  pub held : x.permissions.from_slice user.permissions ≡ ok perms
  pub raw_req : Bytes
  pub signed : x.requests.to_vec body.req ≡ ok raw_req
  pub accepted : verify_req x db raw_req body.req body.user_pk perms body.sign ≡ accept

contradictory-ok :
    {verdict : Verdict} (x : External) (v : Option RequestError)
    → contradictory x v ≡ ok tt
    → verdict ≡ ok v
    → verdict ≡ accept
contradictory-ok x none h e = e
contradictory-ok x (some r) h e = cc

authenticate-IsAuthentic :
    (x : External) (db : Database) (body : BodyData)
    → authenticate x db body ≡ ok tt
    → IsAuthentic x db body
unfolding authenticate
authenticate-IsAuthentic x db body h =
    let (key, written, h1) = >>=-eq-ok (x.public_key.to_vec body.user_pk) _ h in
    let (user, known, h2) = >>=-eq-ok (get_user_with_pubkey x db key) _ h1 in
    let (perms, held, h3) = >>=-eq-ok (x.permissions.from_slice user.permissions) _ h2 in
    let (raw, signed, h4) = >>=-eq-ok (x.requests.to_vec body.req) _ h3 in
    let (v, verdict, h5) =
      >>=-eq-ok (verify_req x db raw body.req body.user_pk perms body.sign) _ h4 in
    record {
      key = key;
      written = written;
      user = user;
      known = known;
      perms = perms;
      held = held;
      raw_req = raw;
      signed = signed;
      accepted = contradictory-ok x v h5 verdict;
    }

-- The block is the last row of the chain, in front of it is the chain as it was.
abbrev pub Stored : Database → RequestBlock → Block → Database → Type 0
Stored before meta block after =
    after.chain
    ≡ before.chain ++ record { id = as_i64 meta.id; contents = meta.body; hash = block.hash } ∷ []

-- What a block that is taken in does.
pub record IsSynced (x : External) (r : Replica) (meta : RequestBlock) (r' : Replica) : Type 0 where
  pub block : Block
  pub decoded : x.block.from_slice meta.body ≡ ok block
  pub body : BodyData
  pub read : x.body_data.from_slice block.body ≡ ok body
  pub fresh : r.last ≤ℤ pos meta.id
  pub authentic : (meta.id ≡ 0) ⊎ IsAuthentic x r.db body
  pub stored : Stored r.db meta block r'.db
  pub applied : view r'.db ≡ apply_all x body.req (view r.db)
  pub counted : r'.last ≡ suc_ℤ r.last

-- A block that is refused: nothing has changed, or the block is the last row of the chain, and no
-- order of it was executed.
pub data IsRefused (r : Replica) (meta : RequestBlock) (r' : Replica) : Type 0 where
  untouched : r' ≡ r → IsRefused r meta r'
  not_executed :
      (block : Block) (db : Database)
      → Stored r.db meta block db
      → db ≡ record r.db { chain = db.chain }
      → r' ≡ record r { db = db }
      → IsRefused r meta r'

-- The result of a call with the state that it leaves.
abbrev pub Outcome : External → Replica → RequestBlock → Replica × Fallible (Unit {0}) → Type 0
Outcome x r meta (r', res) =
    ((res ≡ ok tt) × IsSynced x r meta r') ⊎ ((is_ok res ≡ false) × IsRefused r meta r')

module _ (x : External) (r : Replica) (meta : RequestBlock) where
  check_block-cases :
      (body : BodyData) (height : ℤ)
      → check_block x r meta body height ≡ ok tt
      → (r.last ≤ℤ height) × ((meta.id ≡ 0) ⊎ IsAuthentic x r.db body)
  unfolding check_block
  check_block-cases body height h = (
    ground arith,
    elim (Bool-cases (meta.id == 0)) [
      | inl first ↦ inl (ground arith)
      | inr later ↦ inr (authenticate-IsAuthentic x r.db body (ground arith))
    ],
  )

  add_new-Stored :
      (block : Block) (db : Database)
      → add_new r.db meta.id meta.body block.hash ≡ ok db
      → Stored r.db meta block db × (db ≡ record r.db { chain = db.chain })
  unfolding add_new
  add_new-Stored block db h = ground arith

  module _ (block : Block) (decoded : x.block.from_slice meta.body ≡ ok block) (body : BodyData)
      (read : x.body_data.from_slice block.body ≡ ok body) (fresh : r.last ≤ℤ pos meta.id)
      (authentic : (meta.id ≡ 0) ⊎ IsAuthentic x r.db body) where
    -- What the execution of a stored block comes to.
    counted-Outcome :
        (db : Database)
        → Stored r.db meta block db × (db ≡ record r.db { chain = db.chain })
        → (p : Database × Fallible (List Update)) → p ≡ interpret_block x db body.req
        → Outcome x r meta (counted x r p)
    counted-Outcome db (stored, rest) (after, ok us) is = inl (
      refl,
      record {
        block = block;
        decoded = decoded;
        body = body;
        read = read;
        fresh = fresh;
        authentic = authentic;
        stored =
            ap (λ (q : Database × Fallible (List Update)). q.0.chain) is
            ∙ (interpret_block_frame x db body.req).0
            ∙ stored;
        applied =
            ap (λ (q : Database × Fallible (List Update)). view q.0) is
            ∙ interpret_block-Refines x db body.req us
                (sym (ap (λ (q : Database × Fallible (List Update)). q.1) is))
            ∙ ap (λ (d : Database). apply_all x body.req (view d)) rest;
        counted = refl;
      },
    )
    counted-Outcome db (stored, rest) (after, err e) is = inr (
      refl,
      not_executed block db stored rest (ap (λ (d : Database). record r { db = d }) (same is)),
    )
      where
        same : (after, err e) ≡ interpret_block x db body.req → after ≡ db
        same is = elim (interpret_block_frame x db body.req).1 [
          | inl (us, good, many) ↦ absurd (cc)
          | inr (bad, kept) ↦ ap (λ (q : Database × Fallible (List Update)). q.0) is ∙ kept
        ]

    store_block-Outcome : Outcome x r meta (store_block x r meta block body)
    unfolding store_block
    store_block-Outcome = elim (Fallible-cases (add_new r.db meta.id meta.body block.hash)) [
      | inr (f, e) ↦ rw (store_block, e) (inr (refl, untouched refl))
      | inl (db, e) ↦
          rw (store_block, e)
            (counted-Outcome db (add_new-Stored block db e) (interpret_block x db body.req) refl)
    ]

  read_block-cases :
      {block : Block} {body : BodyData} {height : ℤ}
      → read_block x meta ≡ ok (block, body, height)
      → (x.block.from_slice meta.body ≡ ok block)
        × (x.body_data.from_slice block.body ≡ ok body)
        × (height ≡ pos meta.id)
  unfolding read_block
  read_block-cases h =
      let (b, decoded, h1) = >>=-eq-ok (x.block.from_slice meta.body) _ h in
      let (bd, read, h2) = >>=-eq-ok (x.body_data.from_slice b.body) _ h1 in ground arith

  -- A client takes a block in whole, or refuses it. A block that is taken in is not older than the
  -- last height, is the first of its chain or carries requests that an active user signed and may
  -- make by the client's own tables, is added to the chain, and changes the registry as its orders
  -- say. Behind a refusal nothing has changed, or the block is in the chain and no other table has
  -- changed.
  pub handle_block-outcome : Outcome x r meta (handle_block x r meta)
  unfolding handle_block
  handle_block-outcome = elim (Fallible-cases (read_block x meta)) [
    | inr (f, e) ↦ rw (handle_block, e) (inr (refl, untouched refl))
    | inl ((block, body, height), e) ↦ elim (Fallible-cases (check_block x r meta body height)) [
      | inr (f, e') ↦ rw (handle_block, e, e') (inr (refl, untouched refl))
      | inl (u, e') ↦
          let (decoded, read, at) = read_block-cases e in
          let (fresh, authentic) = check_block-cases body height e' in
          rw (handle_block, e, e')
            (store_block-Outcome block decoded body read (subst (λ z. r.last ≤ℤ z) at fresh)
              authentic)
    ]
  ]
