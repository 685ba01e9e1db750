-- ===== src/Client/Sync.antt =====
-- `handle_block` and the arms `ClientRequest::Block` and `ClientRequest::Stats` of `handle`
-- (nyumt-client-core/src/client/req_resp.rs). The client's tables are those of a master node without
-- `node_peerid`.
use pfe_development_of_a_mon.Prelude.{
  ℕ, not, Option, none, some, List, [], ◌∷◌, ◌==◌, ltb, if◌then◌else◌, Bytes, ℤ, pos, ltb_ℤ, suc_ℤ,
  i64_limit, Fallible, ok, err, ◌>>=◌, Failure, refused,
}
use pfe_development_of_a_mon.Proto.Types.{BodyData, Block, RequestError, Update}
use pfe_development_of_a_mon.Proto.External.{External}
use pfe_development_of_a_mon.Database.Tables.{Database}
use pfe_development_of_a_mon.Database.Users.{get_user_with_pubkey}
use pfe_development_of_a_mon.Database.Chain.{add_new}
use pfe_development_of_a_mon.Database.Reports.{store_stats_with_id}
use pfe_development_of_a_mon.Verify.Check.{verify_req}
use pfe_development_of_a_mon.Interpret.Execute.{interpret_block}

-- `RequestBlock` and `Stat` of nyumt-proto/src/api.rs.
pub record RequestBlock : Type 0 where
  pub id : ℕ
  pub body : Bytes

pub record Stat : Type 0 where
  pub id : ℕ
  pub contents : Bytes
  pub sig : Bytes

-- The tables of the client, and `last_height`.
pub record Replica : Type 0 where
  pub db : Database
  pub last : ℤ

module _ (x : External) where
  -- The block, its body, and `i64::try_from` of its height.
  unfoldable pub read_block : RequestBlock → Fallible (Block × BodyData × ℤ)
  read_block meta = do
    block ← x.block.from_slice meta.body
    body ← x.body_data.from_slice block.body
    if ltb meta.id i64_limit then ok (block, body, pos meta.id) else err refused

  -- A refusal by `verify_req` is an error here.
  abbrev pub contradictory : Option RequestError → Fallible (Unit {0})
  contradictory (some e) = err refused
  contradictory none = ok tt

  -- Who signed the requests, and whether they may make them.
  unfoldable pub authenticate : Database → BodyData → Fallible (Unit {0})
  authenticate db body = do
    ser_pk ← x.public_key.to_vec body.user_pk
    user ← get_user_with_pubkey x db ser_pk
    perms ← x.permissions.from_slice user.permissions
    raw_req ← x.requests.to_vec body.req
    v ← verify_req x db raw_req body.req body.user_pk perms body.sign
    contradictory v

  -- The checks before the block is stored. The first block of a chain is taken as it is.
  unfoldable pub check_block : Replica → RequestBlock → BodyData → ℤ → Fallible (Unit {0})
  unfolding authenticate
  check_block r meta body height =
      if ltb_ℤ height r.last
      then err refused
      else (if not (meta.id == 0) then authenticate r.db body else ok tt)

  abbrev pub counted : Replica → Database × Fallible (List Update) → Replica × Fallible (Unit {0})
  counted r (db, err e) = (record r { db = db }, err e)
  counted r (db, ok us) = (record { db = db; last = suc_ℤ r.last }, ok tt)

  unfoldable pub store_block :
      Replica → RequestBlock → Block → BodyData → Replica × Fallible (Unit {0})
  store_block r meta block body = elim (add_new r.db meta.id meta.body block.hash) [
    | err e ↦ (r, err e)
    | ok db ↦ counted r (interpret_block x db body.req)
  ]

  unfoldable pub handle_block : Replica → RequestBlock → Replica × Fallible (Unit {0})
  unfolding read_block check_block store_block
  handle_block r meta = elim (read_block meta) [
    | err e ↦ (r, err e)
    | ok (block, body, height) ↦ elim (check_block r meta body height) [
      | err e ↦ (r, err e)
      | ok _ ↦ store_block r meta block body
    ]
  ]

  -- The loop over the blocks of a message: each error disconnects the master node, and the loop goes
  -- on. The errors are listed.
  unfoldable pub handle_blocks : Replica → List RequestBlock → Replica × List Failure
  unfolding handle_block
  handle_blocks r [] = (r, [])
  handle_blocks r (meta ∷ blocks) =
      let (r', res) = handle_block r meta in
      let (r'', errors) = handle_blocks r' blocks in
      elim res [ ok _ ↦ (r'', errors) | err e ↦ (r'', e ∷ errors) ]

  abbrev pub or_same : Database → Fallible Database → Database
  or_same db (ok db') = db'
  or_same db (err _) = db

  -- The loop over the reports of a message: what cannot be read or stored is skipped.
  unfoldable pub handle_stats : Database → List Stat → Database
  handle_stats db [] = db
  handle_stats db (report ∷ stats) = elim (x.report.from_slice report.contents) [
    | err _ ↦ handle_stats db stats
    | ok rep ↦
        handle_stats
          (or_same db (store_stats_with_id x db report.id report.contents report.sig rep.timestamp))
          stats
  ]
