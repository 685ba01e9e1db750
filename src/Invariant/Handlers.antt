-- ===== src/Invariant/Handlers.antt =====
-- The tables of a node or a client, whatever its handlers have been called with.
use pfe_development_of_a_mon.Prelude.{
  ◌≡◌, Option, none, List, [], ◌∷◌, ℕ, Bytes, Fallible, ok, err, >>=-eq-ok, OnOk, OnOk_elim,
  Fallible-cases, inl, inr,
}
use pfe_development_of_a_mon.Proto.Types.{PublicKey, BodyData, Block, Update}
use pfe_development_of_a_mon.Proto.Config.{master_default, node_default}
use pfe_development_of_a_mon.Proto.External.{Codec, External}
use pfe_development_of_a_mon.Database.Tables.{Database}
use pfe_development_of_a_mon.Database.Chain.{add_new}
use pfe_development_of_a_mon.Interpret.Execute.{interpret_block}
use pfe_development_of_a_mon.Consensus.Types.{NetData, Master}
use pfe_development_of_a_mon.Consensus.Submit.{
  commit, commit_block, commit_row, executed, serialize_block,
}
use pfe_development_of_a_mon.Consensus.First.{first_body, or_kept, create}
use pfe_development_of_a_mon.Client.Sync.{
  RequestBlock, Stat, Replica, read_block, check_block, store_block, counted, handle_block,
  handle_blocks, handle_stats, or_same,
}
use pfe_development_of_a_mon.Invariant.Keys.{IsConsistent}
use pfe_development_of_a_mon.Invariant.Statements.{add_new-IsConsistent}
use pfe_development_of_a_mon.Invariant.References.{store_stats_with_id-IsConsistent}
use pfe_development_of_a_mon.Invariant.Orders.{interpret_block-IsConsistent}

module _ (x : External) (net : Codec NetData) where
  executed-IsConsistent :
      (m : Master) (r : Database × Fallible (List Update))
      → IsConsistent x r.0
      → IsConsistent x (executed x net m r).state.db
  unfolding executed
  executed-IsConsistent m (db, ok us) h = h
  executed-IsConsistent m (db, err e) h = h

  commit_row-IsConsistent :
      (body : BodyData) (m : Master) (f : Fallible Database)
      → IsConsistent x m.db
      → OnOk (IsConsistent x) f
      → IsConsistent x (commit_row x net body m f).state.db
  unfolding commit_row
  commit_row-IsConsistent body m (err e) h g = h
  commit_row-IsConsistent body m (ok db) h g =
      executed-IsConsistent m (interpret_block x db body.req)
        (interpret_block-IsConsistent x db body.req g)

  commit_block-IsConsistent :
      (body : BodyData) (height : ℕ) (m : Master) (f : Fallible (Bytes × Bytes))
      → IsConsistent x m.db
      → IsConsistent x (commit_block x net body height m f).state.db
  unfolding commit_block
  commit_block-IsConsistent body height m (err e) h = h
  commit_block-IsConsistent body height m (ok (block, hash)) h =
      commit_row-IsConsistent body m _ h (add_new-IsConsistent x m.db h height block hash)

  pub commit-IsConsistent :
      (body : BodyData) (height : ℕ) (vhash : Option Bytes) (seed : Bytes) (m : Master)
      → IsConsistent x m.db
      → IsConsistent x (commit x net body height vhash seed m).state.db
  unfolding commit
  commit-IsConsistent body height vhash seed m h =
      commit_block-IsConsistent body height m (serialize_block x net body vhash seed) h

  or_kept-IsConsistent :
      (db : Database) (f : Fallible Database)
      → IsConsistent x db
      → OnOk (IsConsistent x) f
      → IsConsistent x (or_kept db f)
  or_kept-IsConsistent db (ok after) h g = g
  or_kept-IsConsistent db (err e) h g = h

  pub create-IsConsistent :
      (db : Database) (node_pk pk : PublicKey) (now : ℕ) {after : Database}
      → IsConsistent x db
      → create x net db node_pk pk now ≡ ok after
      → IsConsistent x after
  unfolding create
  create-IsConsistent db node_pk pk now {after} h e =
      let (master, m1, e1) = >>=-eq-ok (master_default x) _ e in
      let (node', n1, e2) = >>=-eq-ok (node_default x) _ e1 in
      let body = first_body node_pk pk master node' now in
      let ((bytes, hash), s1, e3) = >>=-eq-ok (serialize_block x net body none []) _ e2 in
      let is : (interpret_block x (or_kept db (add_new db 0 bytes hash)) body.req).0 ≡ after = cc in
      rw (← is) (
        interpret_block-IsConsistent x _ body.req
          (or_kept-IsConsistent db _ h (add_new-IsConsistent x db h 0 bytes hash)))

module _ (x : External) where
  counted-IsConsistent :
      (r : Replica) (p : Database × Fallible (List Update))
      → IsConsistent x p.0
      → IsConsistent x (counted x r p).0.db
  counted-IsConsistent r (db, ok us) h = h
  counted-IsConsistent r (db, err e) h = h

  store_block-IsConsistent :
      (r : Replica) (meta : RequestBlock) (block : Block) (body : BodyData)
      → IsConsistent x r.db
      → IsConsistent x (store_block x r meta block body).0.db
  unfolding store_block
  store_block-IsConsistent r meta block body h =
      elim (Fallible-cases (add_new r.db meta.id meta.body block.hash)) [
        | inr (f, e) ↦ rw (store_block, e) h
        | inl (db, e) ↦
            rw (store_block, e)
              (counted-IsConsistent r (interpret_block x db body.req) (
                interpret_block-IsConsistent x db body.req
                  (OnOk_elim _ _ (add_new-IsConsistent x r.db h meta.id meta.body block.hash) e)))
      ]

  handle_block-IsConsistent :
      (r : Replica) (meta : RequestBlock)
      → IsConsistent x r.db
      → IsConsistent x (handle_block x r meta).0.db
  unfolding handle_block
  handle_block-IsConsistent r meta h = elim (Fallible-cases (read_block x meta)) [
    | inr (f, e) ↦ rw (handle_block, e) h
    | inl ((block, body, height), e) ↦ elim (Fallible-cases (check_block x r meta body height)) [
      | inr (f, e') ↦ rw (handle_block, e, e') h
      | inl (u, e') ↦ rw (handle_block, e, e') (store_block-IsConsistent r meta block body h)
    ]
  ]

  pub handle_blocks-IsConsistent :
      (blocks : List RequestBlock) (r : Replica)
      → IsConsistent x r.db
      → IsConsistent x (handle_blocks x r blocks).0.db
  unfolding handle_blocks
  handle_blocks-IsConsistent [] r h = h
  handle_blocks-IsConsistent (meta ∷ blocks) r h =
      let rest =
        handle_blocks-IsConsistent blocks (handle_block x r meta).0
          (handle_block-IsConsistent r meta h) in
      elim (Fallible-cases (handle_block x r meta).1) [
        | inl (done, is) ↦ rw (handle_blocks, is) rest
        | inr (f, is) ↦ rw (handle_blocks, is) rest
      ]

  or_same-IsConsistent :
      (db : Database) (f : Fallible Database)
      → IsConsistent x db
      → OnOk (IsConsistent x) f
      → IsConsistent x (or_same x db f)
  or_same-IsConsistent db (ok after) h g = g
  or_same-IsConsistent db (err e) h g = h

  pub handle_stats-IsConsistent :
      (stats : List Stat) (db : Database)
      → IsConsistent x db
      → IsConsistent x (handle_stats x db stats)
  unfolding handle_stats
  handle_stats-IsConsistent [] db h = h
  handle_stats-IsConsistent (report ∷ stats) db h =
      elim (Fallible-cases (x.report.from_slice report.contents)) [
        | inr (f, e) ↦ rw (handle_stats, e) (handle_stats-IsConsistent stats db h)
        | inl (rep, e) ↦
            rw (handle_stats, e)
              (handle_stats-IsConsistent stats _ (
                or_same-IsConsistent db _ h (
                  store_stats_with_id-IsConsistent x db h report.id report.contents report.sig
                    rep.timestamp)))
      ]
