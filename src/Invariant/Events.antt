-- ===== src/Invariant/Events.antt =====
-- What a master node hears, and what it is asked, keep the keys of its tables.
use pfe_development_of_a_mon.Prelude.{
  ℕ, ◌+◌, ◌%◌, u64_mod, ◌≡◌, refl, Bytes, Text, arith, inl, inr, some, none, Option-cases,
  Fallible-cases, Bool-cases, OnOk, Fallible, ok, err,
}
use mathlib.Core.Path.{subst, sym}
use pfe_development_of_a_mon.Proto.External.{Codec, External}
use pfe_development_of_a_mon.Database.Tables.{Database}
use pfe_development_of_a_mon.Database.Chain.{get_last_block, add_new}
use pfe_development_of_a_mon.Consensus.Types.{ArchiveBlock, vote_no, NetEvent, NetData, Master}
use pfe_development_of_a_mon.Consensus.Events.{
  on_new_block, on_archive_block, on_pending_timeout, on_approved_timeout, send, agree, disagree,
  chained, candidate, has_quorum, handle_event,
}
use pfe_development_of_a_mon.Peers.Messages.{PeerRequest}
use pfe_development_of_a_mon.Peers.Hub.{Hub, try_db, handle}
use pfe_development_of_a_mon.Peers.Preserve.{handle-preserves}
use pfe_development_of_a_mon.Invariant.Keys.{IsConsistent}
use pfe_development_of_a_mon.Invariant.Statements.{add_new-IsConsistent}
use pfe_development_of_a_mon.Invariant.References.{
  store_stats-IsConsistent, update_peerid-IsConsistent,
}

module _ (x : External) (net : Codec NetData) where
  send-db : (d : NetData) (s : Master) → (send x net d s).db ≡ s.db
  send-db d s = elim (Fallible-cases (net.to_vec d)) [
    | inl (b, e) ↦ rw (send, e) refl
    | inr (f, e) ↦ rw (send, e) refl
  ]

  disagree-db : (info : ArchiveBlock) (s : Master) → (disagree x net info s).db ≡ s.db
  disagree-db info s = ground (arith, send-db (NetData.serial_vote info.id info.hash vote_no) s)

  agree-db :
      (height : ℕ) (final raw : Bytes) (s : Master) → (agree x net height final raw s).db ≡ s.db
  agree-db height final raw s = send-db _ _

  on_archive_block-db :
      (info : ArchiveBlock) (m : Master) → (on_archive_block x net info m).db ≡ m.db
  unfolding on_archive_block
  on_archive_block-db info m = elim (Option-cases (candidate info.hash m)) [
    | inl e ↦ rw (on_archive_block, e) (disagree-db info m)
    | inr (c, e) ↦ elim (Fallible-cases (get_last_block m.db)) [
      | inr (f, e') ↦ rw (on_archive_block, e, e') refl
      | inl (none, e') ↦ rw (on_archive_block, e, e') refl
      | inl (some (height, hash), e') ↦
          rw (on_archive_block, e, e')
            (ground (
              arith,
              agree-db ((height + 1) % u64_mod) (chained x hash c.serialized) info.hash m,
              disagree-db info m,
              disagree-db info
                  (agree x net ((height + 1) % u64_mod) (chained x hash c.serialized) info.hash m),
            ))
    ]
  ]

  stored :
      (t : Master) (f : Fallible Database)
      → IsConsistent x t.db
      → OnOk (IsConsistent x) f
      → IsConsistent x (elim f as (λ _. Master) [ ok db ↦ record t { db = db } | err _ ↦ t ]).db
  stored t (ok db) h g = g
  stored t (err e) h g = h

  module _ (m : Master) (h : IsConsistent x m.db) where
    on_approved_timeout-IsConsistent :
        (height : ℕ) (hash raw : Bytes)
        → IsConsistent x (on_approved_timeout x net height hash raw m).db
    unfolding on_approved_timeout
    on_approved_timeout-IsConsistent height hash raw = elim (Option-cases (candidate raw m)) [
      | inl e ↦ rw (on_approved_timeout, e) h
      | inr (c, e) ↦ elim (Bool-cases (has_quorum x net hash m)) [
        | inr few ↦ rw (on_approved_timeout, e, few) h
        | inl many ↦
            elim (Fallible-cases (x.block.to_vec (record { hash = hash; body = c.serialized }))) [
              | inr (f, e') ↦ rw (on_approved_timeout, e, many, e') h
              | inl (ser, e') ↦
                  rw (on_approved_timeout, e, many, e')
                    (stored _ (add_new m.db height ser hash) h
                      (add_new-IsConsistent x m.db h height ser hash))
            ]
      ]
    ]

    as_before : (m' : Master) → m'.db ≡ m.db → IsConsistent x m'.db
    as_before m' e = subst (IsConsistent x) (sym e) h

    pub handle_event-IsConsistent : (e : NetEvent) → IsConsistent x (handle_event x net m e).db
    unfolding handle_event on_new_block on_pending_timeout
    handle_event-IsConsistent (NetEvent.vote hash v w) =
        as_before (handle_event x net m (NetEvent.vote hash v w)) (ground arith)
    handle_event-IsConsistent (NetEvent.serial_vote i hash v w) =
        as_before (handle_event x net m (NetEvent.serial_vote i hash v w)) (ground arith)
    handle_event-IsConsistent (NetEvent.new_block body hash) =
        as_before (handle_event x net m (NetEvent.new_block body hash)) (ground arith)
    handle_event-IsConsistent (NetEvent.archive_block info) =
        as_before (handle_event x net m (NetEvent.archive_block info))
          (ground (arith, on_archive_block-db info m))
    handle_event-IsConsistent (NetEvent.pending_block_timeout hash) =
        as_before (handle_event x net m (NetEvent.pending_block_timeout hash)) (ground arith)
    handle_event-IsConsistent (NetEvent.approved_block_timeout height hash raw) =
        elim (Bool-cases m.running) [
          | inl on ↦ simp on (on_approved_timeout-IsConsistent height hash raw)
          | inr off ↦ simp off h
        ]

try_db-IsConsistent :
    (x : External) (h : Hub) (f : Fallible Database)
    → IsConsistent x h.db
    → OnOk (IsConsistent x) f
    → IsConsistent x (try_db h f).db
try_db-IsConsistent x h (ok db) c g = g
try_db-IsConsistent x h (err e) c g = c

pub handle-IsConsistent :
    (x : External) (version : ℕ) (req : PeerRequest) (peer : Text) (h : Hub)
    → IsConsistent x h.db
    → OnOk (λ r. IsConsistent x r.hub.db) (handle x version req peer h)
handle-IsConsistent x version req peer h c =
    handle-preserves x peer h (λ g. IsConsistent x g.db) c (λ subs. c)
      (λ v. try_db-IsConsistent x h _ c (update_peerid-IsConsistent x h.db c v peer))
      (λ pk contents sig time known.
        try_db-IsConsistent x h _ c (store_stats-IsConsistent x h.db c pk contents sig time))
      version req
