-- ===== src/Consensus/Follower.antt =====
-- What a master node that has no vote of its own under way does with what it hears.
use pfe_development_of_a_mon.Prelude.{
  ℕ, ◌+◌, ◌%◌, u64_mod, ◌≡◌, refl, List, [], ◌∷◌, ◌∙◌, Bytes, arith, inl, inr, some, none,
  Option-cases, Fallible-cases,
}
use pfe_development_of_a_mon.Proto.External.{Codec, External}
use pfe_development_of_a_mon.Database.Chain.{get_last_block}
use pfe_development_of_a_mon.Consensus.Types.{ArchiveBlock, vote_no, NetEvent, NetData, Master}
use pfe_development_of_a_mon.Consensus.Events.{
  on_new_block, on_archive_block, on_pending_timeout, on_approved_timeout, send, agree, disagree,
  chained, candidate, handle_event, handle_incoming_data,
}

-- The tables are the same, and there still is no entry in `approved_blocks`.
abbrev StaysIdle : Master → Master → Type 0
StaysIdle m m' = (m'.approved ≡ []) × (m'.db ≡ m.db)

module _ (x : External) (net : Codec NetData) (m : Master) (idle : m.approved ≡ []) where
  send-StaysIdle : (d : NetData) (s : Master) → StaysIdle m s → StaysIdle m (send x net d s)
  send-StaysIdle d s h = elim (Fallible-cases (net.to_vec d)) [
    | inl (b, e) ↦ rw (send, e) h
    | inr (f, e) ↦ rw (send, e) h
  ]

  disagree-StaysIdle :
      (info : ArchiveBlock) (s : Master) → StaysIdle m s → StaysIdle m (disagree x net info s)
  disagree-StaysIdle info s h =
      ground (arith, send-StaysIdle (NetData.serial_vote info.id info.hash vote_no) s h)

  agree-StaysIdle : (height : ℕ) (final raw : Bytes) → StaysIdle m (agree x net height final raw m)
  agree-StaysIdle height final raw = send-StaysIdle _ _ (idle, refl)

  on_archive_block-StaysIdle : (info : ArchiveBlock) → StaysIdle m (on_archive_block x net info m)
  unfolding on_archive_block
  on_archive_block-StaysIdle info = elim (Option-cases (candidate info.hash m)) [
    | inl e ↦ rw (on_archive_block, e) (disagree-StaysIdle info m (idle, refl))
    | inr (c, e) ↦ elim (Fallible-cases (get_last_block m.db)) [
      | inr (f, e') ↦ rw (on_archive_block, e, e') (idle, refl)
      | inl (none, e') ↦ rw (on_archive_block, e, e') (idle, refl)
      | inl (some (height, hash), e') ↦
          rw (on_archive_block, e, e')
            (ground (
              arith,
              agree-StaysIdle ((height + 1) % u64_mod) (chained x hash c.serialized) info.hash,
              disagree-StaysIdle info m (idle, refl),
              disagree-StaysIdle info
                  (agree x net ((height + 1) % u64_mod) (chained x hash c.serialized) info.hash m),
            ))
    ]
  ]

  on_approved_timeout-StaysIdle :
      (height : ℕ) (hash raw : Bytes) → StaysIdle m (on_approved_timeout x net height hash raw m)
  unfolding on_approved_timeout
  on_approved_timeout-StaysIdle height hash raw = ground arith

  handle_event-StaysIdle : (e : NetEvent) → StaysIdle m (handle_event x net m e)
  unfolding handle_event on_new_block on_pending_timeout
  handle_event-StaysIdle (NetEvent.vote h v w) = ground arith
  handle_event-StaysIdle (NetEvent.serial_vote h v w k) = ground arith
  handle_event-StaysIdle (NetEvent.new_block body hash) = ground arith
  handle_event-StaysIdle (NetEvent.archive_block info) =
      ground (arith, on_archive_block-StaysIdle info)
  handle_event-StaysIdle (NetEvent.pending_block_timeout hash) = ground arith
  handle_event-StaysIdle (NetEvent.approved_block_timeout height hash raw) =
      ground (arith, on_approved_timeout-StaysIdle height hash raw)

-- A master node without an entry in `approved_blocks` keeps its tables, whatever it hears: events add
-- no entry, and without one the time-out of a vote on a place never stores the block.
pub handle_incoming_data-idle :
    (x : External) (net : Codec NetData) (m : Master) (es : List NetEvent)
    → m.approved ≡ []
    → let after = handle_incoming_data x net m es in (after.approved ≡ []) × (after.db ≡ m.db)
unfolding handle_incoming_data
handle_incoming_data-idle x net m [] idle = (idle, refl)
handle_incoming_data-idle x net m (e ∷ es) idle =
    let (still, kept) = handle_event-StaysIdle x net m idle e in
    let (after, same) = handle_incoming_data-idle x net (handle_event x net m e) es still in
    (after, same ∙ kept)
