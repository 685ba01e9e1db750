-- ===== src/Consensus/Events.antt =====
-- `handle_incoming_data` (nyumt-node/src/master/activity.rs): one event after the other.
use pfe_development_of_a_mon.Prelude.{
  ℕ, ◌+◌, ◌%◌, Bool, false, not, Option, none, some, List, [], ◌∷◌, ◌++◌, ◌&&◌, Bytes, same, ltb,
  ◌==◌, if◌then◌else◌, add_u32, u64_mod, retain, find, ok, err,
}
use pfe_development_of_a_mon.Proto.Types.{BodyData}
use pfe_development_of_a_mon.Proto.External.{Codec, External}
use pfe_development_of_a_mon.Database.Chain.{get_last_block, add_new}
use pfe_development_of_a_mon.Consensus.Types.{
  Vote, vote_ok, vote_no, TotalVote, Pending, Approved, ArchiveBlock, NetEvent, NetData, Candidate,
  Master,
}

-- `votes.ok += weight` or `votes.no += weight`.
abbrev pub add_vote : Vote → ℕ → TotalVote → TotalVote
add_vote vote_ok weight t = record t { in_favour = add_u32 t.in_favour weight }
add_vote vote_no weight t = record t { against = add_u32 t.against weight }

-- The loop over `pending_blocks` on a vote.
unfoldable pub count_vote : Bytes → Vote → ℕ → List Pending → List Pending
count_vote hash v weight [] = []
count_vote hash v weight (p ∷ ps) =
    (if same p.hash hash
      then record p { votes = add_vote v weight p.votes; voters = add_u32 p.voters 1 }
      else p)
    ∷ count_vote hash v weight ps

-- The loop over `approved_blocks` on a serial vote.
unfoldable pub count_serial_vote : ℕ → Bytes → Vote → ℕ → List Approved → List Approved
count_serial_vote id hash v weight [] = []
count_serial_vote id hash v weight (a ∷ as') =
    (if (a.height == id) && same a.hash hash
      then record a { votes = add_vote v weight a.votes; voters = add_u32 a.voters 1 }
      else a)
    ∷ count_serial_vote id hash v weight as'

-- The weights against outweigh those in favour.
abbrev pub outvoted : TotalVote → Bool
outvoted t = ltb t.in_favour t.against

abbrev pub remove_candidate : Bytes → List Candidate → List Candidate
remove_candidate hash cs = retain (λ c. not (same c.hash hash)) cs

abbrev pub candidate : Bytes → Master → Option Candidate
candidate hash m = find (λ c. same c.hash hash) m.candidates

-- The hash that the next block will have behind a block with this hash.
abbrev pub chained : External → Bytes → Bytes → Bytes
chained x last body = x.sha256 (last ++ body)

module _ (x : External) (net : Codec NetData) where
  -- Serialise and publish; a message that cannot be serialised ends the handler.
  abbrev pub send : NetData → Master → Master
  send d m = elim (net.to_vec d) [
    | ok _ ↦ record m { outbox = m.outbox ++ d ∷ [] }
    | err _ ↦ record m { running = false }
  ]

  -- `NetEvent::NewBlock`: the wait for votes is spawned before the body is serialised.
  unfoldable pub on_new_block : BodyData → Bytes → Master → Master
  on_new_block body hash m =
      let waiting = record m { timers = m.timers ++ NetEvent.pending_block_timeout hash ∷ [] } in
      elim (x.body_data.to_vec body) [
        | ok v ↦ record waiting {
          candidates =
              record { hash = hash; serialized = v; body = body }
              ∷ remove_candidate hash m.candidates;
        }
        | err _ ↦ waiting
      ]

  -- The vote on an id and a serial hash that the node agrees with.
  abbrev pub agree : ℕ → Bytes → Bytes → Master → Master
  agree height finhash raw m =
      send (NetData.serial_vote height finhash vote_ok)
        (record m { timers = m.timers ++ NetEvent.approved_block_timeout height finhash raw ∷ [] })

  -- The vote against, which follows also where the node has agreed.
  abbrev pub disagree : ArchiveBlock → Master → Master
  disagree info m = if m.running then send (NetData.serial_vote info.id info.hash vote_no) m else m

  -- `NetEvent::ArchiveBlock`.
  unfoldable pub on_archive_block : ArchiveBlock → Master → Master
  on_archive_block info m = elim (candidate info.hash m) [
    | none ↦ disagree info m
    | some c ↦ elim (get_last_block m.db) [
      | err _ ↦ m
      | ok none ↦ m
      | ok (some (height, hash)) ↦
          let finhash = chained x hash c.serialized in
          let block_height = (height + 1) % u64_mod in
          if same finhash info.serial_hash && (block_height == info.id)
          then disagree info (agree block_height finhash info.hash m)
          else disagree info m
    ]
  ]

  -- `NetEvent::PendingBlockTimeout`.
  unfoldable pub on_pending_timeout : Bytes → Master → Master
  on_pending_timeout hash m =
      let lost : Bool = elim (find (λ p. same p.hash hash) m.pending) [
        | none ↦ false
        | some p ↦ outvoted p.votes
      ] in
      record m {
        candidates = if lost then remove_candidate hash m.candidates else m.candidates;
        pending = retain (λ p. not (same p.hash hash)) m.pending;
      }

  -- More weight in favour of the first entry of the hash than against it.
  abbrev pub has_quorum : Bytes → Master → Bool
  has_quorum hash m = elim (find (λ a. same a.hash hash) m.approved) [
    | none ↦ false
    | some a ↦ ltb a.votes.against a.votes.in_favour
  ]

  -- `block::add_new`, whose failure is only logged.
  abbrev store : ℕ → Bytes → Bytes → Master → Master
  store height contents hash m = elim (add_new m.db height contents hash) [
    | ok db ↦ record m { db = db }
    | err _ ↦ m
  ]

  -- `NetEvent::ApprovedBlockTimeout`.
  unfoldable pub on_approved_timeout : ℕ → Bytes → Bytes → Master → Master
  on_approved_timeout height hash raw_hash m = elim (candidate raw_hash m) [
    | none ↦ m
    | some c ↦
        if has_quorum hash m
        then (let taken = record m {
          approved = retain (λ a. not (same a.hash raw_hash)) m.approved;
          candidates = remove_candidate raw_hash m.candidates;
        } in
            elim (x.block.to_vec (record { hash = hash; body = c.serialized })) [
              | ok ser ↦ store height ser hash taken
              | err _ ↦ taken
            ])
        else m
  ]

  abbrev dispatch : NetEvent → Master → Master
  dispatch (NetEvent.vote hash v weight) m = record m {
    pending = count_vote hash v weight m.pending;
  }
  dispatch (NetEvent.serial_vote id hash v weight) m = record m {
    approved = count_serial_vote id hash v weight m.approved;
  }
  dispatch (NetEvent.new_block body hash) m = on_new_block body hash m
  dispatch (NetEvent.archive_block info) m = on_archive_block info m
  dispatch (NetEvent.pending_block_timeout hash) m = on_pending_timeout hash m
  dispatch (NetEvent.approved_block_timeout height hash raw_hash) m =
      on_approved_timeout height hash raw_hash m

  -- The body of the loop. An event that comes after the handler has returned has no effect.
  unfoldable pub handle_event : Master → NetEvent → Master
  unfolding count_vote count_serial_vote on_new_block on_archive_block on_pending_timeout
      on_approved_timeout
  handle_event m e = if m.running then dispatch e m else m

  unfoldable pub handle_incoming_data : Master → List NetEvent → Master
  handle_incoming_data m [] = m
  handle_incoming_data m (e ∷ es) = handle_incoming_data (handle_event m e) es
