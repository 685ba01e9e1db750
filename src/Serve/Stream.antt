-- ===== src/Serve/Stream.antt =====
-- The block arm of `event_handler` (nyumt-node/src/master_serve/activity.rs): what a client that
-- lags behind is sent, in messages of at most nine blocks.
use pfe_development_of_a_mon.Prelude.{
  ℕ, true, false, some, List, [], ◌∷◌, ◌++◌, ◌||◌, ◌==◌, leb, length, if◌then◌else◌, Bytes, ℤ,
  ltb_ℤ, suc_ℤ, as_i64, Fallible, ok, err,
}
use pfe_development_of_a_mon.Database.Tables.{Database}
use pfe_development_of_a_mon.Database.Chain.{get_last_block_height, get_blocks_from}
use pfe_development_of_a_mon.Client.Sync.{RequestBlock}

-- `last_request_height` of the session's settings, and the messages that were sent.
pub record Session : Type 0 where
  pub height : ℤ
  pub sent : List (List RequestBlock)

abbrev pub request_block : ℕ × Bytes → RequestBlock
request_block (id, body) = record { id = id; body = body }

-- `ser` is the derived serialisation of a message. One that fails ends the loop.
module _ (ser : List RequestBlock → Fallible Bytes) where
  -- The loop over the rows; `blocks` is the message that is being filled.
  unfoldable pub read_blocks : ℕ → List (ℕ × Bytes) → List RequestBlock → Session → Session
  read_blocks last [] blocks s = s
  read_blocks last (v ∷ rows) blocks s =
      let full = blocks ++ request_block v ∷ [] in
      elim ((last == v.0) || leb 9 (length full)) [
        | true ↦ elim (ser full) [
          | ok _ ↦
              read_blocks last rows []
                (record { height = suc_ℤ s.height; sent = s.sent ++ full ∷ [] })
          | err _ ↦ s
        ]
        | false ↦ read_blocks last rows full (record s { height = suc_ℤ s.height })
      ]

  -- The height and the rows are read from the same tables.
  unfoldable pub send_blocks : Database → Session → Session
  unfolding read_blocks
  send_blocks db s = elim (get_last_block_height db) [
    | ok (some last) ↦
        if ltb_ℤ s.height (as_i64 last)
        then read_blocks last (get_blocks_from db s.height) [] s
        else s
    | _ ↦ s
  ]
