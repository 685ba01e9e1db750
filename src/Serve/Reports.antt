-- ===== src/Serve/Reports.antt =====
-- The report arm of `event_handler` (nyumt-node/src/master_serve/activity.rs): the reports that a
-- client is sent, in messages of at most nine.
use pfe_development_of_a_mon.Prelude.{
  ℕ, true, false, none, some, List, [], ◌∷◌, ◌++◌, leb, length, if◌then◌else◌, map, Bytes, as_u64,
  Fallible, ok, err, ◌>>=◌,
}
use pfe_development_of_a_mon.Client.Sync.{Stat}
use pfe_development_of_a_mon.Database.Tables.{StatRow, Database}
use pfe_development_of_a_mon.Database.Reports.{poll_stats_ready, stats_after}

-- `last_timestamp` of the session's settings, and the messages that were sent.
pub record Feed : Type 0 where
  pub last_timestamp : ℕ
  pub sent : List (List Stat)

-- A row as the stream yields it, with its time. `null_u32` is what a NULL reads as.
abbrev pub read_row : Fallible ℕ → StatRow → Fallible (Stat × ℕ)
read_row null_u32 r = do
  id ← elim r.node [ none ↦ null_u32 | some n ↦ ok n ]
  ok (record { id = id; contents = r.contents; sig = r.sig }, as_u64 r.timestamp)

-- `ser` is the derived serialisation of a message. One that fails ends the loop.
module _ (ser : List Stat → Fallible Bytes) where
  abbrev pub push_message : List Stat → ℕ → Feed → Feed
  push_message stats last s = record { last_timestamp = last; sent = s.sent ++ stats ∷ [] }

  -- The loop; `stats` is the message that is being filled, `last` the time of its last row.
  unfoldable pub read_stats : List (Fallible (Stat × ℕ)) → List Stat → ℕ → Feed → Feed
  read_stats [] stats last s =
      if leb 1 (length stats)
      then elim (ser stats) [ ok _ ↦ push_message stats last s | err _ ↦ s ]
      else s
  read_stats (v ∷ rows) stats last s = elim v [
    | err _ ↦ s
    | ok (stat, time) ↦ elim (leb 9 (length stats)) [
      | true ↦ elim (ser stats) [
        | ok _ ↦ read_stats rows (stat ∷ []) time (push_message stats last s)
        | err _ ↦ s
      ]
      | false ↦ read_stats rows (stats ++ stat ∷ []) time s
    ]
  ]

  unfoldable pub send_stats : Fallible ℕ → Database → Feed → Feed
  send_stats null_u32 db s = elim (poll_stats_ready db s.last_timestamp) [
    | err _ ↦ s
    | ok ready ↦
        if ready
        then read_stats (map (read_row null_u32) (stats_after db s.last_timestamp)) [] 0 s
        else s
  ]
