-- ===== src/Database/Reports.antt =====
-- nyumt-proto/src/database/node.rs, the statements on the stored reports. The table's key is the
-- pair of the timestamp and the node; a NULL node conflicts with nothing.
use pfe_development_of_a_mon.Prelude.{
  ℕ, Bool, false, not, Option, none, some, List, [], ◌∷◌, ◌++◌, ◌&&◌, Bytes, ℤ, ltb_ℤ, eqb_ℤ,
  as_i64, as_u64, ◌>>=◌, leb, ◌==◌, if◌then◌else◌, retain, any, count, Fallible, ok, err,
  constraint,
}
use pfe_development_of_a_mon.Proto.External.{External}
use pfe_development_of_a_mon.Database.Tables.{StatRow, Database, max_by}
use pfe_development_of_a_mon.Database.Users.{read_i64}
use pfe_development_of_a_mon.Database.Nodes.{node_id}

abbrev pub clashes : ℤ → ℕ → StatRow → Bool
clashes t n r = eqb_ℤ r.timestamp t && elim r.node [ none ↦ false | some m ↦ m == n ]

abbrev pub append_stats : Database → Option ℕ → Bytes → Bytes → ℕ → Database
append_stats db node contents sig timestamp = record db {
  stats =
      db.stats
      ++ record { timestamp = as_i64 timestamp; node = node; contents = contents; sig = sig } ∷ [];
}

-- `store_stats_with_id`. Where foreign keys are enforced the node has to be there.
unfoldable pub store_stats_with_id : External → Database → ℕ → Bytes → Bytes → ℕ → Fallible Database
store_stats_with_id x db id contents sig timestamp =
    if any (clashes (as_i64 timestamp) id) db.stats
    then err constraint
    else (if x.foreign_keys && not (any (λ n. n.id == id) db.nodes)
        then err constraint
        else ok (append_stats db (some id) contents sig timestamp))

-- `store_stats`: the node is looked up by its key, and is NULL for a key of no node.
unfoldable pub store_stats : Database → Bytes → Bytes → Bytes → ℕ → Fallible Database
unfolding node_id
store_stats db node_pk contents sig timestamp = elim (node_id db node_pk) [
  | none ↦ ok (append_stats db none contents sig timestamp)
  | some id ↦
      if any (clashes (as_i64 timestamp) id) db.stats
      then err constraint
      else ok (append_stats db (some id) contents sig timestamp)
]

unfoldable pub poll_stats_ready : Database → ℕ → Fallible Bool
poll_stats_ready db timestamp =
    ok (leb 1 (count (λ r. ltb_ℤ (as_i64 timestamp) r.timestamp) db.stats))

-- The rows after a timestamp. The statement names no order, so that SQLite chooses one: here it is that of
-- the table.
unfoldable pub stats_after : Database → ℕ → List StatRow
stats_after db timestamp = retain (λ r. ltb_ℤ (as_i64 timestamp) r.timestamp) db.stats

-- The one row that the aggregate has.
unfoldable pub get_last_stats_timestamp : External → Database → Fallible (Option ℕ)
get_last_stats_timestamp x db = do
  t ← read_i64 x (max_by (λ r. r.timestamp) db.stats)
  ok (some (as_u64 t))
