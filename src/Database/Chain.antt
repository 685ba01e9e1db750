-- ===== src/Database/Chain.antt =====
-- nyumt-proto/src/database/block.rs: the chain of blocks. An id is a `u64` in the program and an
-- `i64` in the table.
use pfe_development_of_a_mon.Prelude.{
  ℕ, Option, none, some, List, [], ◌∷◌, ◌++◌, map, Bytes, ℤ, ltb_ℤ, eqb_ℤ, as_i64, as_u64,
  if◌then◌else◌, retain, find, any, Fallible, ok, err, constraint,
}
use pfe_development_of_a_mon.Database.Tables.{ChainRow, Database, max_by}

-- `select max(id) from order`.
abbrev pub max_id : List ChainRow → Option ℤ
max_id rows = max_by (λ r. r.id) rows

-- The rows whose id is the maximum, of which the code takes the first.
unfoldable pub last_row : List ChainRow → Option ChainRow
last_row rows = elim (max_id rows) [ none ↦ none | some m ↦ find (λ r. eqb_ℤ r.id m) rows ]

abbrev pub map_row {ℓ} : {A : Type ℓ} → (ChainRow → A) → Option ChainRow → Option A
map_row f none = none
map_row f (some r) = some (f r)

unfoldable pub get_last_block_height : Database → Fallible (Option ℕ)
unfolding last_row
get_last_block_height db = ok (map_row (λ r. as_u64 r.id) (last_row db.chain))

unfoldable pub get_last_block : Database → Fallible (Option (ℕ × Bytes))
unfolding last_row
get_last_block db = ok (map_row (λ r. (as_u64 r.id, r.hash)) (last_row db.chain))

-- `order by id asc`.
abbrev pub insert_by_id : ChainRow → List ChainRow → List ChainRow
insert_by_id r [] = r ∷ []
insert_by_id r (s ∷ ss) = if ltb_ℤ s.id r.id then s ∷ insert_by_id r ss else r ∷ s ∷ ss

abbrev pub sort_by_id : List ChainRow → List ChainRow
sort_by_id [] = []
sort_by_id (r ∷ rs) = insert_by_id r (sort_by_id rs)

unfoldable pub get_blocks_from : Database → ℤ → List (ℕ × Bytes)
get_blocks_from db height =
    map (λ r. (as_u64 r.id, r.contents)) (sort_by_id (retain (λ r. ltb_ℤ height r.id) db.chain))

unfoldable pub add_new : Database → ℕ → Bytes → Bytes → Fallible Database
add_new db id contents hash =
    if any (λ r. eqb_ℤ r.id (as_i64 id)) db.chain
    then err constraint
    else ok (record db {
      chain = db.chain ++ record { id = as_i64 id; contents = contents; hash = hash } ∷ [];
    })
