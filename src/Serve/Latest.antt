-- ===== src/Serve/Latest.antt =====
-- What a client is sent of the chain.
use pfe_development_of_a_mon.Prelude.{
  ℕ, ◌≡◌, refl, ◌∙◌, ap, sym, true, false, none, some, List, [], ◌∷◌, map, any, All, retain, Bytes,
  ℤ, ltb_ℤ, as_i64, as_u64, arith, Fallible, ok, is_ok, Bool-cases, Option-cases, inl, inr, ◌⊎◌,
  ◌++◌, length,
}
use mathlib.Core.Path.{subst}
use mathlib.Core.List.{append-nil}
use pfe_development_of_a_mon.Database.Tables.{ChainRow, Database}
use pfe_development_of_a_mon.Database.Chain.{
  max_id, last_row, get_last_block_height, get_blocks_from, sort_by_id,
}
use pfe_development_of_a_mon.Client.Sync.{RequestBlock}
use pfe_development_of_a_mon.Serve.Stream.{Session, request_block, send_blocks}
use pfe_development_of_a_mon.Serve.Batches.{
  Delivers, EndsWith, IsMessage, joined, advance, read_blocks-Delivers,
}
use pfe_development_of_a_mon.Replication.Maximum.{max_by-none, max_by-AtMost}
use pfe_development_of_a_mon.Replication.Stored.{last_row-found}
use pfe_development_of_a_mon.Serve.Endings.{
  is_id, Ends-sort, retain-UpTo, any-retain, Ends-EndsWith,
}

-- The casts to `u64` and back leave the id as it is.
abbrev pub IsI64 : ChainRow → Type 0
IsI64 r = as_i64 (as_u64 r.id) ≡ r.id

found-IsI64 :
    (m : ℤ) (rows : List ChainRow)
    → All IsI64 rows
    → any (is_id m) rows ≡ true
    → as_i64 (as_u64 m) ≡ m
found-IsI64 m [] h e = absurd cc
found-IsI64 m (r ∷ rows) h e = elim (Bool-cases (is_id m r)) [
  | inl here ↦ let is : r.id ≡ m = ground arith in subst (λ (z : ℤ). as_i64 (as_u64 z) ≡ z) is h.0
  | inr there ↦ found-IsI64 m rows h.1 (ground arith)
]

-- There is no block, or none above the height of the session.
pub data IsLevel (db : Database) (s : Session) : Type 0 where
  no_block : db.chain ≡ [] → IsLevel db s
  level :
      (last : ℕ)
      → get_last_block_height db ≡ ok (some last)
      → ltb_ℤ s.height (as_i64 last) ≡ false
      → IsLevel db s

-- Every row that was read is sent.
pub record Serves (rows : List (ℕ × Bytes)) (s s' : Session) : Type 0 where
  pub messages : List (List RequestBlock)
  pub sent : s'.sent ≡ s.sent ++ messages
  pub small : All IsMessage messages
  pub whole : joined messages ≡ map request_block rows
  pub height : s'.height ≡ advance (length rows) s.height

rows-EndsWith :
    (db : Database) (z m : ℤ)
    → All IsI64 db.chain
    → max_id db.chain ≡ some m
    → ltb_ℤ z (as_i64 (as_u64 m)) ≡ true
    → EndsWith (as_u64 m) (get_blocks_from db z)
unfolding get_blocks_from
rows-EndsWith db z m fits e behind =
    let (up, found) = max_by-AtMost (λ (r : ChainRow). r.id) db.chain m e in
    let exact = found-IsI64 m db.chain fits found in
    let below : ltb_ℤ z m ≡ true = rw exact at behind in
    let above = retain (λ r. ltb_ℤ z r.id) db.chain in
    Ends-EndsWith m (sort_by_id above)
      (Ends-sort m above (retain-UpTo z m db.chain up) (any-retain z m db.chain below found))

Delivers-Serves :
    (last : ℕ) (rows : List (ℕ × Bytes)) (s s' : Session)
    → EndsWith last rows
    → Delivers last s [] rows s'
    → Serves rows s s'
Delivers-Serves last rows s s' ends d = record {
  messages = d.messages;
  sent = d.sent;
  small = d.small;
  whole =
      sym (append-nil (joined d.messages))
      ∙ ap (λ u. joined d.messages ++ u) (sym (d.complete ends))
      ∙ d.whole;
  height = d.height;
}

no_height : (db : Database) → db.chain ≡ [] → get_last_block_height db ≡ ok none
unfolding get_last_block_height last_row
no_height db e = rw (get_last_block_height, last_row, e) refl

height-found :
    (db : Database) (m : ℤ)
    → max_id db.chain ≡ some m
    → any (is_id m) db.chain ≡ true
    → get_last_block_height db ≡ ok (some (as_u64 m))
unfolding get_last_block_height
height-found db m e found = ap ok (last_row-found m db.chain e found)

-- If messages can be serialised and the ids of the chain are `i64`: either the session is level with the
-- chain, and then nothing is sent and its height stays; or it is behind, and then it is sent all rows
-- above its height in their order, each once, in messages of one to nine blocks, and its height is counted
-- up once for each row.
pub send_blocks-Serves :
    (ser : List RequestBlock → Fallible Bytes)
    → ((m : List RequestBlock) → is_ok (ser m) ≡ true)
    → (db : Database) (s : Session) → All IsI64 db.chain
    → (IsLevel db s × (send_blocks ser db s ≡ s))
      ⊎ ((last : ℕ) × (get_last_block_height db ≡ ok (some last))
          × (ltb_ℤ s.height (as_i64 last) ≡ true)
          × Serves (get_blocks_from db s.height) s (send_blocks ser db s))
unfolding send_blocks
send_blocks-Serves ser total db s fits = elim (Option-cases (max_id db.chain)) [
  | inl e ↦
      let empty = max_by-none (λ (r : ChainRow). r.id) db.chain e in
      inl (no_block empty, rw (send_blocks, no_height db empty) refl)
  | inr (m, e) ↦
      let (up, found) = max_by-AtMost (λ (r : ChainRow). r.id) db.chain m e in
      let last = height-found db m e found in
      elim (Bool-cases (ltb_ℤ s.height (as_i64 (as_u64 m)))) [
        | inr even ↦ inl (level (as_u64 m) last even, rw (send_blocks, last, even) refl)
        | inl behind ↦ inr (
          as_u64 m,
          last,
          behind,
          rw (send_blocks, last, behind)
              (Delivers-Serves (as_u64 m) (get_blocks_from db s.height) s _
                (rows-EndsWith db s.height m fits e behind)
                (read_blocks-Delivers ser total (as_u64 m) (get_blocks_from db s.height) [] s
                  (omega arith))),
        )
      ]
]
