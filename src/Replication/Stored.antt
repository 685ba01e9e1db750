-- ===== src/Replication/Stored.antt =====
-- The chain of the master node after a run: which rows it has, and which block is the last.
use pfe_development_of_a_mon.Prelude.{
  ℕ, suc, ◌≤◌, ◌<◌, ◌≡◌, refl, ◌∙◌, ap, sym, Bool-cases, List, [], ◌∷◌, ◌++◌, map, Bytes, ℤ, pos,
  ◌≤ℤ◌, ◌<ℤ◌, ltb_ℤ, eqb_ℤ, eqb_ℤ→eq, as_u64, as_i64_small, ok, some, All, retain, find, any,
  any-append, inl, inr, arith, true, i64_limit,
}
use mathlib.Core.List.{append_assoc, append-nil}
use pfe_development_of_a_mon.Proto.External.{Codec, External}
use pfe_development_of_a_mon.Database.Tables.{ChainRow, Database}
use pfe_development_of_a_mon.Database.Chain.{
  max_id, last_row, map_row, sort_by_id, get_last_block_height, get_blocks_from,
}
use pfe_development_of_a_mon.Interpret.Execute.{interpret_block}
use pfe_development_of_a_mon.Interpret.Blocks.{interpret_block_frame}
use pfe_development_of_a_mon.Consensus.Types.{NetData, Master}
use pfe_development_of_a_mon.Consensus.Growth.{add_new-chain, executed-chain}
use pfe_development_of_a_mon.Replication.Commits.{Entry, add_entry, play, IsCommitted, Committed}
use pfe_development_of_a_mon.Replication.Follows.{commit-stored}

-- The row of a block.
abbrev pub row : Entry → ChainRow
row e = record { id = pos e.height; contents = e.contents; hash = e.hash }

-- The heights go up, from `lo` on.
abbrev pub Rising : ℕ → List Entry → Type 0
Rising lo [] = Unit
Rising lo (e ∷ es) = (lo ≤ e.height) × (e.height < i64_limit) × Rising (suc e.height) es

abbrev pub top : Entry → List Entry → ℕ
top e [] = e.height
top e (f ∷ es) = top f es

pub top_above : (lo : ℕ) (e : Entry) (es : List Entry) → Rising lo (e ∷ es) → lo ≤ top e es
top_above lo e [] h = h.0
top_above lo e (f ∷ es) h = omega (arith, top_above (suc e.height) f es h.2, h.0)

module _ (x : External) (net : Codec NetData) where
  pub Committed-Rising :
      (es : List Entry) (lo : ℕ) (m : Master) → Committed x net lo m es → Rising lo es
  Committed-Rising [] lo m h = tt
  Committed-Rising (e ∷ es) lo m (le, c, h) =
      (le, c.fits, Committed-Rising es (suc e.height) (add_entry x net e m) h)

  store-chain :
      (m : Master) (e : Entry)
      → IsCommitted x net m e
      → (add_entry x net e m).db.chain ≡ m.db.chain ++ row e ∷ []
  store-chain m e c =
      ap (λ t. t.state.db.chain) (commit-stored x net m e c)
      ∙ (executed-chain x net m (interpret_block x c.row e.body.req)).0
      ∙ (interpret_block_frame x c.row e.body.req).0
      ∙ add_new-chain m.db c.row e.height e.contents e.hash c.stored
      ∙ ap (λ i. m.db.chain ++ record (row e) { id = i } ∷ []) (as_i64_small e.height c.fits)

  pub play-chain :
      (es : List Entry) (lo : ℕ) (m : Master)
      → Committed x net lo m es
      → (play x net m es).db.chain ≡ m.db.chain ++ map row es
  play-chain [] lo m h = sym (append-nil m.db.chain)
  play-chain (e ∷ es) lo m (le, c, h) =
      play-chain es (suc e.height) (add_entry x net e m) h
      ∙ ap (λ t. t ++ map row es) (store-chain m e c)
      ∙ append_assoc m.db.chain (row e ∷ []) (map row es)

-- No row lies above the height.
abbrev pub UpTo : ℤ → List ChainRow → Type 0
UpTo z rows = All (λ r. r.id ≤ℤ z) rows

max_id-Rising :
    (lo : ℕ) (e : Entry) (es : List Entry)
    → Rising lo (e ∷ es)
    → max_id (map row (e ∷ es)) ≡ some (pos (top e es))
max_id-Rising lo e [] h = refl
max_id-Rising lo e (f ∷ es) h =
    let above = top_above (suc e.height) f es h.2 in
    rw (max_id-Rising (suc e.height) f es h.2) (ground arith)

max_id-append :
    (z : ℤ) (lo : ℕ) (old : List ChainRow) (e : Entry) (es : List Entry)
    → UpTo z old
    → z <ℤ pos lo
    → Rising lo (e ∷ es)
    → max_id (old ++ map row (e ∷ es)) ≡ some (pos (top e es))
max_id-append z lo [] e es up lt rise = max_id-Rising lo e es rise
max_id-append z lo (r ∷ old) e es up lt rise =
    let above = top_above lo e es rise in
    rw (max_id-append z lo old e es up.1 lt rise) (ground (arith, up.0))

find-id :
    (i : ℤ) (rows : List ChainRow)
    → any (λ r. eqb_ℤ r.id i) rows ≡ true
    → map_row (λ r. as_u64 r.id) (find (λ r. eqb_ℤ r.id i) rows) ≡ some (as_u64 i)
find-id i [] h = cc
find-id i (r ∷ rows) h = elim (Bool-cases (eqb_ℤ r.id i)) [
  | inl e ↦ rw (e, eqb_ℤ→eq r.id i e) refl
  | inr e ↦ rw e (find-id i rows (rw e at h))
]

pub last_row-found :
    (i : ℤ) (rows : List ChainRow)
    → max_id rows ≡ some i
    → any (λ r. eqb_ℤ r.id i) rows ≡ true
    → map_row (λ r. as_u64 r.id) (last_row rows) ≡ some (as_u64 i)
unfolding last_row
last_row-found i rows is h = rw (last_row, is) (find-id i rows h)

any-top :
    (e : Entry) (es : List Entry) → any (λ r. eqb_ℤ r.id (pos (top e es))) (map row (e ∷ es)) ≡ true
any-top e [] = ground arith
any-top e (f ∷ es) = ground (arith, any-top f es)

-- The last block is the last one that was stored.
pub last-height :
    (db : Database) (z : ℤ) (lo : ℕ) (old : List ChainRow) (e : Entry) (es : List Entry)
    → db.chain ≡ old ++ map row (e ∷ es)
    → UpTo z old
    → z <ℤ pos lo
    → Rising lo (e ∷ es)
    → get_last_block_height db ≡ ok (some (top e es))
unfolding get_last_block_height
last-height db z lo old e es is up lt rise =
    let found : any (λ (r : ChainRow). eqb_ℤ r.id (pos (top e es))) (old ++ map row (e ∷ es))
        ≡ true =
      any-append (λ (r : ChainRow). eqb_ℤ r.id (pos (top e es))) old (map row (e ∷ es))
      ∙ rw (any-top e es) (ground arith) in
    rw is (ap ok (last_row-found (pos (top e es)) _ (max_id-append z lo old e es up lt rise) found))

abbrev pub pair : Entry → ℕ × Bytes
pair e = (e.height, e.contents)

retain-Rising :
    (z : ℤ) (lo : ℕ) (es : List Entry)
    → z <ℤ pos lo
    → Rising lo es
    → retain (λ r. ltb_ℤ z r.id) (map row es) ≡ map row es
retain-Rising z lo [] lt rise = refl
retain-Rising z lo (e ∷ es) lt rise =
    ground (arith, retain-Rising z (suc e.height) es (omega (arith, rise.0)) rise.2)

retain-append :
    (z : ℤ) (old new : List ChainRow)
    → UpTo z old
    → retain (λ r. ltb_ℤ z r.id) (old ++ new) ≡ retain (λ r. ltb_ℤ z r.id) new
retain-append z [] new up = refl
retain-append z (r ∷ old) new up = ground (arith, up.0, retain-append z old new up.1)

sort-Rising : (lo : ℕ) (es : List Entry) → Rising lo es → sort_by_id (map row es) ≡ map row es
sort-Rising lo [] h = refl
sort-Rising lo (e ∷ []) h = refl
sort-Rising lo (e ∷ f ∷ es) h = rw (sort-Rising (suc e.height) (f ∷ es) h.2) (ground (arith, h.2.0))

map-pair : (es : List Entry) → map (λ r. (as_u64 r.id, r.contents)) (map row es) ≡ map pair es
map-pair [] = refl
map-pair (e ∷ es) = ap (λ t. pair e ∷ t) (map-pair es)

-- The rows above a height that no earlier row exceeds are those that were stored, in their order.
pub get_blocks_from-Rising :
    (db : Database) (z : ℤ) (lo : ℕ) (old : List ChainRow) (es : List Entry)
    → db.chain ≡ old ++ map row es
    → UpTo z old
    → z <ℤ pos lo
    → Rising lo es
    → get_blocks_from db z ≡ map pair es
unfolding get_blocks_from
get_blocks_from-Rising db z lo old es is up lt rise =
    rw
      (
        is,
        retain-append z old (map row es) up,
        retain-Rising z lo es lt rise,
        sort-Rising lo es rise,
      )
      (map-pair es)
