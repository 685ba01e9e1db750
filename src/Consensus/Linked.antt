-- ===== src/Consensus/Linked.antt =====
-- What many requests make of the chain.
use pfe_development_of_a_mon.Prelude.{
  ℕ, suc, ◌+◌, ◌%◌, ◌<◌, as_i64, as_u64, u64_mod, ◌≡◌, ◌⊎◌, refl, ◌∙◌, sym, ap, Option, none, some,
  List, [], ◌∷◌, ◌++◌, Bytes, ℤ, pos, ltb_ℤ, eqb_ℤ, i64_limit, length, All, true, find, ok, inl,
  inr, Option-cases, arith,
}
use mathlib.Core.List.{append_assoc, append-nil}
use mathlib.Core.Path.{subst}
use pfe_development_of_a_mon.Proto.Types.{BodyData}
use pfe_development_of_a_mon.Proto.External.{Codec, External}
use pfe_development_of_a_mon.Database.Tables.{Database, ChainRow}
use pfe_development_of_a_mon.Database.Chain.{max_id, map_row, last_row, get_last_block}
use pfe_development_of_a_mon.Consensus.Types.{NetData, Master}
use pfe_development_of_a_mon.Consensus.Events.{chained}
use pfe_development_of_a_mon.Consensus.Publish.{Attempt}
use pfe_development_of_a_mon.Consensus.Append.{KeepsChain, RoundTrips, get_last_block_congr}
use pfe_development_of_a_mon.Consensus.Submit.{submit}
use pfe_development_of_a_mon.Consensus.Growth.{submit-Grows}
use pfe_development_of_a_mon.Replication.Stored.{UpTo}

-- A request, what the network and the other tasks do while it is voted on, and what they do afterwards.
pub record Turn : Type 0 where
  pub body : BodyData
  pub world : ℕ → Attempt
  pub meanwhile : Master → Master

-- The other tasks leave the chain alone.
pub record KeepsRows (t : Turn) : Type 0 where
  pub voting : KeepsChain t.world
  pub later : (m : Master) → (t.meanwhile m).db.chain ≡ m.db.chain

-- The rows are those of some of the requests, in their order: each id is the one above the last, and each
-- hash is the digest of the hash before it and of the serialised body.
abbrev pub IsLinked : External → ℕ → Bytes → List Turn → List ChainRow → Type 0
IsLinked x last hash [] rows = rows ≡ []
IsLinked x last hash (t ∷ turns) rows =
    IsLinked x last hash turns rows
    ⊎ ((row : ChainRow) × (rest : List ChainRow) × (bytes : Bytes) × (rows ≡ row ∷ rest)
        × (x.body_data.to_vec t.body ≡ ok bytes)
        × (row.id ≡ pos (last + 1))
        × (row.hash ≡ chained x hash bytes)
        × IsLinked x (last + 1) row.hash turns rest)

max_id-above :
    (k : ℤ) (j : ℤ) (rows : List ChainRow) (r : ChainRow)
    → UpTo j rows
    → ltb_ℤ j k ≡ true
    → r.id ≡ k
    → max_id (rows ++ r ∷ []) ≡ some k
max_id-above k j [] r up lt e = ap some e
max_id-above k j (s ∷ rows) r up lt e =
    rw (max_id-above k j rows r up.1 lt e) (ground (arith, up.0))

find-above :
    (k j : ℤ) (rows : List ChainRow) (r : ChainRow)
    → UpTo j rows
    → ltb_ℤ j k ≡ true
    → r.id ≡ k
    → find (λ q. eqb_ℤ q.id k) (rows ++ r ∷ []) ≡ some r
find-above k j [] r up lt e = ground arith
find-above k j (s ∷ rows) r up lt e = ground (arith, up.0, find-above k j rows r up.1 lt e)

UpTo-above :
    (k j : ℤ) (rows : List ChainRow) (r : ChainRow)
    → UpTo j rows
    → ltb_ℤ j k ≡ true
    → r.id ≡ k
    → UpTo k (rows ++ r ∷ [])
UpTo-above k j [] r up lt e = (ground arith, tt)
UpTo-above k j (s ∷ rows) r up lt e = (ground (arith, up.0), UpTo-above k j rows r up.1 lt e)

last_row-above :
    (k j : ℤ) (rows : List ChainRow) (r : ChainRow)
    → UpTo j rows
    → ltb_ℤ j k ≡ true
    → r.id ≡ k
    → last_row (rows ++ r ∷ []) ≡ some r
unfolding last_row
last_row-above k j rows r up lt e =
    rw (last_row, max_id-above k j rows r up lt e) (find-above k j rows r up lt e)

-- A row with a higher id is the last block.
get_last_block-above :
    (db after : Database) (last : ℕ) (r : ChainRow)
    → UpTo (pos last) db.chain
    → r.id ≡ pos (last + 1)
    → after.chain ≡ db.chain ++ r ∷ []
    → get_last_block after ≡ ok (some (last + 1, r.hash))
unfolding get_last_block
get_last_block-above db after last r up e added =
    ap (λ c. ok (map_row (λ (q : ChainRow). (as_u64 q.id, q.hash)) (last_row c))) added
    ∙ ap (λ l. ok (map_row (λ (q : ChainRow). (as_u64 q.id, q.hash)) l))
        (last_row-above (pos (last + 1)) (pos last) db.chain r up (ground arith) e)
    ∙ ap (λ i. ok (some (as_u64 i, r.hash))) e

module _ (x : External) (net : Codec NetData) where
  -- The requests, one after the other; `none` where a loop runs out of fuel. The loop of `sync` gives each a
  -- task of its own: here each is answered before the next one is begun.
  unfoldable pub submit_all : Master → List Turn → Option Master
  submit_all m [] = some m
  submit_all m (t ∷ turns) = elim (submit x net t.world t.body m) [
    | none ↦ none
    | some r ↦ submit_all (t.meanwhile r.state) turns
  ]

  -- The rows that were added behind the last block.
  pub record Extends (last : ℕ) (hash : Bytes) (turns : List Turn) (m m' : Master) : Type 0 where
    pub rows : List ChainRow
    pub added : m'.db.chain ≡ m.db.chain ++ rows
    pub linked : IsLinked x last hash turns rows

  -- A request that leaves the chain alone, then the rest.
  same-Extends :
      (t : Turn) (turns : List Turn) (m after m' : Master) (last : ℕ) (hash : Bytes)
      → after.db.chain ≡ m.db.chain
      → Extends last hash turns after m'
      → Extends last hash (t ∷ turns) m m'
  same-Extends t turns m after m' last hash same d = record {
    rows = d.rows;
    added = d.added ∙ ap (λ c. c ++ d.rows) same;
    linked = inl d.linked;
  }

  next_id :
      (last : ℕ) (r : ChainRow) (rest : ℕ)
      → r.id ≡ as_i64 ((last + 1) % u64_mod)
      → last + suc rest < i64_limit
      → r.id ≡ pos (last + 1)
  next_id last r rest e fits = e ∙ (ground arith)

  -- A request that adds a row, then the rest.
  added-Extends :
      (t : Turn) (turns : List Turn) (m after m' : Master) (last : ℕ) (row : ChainRow)
      (hash bytes : Bytes)
      → x.body_data.to_vec t.body ≡ ok bytes
      → row.id ≡ pos (last + 1)
      → row.hash ≡ chained x hash bytes
      → after.db.chain ≡ m.db.chain ++ row ∷ []
      → Extends (last + 1) row.hash turns after m'
      → Extends last hash (t ∷ turns) m m'
  added-Extends t turns m after m' last row hash bytes written id digest added d = record {
    rows = row ∷ d.rows;
    added = d.added ∙ ap (λ c. c ++ d.rows) added ∙ append_assoc m.db.chain (row ∷ []) d.rows;
    linked = inr (row, d.rows, bytes, refl, written, id, digest, d.linked);
  }

  module _ (trips : RoundTrips net) where
    -- If the other tasks leave the chain alone, what is written as a message is read back, no id lies
    -- above that of the last block and the ids stay `i64`: when any number of requests have been
    -- answered, each before the next one is begun, the chain is what it was and behind it rows of some of the requests, in their order. The
    -- ids of these go on from the last one without a gap, and the hash of each is the digest of the hash
    -- before it and of the serialised body.
    pub submit_all-Extends :
        (turns : List Turn) (m m' : Master) (last : ℕ) (hash : Bytes)
        → All KeepsRows turns
        → get_last_block m.db ≡ ok (some (last, hash))
        → UpTo (pos last) m.db.chain
        → last + length turns < i64_limit
        → submit_all m turns ≡ some m'
        → Extends last hash turns m m'
    unfolding submit_all
    submit_all-Extends [] m m' last hash keeps behind up fits e =
        let is : m ≡ m' = cc in
        record {
          rows = [];
          added = ap (λ (t : Master). t.db.chain) (sym is) ∙ sym (append-nil m.db.chain);
          linked = refl;
        }
    submit_all-Extends (t ∷ turns) m m' last hash keeps behind up fits e =
        elim (Option-cases (submit x net t.world t.body m)) [
          | inl none' ↦ absurd (let p = rw (submit_all, none') at e in cc)
          | inr (r, answered) ↦
              let rest = rw (submit_all, answered) at e in
              let after = t.meanwhile r.state in
              let kept = keeps.0.later r.state in
              elim (submit-Grows x net t.world keeps.0.voting trips t.body m r answered) [
                | inl same ↦
                    let unchanged : after.db.chain ≡ m.db.chain = kept ∙ same in
                    same-Extends t turns m after m' last hash unchanged (
                      submit_all-Extends turns after m' last hash keeps.1
                        (get_last_block_congr after.db m.db unchanged ∙ behind)
                        (subst (UpTo (pos last)) (sym unchanged) up) (omega (arith, fits)) rest)
                | inr (done, a) ↦
                    let is_last : a.last ≡ last = let b = a.behind in cc in
                    let is_hash : a.hash ≡ hash = let b = a.behind in cc in
                    let id : a.row.id ≡ pos (last + 1) =
                      next_id last a.row (length turns)
                        (a.next_id ∙ ap (λ n. as_i64 ((n + 1) % u64_mod)) is_last) fits in
                    let grown : after.db.chain ≡ m.db.chain ++ a.row ∷ [] = kept ∙ a.added in
                    added-Extends t turns m after m' last a.row hash a.bytes a.serialized id
                      (a.digest ∙ ap (λ h. chained x h a.bytes) is_hash) grown
                      (submit_all-Extends turns after m' (last + 1) a.row.hash keeps.1
                        (get_last_block-above m.db after.db last a.row up id grown)
                        (subst (UpTo (pos (last + 1))) (sym grown) (
                          UpTo-above (pos (last + 1)) (pos last) m.db.chain a.row up (ground arith)
                            id))
                        (omega (arith, fits)) rest)
              ]
        ]
