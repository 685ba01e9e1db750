-- ===== src/Replication/Served.antt =====
-- From the chain of the master node over the messages of a session to the tables of the client.
use pfe_development_of_a_mon.Prelude.{
  ℕ, suc, ◌≡◌, refl, ◌∙◌, ap, sym, ◌||◌, ◌==◌, leb, length, Bool-cases, List, [], ◌∷◌, ◌++◌, map,
  Bytes, pos, ℤ, ◌≤ℤ◌, ◌<ℤ◌, ltb_ℤ, as_i64, arith, Fallible, ok, is_ok, Fallible-cases, true, some,
  inl, inr, ==_iff, ◌<◌, i64_limit, suc_ℤ,
}
use mathlib.Core.List.{append_assoc, append-nil}
use pfe_development_of_a_mon.Proto.External.{Codec, External}
use pfe_development_of_a_mon.Database.Chain.{get_blocks_from, get_last_block_height}
use pfe_development_of_a_mon.Interpret.Shared.{core}
use pfe_development_of_a_mon.Consensus.Types.{NetData, Master}
use pfe_development_of_a_mon.Consensus.Append.{RoundTrips}
use pfe_development_of_a_mon.Client.Sync.{RequestBlock, Replica, handle_blocks}
use pfe_development_of_a_mon.Serve.Stream.{Session, request_block, read_blocks, send_blocks}
use pfe_development_of_a_mon.Serve.Batches.{joined, EndsWith}
use pfe_development_of_a_mon.Replication.Commits.{Entry, sent, play, Committed}
use pfe_development_of_a_mon.Replication.Follows.{handle_blocks-play}
use pfe_development_of_a_mon.Replication.Stored.{
  pair, top, top_above, Rising, UpTo, Committed-Rising, play-chain, last-height,
  get_blocks_from-Rising,
}

joined-append :
    (a : List (List RequestBlock)) (m : List RequestBlock) → joined (a ++ m ∷ []) ≡ joined a ++ m
joined-append [] m = append-nil m
joined-append (b ∷ a) m = ap (λ t. b ++ t) (joined-append a m) ∙ sym (append_assoc b (joined a) m)

module _ (ser : List RequestBlock → Fallible Bytes)
    (total : (m : List RequestBlock) → is_ok (ser m) ≡ true) where
  read_blocks-joined :
      (last : ℕ) (rows : List (ℕ × Bytes)) (blocks : List RequestBlock) (s : Session)
      → EndsWith last rows
      → joined (read_blocks ser last rows blocks s).sent
        ≡ joined s.sent ++ (blocks ++ map request_block rows)
  unfolding read_blocks
  read_blocks-joined last [] blocks s ends = absurd ends
  read_blocks-joined last (v ∷ []) blocks s ends =
      let full = blocks ++ request_block v ∷ [] in
      let now : (last == v.0) ≡ true = (==_iff last v.0).1 (sym ends) in
      elim (Fallible-cases (ser full)) [
        | inl (b, good) ↦ rw (read_blocks, now, good) (joined-append s.sent full)
        | inr (f, bad) ↦ absurd (ground (arith, total full))
      ]
  read_blocks-joined last (v ∷ w ∷ rows) blocks s ends =
      let full = blocks ++ request_block v ∷ [] in
      elim (Bool-cases ((last == v.0) || leb 9 (length full))) [
        | inl e ↦ elim (Fallible-cases (ser full)) [
          | inl (b, good) ↦
              rw (read_blocks, e, good)
                (read_blocks-joined last (w ∷ rows) []
                    (record { height = suc_ℤ s.height; sent = s.sent ++ full ∷ [] }) ends
                  ∙ ap (λ t. t ++ map request_block (w ∷ rows)) (joined-append s.sent full)
                  ∙ append_assoc (joined s.sent) full (map request_block (w ∷ rows))
                  ∙ ap (λ t. joined s.sent ++ t)
                      (append_assoc blocks (request_block v ∷ []) (map request_block (w ∷ rows))))
          | inr (f, bad) ↦ absurd (ground (arith, total full))
        ]
        | inr e ↦
            rw (read_blocks, e)
              (read_blocks-joined last (w ∷ rows) full (record s { height = suc_ℤ s.height }) ends
                ∙ ap (λ t. joined s.sent ++ t)
                    (append_assoc blocks (request_block v ∷ []) (map request_block (w ∷ rows))))
      ]

pairs-EndsWith : (e : Entry) (es : List Entry) → EndsWith (top e es) (map pair (e ∷ es))
pairs-EndsWith e [] = refl
pairs-EndsWith e (f ∷ es) = pairs-EndsWith f es

top_fits : (lo : ℕ) (e : Entry) (es : List Entry) → Rising lo (e ∷ es) → top e es < i64_limit
top_fits lo e [] h = h.1
top_fits lo e (f ∷ es) h = top_fits (suc e.height) f es h.2

blocks_sent : (es : List Entry) → map request_block (map pair es) ≡ map sent es
blocks_sent [] = refl
blocks_sent (e ∷ es) = ap (λ t. sent e ∷ t) (blocks_sent es)

module _ (x : External) (net : Codec NetData) (ser : List RequestBlock → Fallible Bytes) where
  -- A client whose tables have the core of the master node's and that names a height which no row
  -- exceeds.
  pub send_blocks-handle_blocks :
      ((m : List RequestBlock) → is_ok (ser m) ≡ true)
      → RoundTrips x.block
      → (z : ℤ) (lo : ℕ) (m : Master) (e : Entry) (es : List Entry) (r : Replica)
      → Committed x net lo m (e ∷ es)
      → UpTo z m.db.chain
      → z <ℤ pos lo
      → core r.db ≡ core m.db
      → r.last ≤ℤ pos lo
      → let after = play x net m (e ∷ es) in
        let messages = (send_blocks ser after.db (record { height = z; sent = [] })).sent in
        (joined messages ≡ map sent (e ∷ es))
        × (core (handle_blocks x r (joined messages)).0.db ≡ core after.db)
  unfolding send_blocks
  send_blocks-handle_blocks total trips z lo m e es r run up lt same low =
      let rise = Committed-Rising x net (e ∷ es) lo m run in
      let chain = play-chain x net (e ∷ es) lo m run in
      let after = play x net m (e ∷ es) in
      let last : get_last_block_height after.db ≡ ok (some (top e es)) =
        last-height after.db z lo m.db.chain e es chain up lt rise in
      let rows : get_blocks_from after.db z ≡ map pair (e ∷ es) =
        get_blocks_from-Rising after.db z lo m.db.chain (e ∷ es) chain up lt rise in
      let behind : ltb_ℤ z (as_i64 (top e es)) ≡ true =
        ground (arith, top_above lo e es rise, top_fits lo e es rise) in
      let start : Session = record { height = z; sent = [] } in
      let all : joined (send_blocks ser after.db start).sent ≡ map sent (e ∷ es) =
        rw (send_blocks, last, behind, rows)
          (read_blocks-joined ser total (top e es) (map pair (e ∷ es)) [] start
              (pairs-EndsWith e es)
            ∙ blocks_sent (e ∷ es)) in
      (
        all,
        ap (λ t. core (handle_blocks x r t).0.db) all
            ∙ handle_blocks-play x net trips (e ∷ es) lo r m run same low,
      )
