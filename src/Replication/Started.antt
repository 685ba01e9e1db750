-- ===== src/Replication/Started.antt =====
-- The height that a client names when it connects (nyumt-client-core/src/client/mod.rs), and what it is
-- sent for it.
use pfe_development_of_a_mon.Prelude.{
  ℕ, ◌≡◌, refl, ◌∙◌, ap, sym, List, [], ◌∷◌, Bytes, Text, ℤ, pos, ◌<ℤ◌, as_u64, as_i64, map, arith,
  Fallible, ok, is_ok, inl, inr, Option-cases, >>=-eq-ok, true,
}
use mathlib.Core.Path.{subst}
use pfe_development_of_a_mon.Proto.Types.{PublicKey}
use pfe_development_of_a_mon.Proto.External.{Codec, External}
use pfe_development_of_a_mon.Database.Tables.{ChainRow, Database}
use pfe_development_of_a_mon.Database.Chain.{max_id, get_last_block_height}
use pfe_development_of_a_mon.Interpret.Shared.{core}
use pfe_development_of_a_mon.Consensus.Types.{NetData, Master}
use pfe_development_of_a_mon.Consensus.Append.{RoundTrips}
use pfe_development_of_a_mon.Client.Sync.{RequestBlock, Replica, handle_blocks}
use pfe_development_of_a_mon.Client.Channel.{ClientRequest, ClientResponse, Link}
use pfe_development_of_a_mon.Client.Start.{last_height, last_timestamp, address, new}
use pfe_development_of_a_mon.Serve.Stream.{send_blocks}
use pfe_development_of_a_mon.Serve.Batches.{joined}
use pfe_development_of_a_mon.Replication.Commits.{Entry, sent, play, Committed}
use pfe_development_of_a_mon.Replication.Stored.{UpTo, last_row-found}
use pfe_development_of_a_mon.Replication.Maximum.{
  InRange, max_by-none, max_by-AtMost, max_by-as_i64,
}
use pfe_development_of_a_mon.Replication.Served.{send_blocks-handle_blocks}

abbrev pub id_of : ChainRow → ℤ
id_of r = r.id

-- No row lies above the height that is named.
last_height-UpTo :
    (db : Database) (z : ℤ) → InRange id_of db.chain → last_height db ≡ ok z → UpTo z db.chain
unfolding last_height get_last_block_height
last_height-UpTo db z fits e = elim (Option-cases (max_id db.chain)) [
  | inl n ↦ rw (max_by-none id_of db.chain n) tt
  | inr (i, s) ↦
      let named : last_height db ≡ ok (as_i64 (as_u64 i)) =
        rw (last_row-found i db.chain s (max_by-AtMost id_of db.chain i s).1) refl in
      let is : as_i64 (as_u64 i) ≡ z = cc in
      subst (λ (t : ℤ). UpTo t db.chain) is (max_by-as_i64 id_of db.chain i s fits)
]

module _ (x : External) (net : Codec NetData) (ser : List RequestBlock → Fallible Bytes)
    (requests : Codec ClientRequest) (responses : Codec ClientResponse) (version : ℕ)
    (dial : Text → Fallible (Unit {0})) where
  new-tables :
      (db : Database) (host : Text) (pk : PublicKey) (peer : Text) (id : ℕ) (r : Replica) (l : Link)
      → new x requests responses version dial db host pk peer id ≡ ok (r, l)
      → (last_height db ≡ ok r.last) × (r.db ≡ db)
  unfolding new
  new-tables db host pk peer id r l h =
      let (height, named, h1) = >>=-eq-ok (last_height db) _ h in
      let (t, timed, h2) = >>=-eq-ok (last_timestamp x db) _ h1 in
      let (m, parsed, h3) = >>=-eq-ok (address host) _ h2 in
      let (u, dialled, h4) = >>=-eq-ok (dial m) _ h3 in
      let is : height ≡ r.last = cc in (named ∙ ap ok is, cc)

  -- If messages can be serialised, a written block is read back, ids are `i64`, and each block that the
  -- master node stores from then on lies above those before it and, but for the first of the chain, has
  -- requests which the check of a client accepts in the tables to which it is added: a client that has
  -- started on tables with the core of the master node's, empty ones included, is sent all these blocks
  -- above the height that the client has named, each once and in their order. Once it has handled the messages its tables have the core of the master node's again: the same blocks,
  -- users, nodes and configurations, also where the execution of a block fails.
  pub new-handle_blocks :
      ((m : List RequestBlock) → is_ok (ser m) ≡ true)
      → RoundTrips x.block
      → (db : Database) (host : Text) (pk : PublicKey) (peer : Text) (id : ℕ) (r : Replica)
        (l : Link)
      → new x requests responses version dial db host pk peer id ≡ ok (r, l)
      → (m : Master) → core db ≡ core m.db
      → InRange id_of m.db.chain
      → (lo : ℕ) (e : Entry) (es : List Entry) → r.last <ℤ pos lo
      → Committed x net lo m (e ∷ es)
      → let after = play x net m (e ∷ es) in
        let messages = (send_blocks ser after.db (record { height = r.last; sent = [] })).sent in
        (joined messages ≡ map sent (e ∷ es))
        × (core (handle_blocks x r (joined messages)).0.db ≡ core after.db)
  new-handle_blocks total trips db host pk peer id r l started m same fits lo e es above run =
      let (named, tables) = new-tables db host pk peer id r l started in
      let chains : m.db.chain ≡ db.chain = ap (λ d. d.chain) (sym same) in
      let up : UpTo r.last m.db.chain =
        subst (UpTo r.last) (sym chains)
          (last_height-UpTo db r.last (subst (InRange id_of) chains fits) named) in
      send_blocks-handle_blocks x net ser total trips r.last lo m e es r run up above
        (ap core tables ∙ same) (omega (arith, above))
