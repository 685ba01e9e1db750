-- ===== src/Replication/Reports.antt =====
-- From the reports of a master node over the messages of a session to the table of a client.
use pfe_development_of_a_mon.Prelude.{
  ℕ, ◌≡◌, refl, ◌∙◌, ap, sym, ◌&&◌, not, Bool, true, false, Bool-cases, Option, none, some, List,
  [], ◌∷◌, ◌++◌, map, retain, any, any-append, All, Bytes, ℤ, ltb_ℤ, as_u64, as_i64, arith,
  Fallible, ok, is_ok, inl, inr, ◌==◌, Option-cases,
}
use mathlib.Core.List.{append_assoc, append-nil}
use mathlib.Core.Path.{subst}
use pfe_development_of_a_mon.Stats.Types.{Report}
use pfe_development_of_a_mon.Proto.External.{External}
use pfe_development_of_a_mon.Database.Tables.{Node, StatRow, Database, max_by}
use pfe_development_of_a_mon.Database.Reports.{
  clashes, stats_after, store_stats_with_id, get_last_stats_timestamp,
}
use pfe_development_of_a_mon.Client.Sync.{Stat, handle_stats}
use pfe_development_of_a_mon.Client.Start.{last_timestamp}
use pfe_development_of_a_mon.Serve.Reports.{Feed, read_row, send_stats}
use pfe_development_of_a_mon.Serve.Delivery.{joined_stats, stat_of, send_stats-DeliversAll}
use pfe_development_of_a_mon.Invariant.Distinct.{Distinct, retain-Distinct}
use pfe_development_of_a_mon.Invariant.Keys.{same_stat, Refers, IsConsistent}
use pfe_development_of_a_mon.Replication.Maximum.{AtMost, InRange, max_by-none, max_by-as_i64}

-- The id of the node that a report is filed under.
abbrev owner : Option ℕ → ℕ
owner none = 0
owner (some n) = n

abbrev stat : StatRow → Stat
stat r = record { id = owner r.node; contents = r.contents; sig = r.sig }

abbrev timed : StatRow → Stat × ℕ
timed r = (stat r, as_u64 r.timestamp)

-- A report of a node, under the time that it bears.
pub record IsFiled (x : External) (r : StatRow) : Type 0 where
  pub node : ℕ
  pub under : r.node ≡ some node
  pub report : Report
  pub read : x.report.from_slice r.contents ≡ ok report
  pub time : as_i64 report.timestamp ≡ r.timestamp

All-retain :
    {A : Type 0} (P : A → Type 0) (q : A → Bool) (rows : List A)
    → All P rows
    → All P (retain q rows)
All-retain P q [] h = tt
All-retain P q (a ∷ rows) h = elim (Bool-cases (q a)) [
  | inl e ↦ rw e (h.0, All-retain P q rows h.1)
  | inr e ↦ rw e (All-retain P q rows h.1)
]

readable :
    (x : External) (null_u32 : Fallible ℕ) (rows : List StatRow)
    → All (IsFiled x) rows
    → map (read_row null_u32) rows ≡ map (λ r. ok r) (map timed rows)
readable x null_u32 [] h = refl
readable x null_u32 (r ∷ rows) h =
    let now : read_row null_u32 r ≡ ok (timed r) = rw h.0.under refl in
    rw now (ap (λ t. ok (timed r) ∷ t) (readable x null_u32 rows h.1))

-- No row of the table has the key of the row.
abbrev IsNew : List StatRow → StatRow → Type 0
IsNew rows r = any (λ s. same_stat s r) rows ≡ false

free_stat :
    (t : ℤ) (n : ℕ) (r : StatRow) (rows : List StatRow)
    → r.timestamp ≡ t
    → r.node ≡ some n
    → IsNew rows r
    → any (clashes t n) rows ≡ false
free_stat t n r [] a b h = refl
free_stat t n r (s ∷ rows) a b h = ground (arith, free_stat t n r rows a b)

later-IsNew :
    (t : ℤ) (r : StatRow) (rows : List StatRow)
    → ltb_ℤ t r.timestamp ≡ true
    → AtMost (λ s. s.timestamp) t rows
    → IsNew rows r
later-IsNew t r [] lt h = refl
later-IsNew t r (s ∷ rows) lt h = ground (arith, h.0, later-IsNew t r rows lt h.1)

later_rows :
    (t : ℤ) (old rows : List StatRow)
    → AtMost (λ s. s.timestamp) t old
    → All (IsNew old) (retain (λ r. ltb_ℤ t r.timestamp) rows)
later_rows t old [] h = tt
later_rows t old (r ∷ rows) h = elim (Bool-cases (ltb_ℤ t r.timestamp)) [
  | inl e ↦ rw e (later-IsNew t r old e h, later_rows t old rows h)
  | inr e ↦ rw e (later_rows t old rows h)
]

-- The rows behind a new one are new behind it, too.
still-IsNew :
    (r : StatRow) (old rows : List StatRow)
    → any (same_stat r) rows ≡ false
    → All (IsNew old) rows
    → All (IsNew (old ++ r ∷ [])) rows
still-IsNew r old [] other h = tt
still-IsNew r old (s ∷ rows) other h = (
  any-append (λ (q : StatRow). same_stat q s) old (r ∷ []) ∙ ground (arith, h.0, other),
  still-IsNew r old rows (ground (arith, other)) h.1,
)

module _ (x : External) (nodes : List Node) where
  store_filed :
      (db : Database) (r : StatRow) (f : IsFiled x r)
      → db.nodes ≡ nodes
      → IsNew db.stats r
      → (x.foreign_keys ≡ true → Refers nodes r.node)
      → store_stats_with_id x db (owner r.node) r.contents r.sig f.report.timestamp
        ≡ ok (record db { stats = db.stats ++ r ∷ [] })
  unfolding store_stats_with_id
  store_filed db r f same new refers =
      let own : r.node ≡ some (owner r.node) = f.under ∙ ap some (sym (ap owner f.under)) in
      let free =
        free_stat (as_i64 f.report.timestamp) (owner r.node) r db.stats (sym f.time) own new in
      let there : (x.foreign_keys && not (any (λ (n : Node). n.id == owner r.node) db.nodes))
          ≡ false =
        elim (Bool-cases x.foreign_keys) [
          | inr off ↦ ground arith
          | inl on ↦
              let known : any (λ (n : Node). n.id == owner r.node) nodes ≡ true =
                subst (Refers nodes) own (refers on) in
              rw same (ground arith)
        ] in
      let row : StatRow = record {
        timestamp = as_i64 f.report.timestamp;
        node = some (owner r.node);
        contents = r.contents;
        sig = r.sig;
      } in
      let is : row ≡ r = λ i. record {
        timestamp = f.time i;
        node = sym own i;
        contents = r.contents;
        sig = r.sig;
      } in
      rw (store_stats_with_id, free, there)
        (ap (λ t. ok (record db { stats = db.stats ++ t ∷ [] })) is)

  handle_stats-filed :
      (rows : List StatRow) (db : Database)
      → All (IsFiled x) rows
      → db.nodes ≡ nodes
      → Distinct same_stat rows
      → All (IsNew db.stats) rows
      → (x.foreign_keys ≡ true → All (λ r. Refers nodes r.node) rows)
      → handle_stats x db (map stat rows) ≡ record db { stats = db.stats ++ rows }
  unfolding handle_stats
  handle_stats-filed [] db filed same apart new refers =
      ap (λ t. record db { stats = t }) (sym (append-nil db.stats))
  handle_stats-filed (r ∷ rows) db (f, filed) same (other, apart) (now, new) refers =
      let after : Database = record db { stats = db.stats ++ r ∷ [] } in
      let rest =
        handle_stats-filed rows after filed same apart (still-IsNew r db.stats rows other new)
          (λ on. (refers on).1) in
      rw (handle_stats, f.read, store_filed db r f same now (λ on. (refers on).0))
        (rest ∙ ap (λ t. record db { stats = t }) (append_assoc db.stats (r ∷ []) rows))

abbrev pub time_of : StatRow → ℤ
time_of r = r.timestamp

-- Nothing in the table is later than the time that a client names when it connects.
last_timestamp-AtMost :
    (x : External) (db : Database) (t : ℕ)
    → InRange time_of db.stats
    → last_timestamp x db ≡ ok t
    → AtMost time_of (as_i64 t) db.stats
unfolding last_timestamp get_last_stats_timestamp
last_timestamp-AtMost x db t fits e = elim (Option-cases (max_by time_of db.stats)) [
  | inl n ↦ rw (max_by-none time_of db.stats n) tt
  | inr (i, s) ↦
      let named : last_timestamp x db ≡ ok (as_u64 i) = rw (last_timestamp, s) refl in
      let is : as_u64 i ≡ t = cc in
      subst (λ (k : ℕ). AtMost time_of (as_i64 k) db.stats) is
        (max_by-as_i64 time_of db.stats i s fits)
]

All-from :
    (nodes : List Node) (t : ℕ) (rows : List StatRow)
    → All (λ r. Refers nodes r.node) rows
    → All (λ r. Refers nodes r.node) (retain (λ r. ltb_ℤ (as_i64 t) r.timestamp) rows)
All-from nodes t rows h = All-retain (λ (r : StatRow). Refers nodes r.node) _ rows h

stats_timed : (rows : List StatRow) → map stat_of (map timed rows) ≡ map stat rows
stats_timed [] = refl
stats_timed (r ∷ rows) = ap (λ t. stat r ∷ t) (stats_timed rows)

-- The messages hold the later reports.
sent-All :
    (x : External) (ser : List Stat → Fallible Bytes) (null_u32 : Fallible ℕ)
    → ((m : List Stat) → is_ok (ser m) ≡ true)
    → (d : Database) (t : ℕ) → All (IsFiled x) d.stats
    → joined_stats (send_stats ser null_u32 d (record { last_timestamp = t; sent = [] })).sent
      ≡ map stat (stats_after d t)
unfolding stats_after
sent-All x ser null_u32 total d t filed =
    let later : StatRow → Bool = λ r. ltb_ℤ (as_i64 t) r.timestamp in
    let rows : List StatRow = retain later d.stats in
    let start : Feed = record { last_timestamp = t; sent = [] } in
    elim (send_stats-DeliversAll ser total null_u32 d start (map timed rows)
      (readable x null_u32 rows (All-retain (IsFiled x) later d.stats filed))) [
        | inl (nothing_new, e) ↦ rw e (sym (ap (map stat_of) nothing_new) ∙ stats_timed rows)
        | inr all ↦ ap joined_stats all.sent ∙ all.whole ∙ stats_timed rows
      ]

-- If messages can be serialised, each report of the master node is one of a node and lies under the time
-- that it bears, and no two rows of the master node's tables have the same key and all their nodes are
-- there: a client that knows the master node's nodes and names the time of its last report is sent the
-- reports that are later, and once it has handled the messages it has them all, in their order behind
-- those that it had.
pub send_stats-handle_stats :
    (x : External) (ser : List Stat → Fallible Bytes) (null_u32 : Fallible ℕ)
    → ((m : List Stat) → is_ok (ser m) ≡ true)
    → (d db : Database) (t : ℕ) → IsConsistent x d
    → All (IsFiled x) d.stats
    → db.nodes ≡ d.nodes
    → InRange time_of db.stats
    → last_timestamp x db ≡ ok t
    → let messages = (send_stats ser null_u32 d (record { last_timestamp = t; sent = [] })).sent in
      handle_stats x db (joined_stats messages) ≡ record db { stats = db.stats ++ stats_after d t }
unfolding stats_after
send_stats-handle_stats x ser null_u32 total d db t good filed same fits named =
    let later : StatRow → Bool = λ r. ltb_ℤ (as_i64 t) r.timestamp in
    let rows : List StatRow = retain later d.stats in
    let start : Feed = record { last_timestamp = t; sent = [] } in
    let got : handle_stats x db (map stat rows) ≡ record db { stats = db.stats ++ rows } =
      handle_stats-filed x d.nodes rows db (All-retain (IsFiled x) later d.stats filed) same
        (retain-Distinct same_stat later d.stats good.stats)
        (later_rows (as_i64 t) db.stats d.stats (last_timestamp-AtMost x db t fits named))
        (λ on. All-from d.nodes t d.stats (good.stats_refer on)) in
    ap (handle_stats x db) (sent-All x ser null_u32 total d t filed) ∙ got
