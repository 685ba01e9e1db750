-- ===== src/Client/Plot.antt =====
-- `interpret_stats` and `plot_data` (nyumt-client-core/src/stats.rs), with the statements of
-- nyumt-proto/src/database/node.rs that the latter reads.
use pfe_development_of_a_mon.Prelude.{
  ℕ, zero, suc, ◌+◌, Bool, true, false, Option, none, some, List, [], ◌∷◌, ◌++◌, ◌&&◌, ◌==◌,
  if◌then◌else◌, map, retain, Bytes, Text, text, ℤ, ltb_ℤ, as_i64, as_u64, Fallible, ok, err, ◌>>=◌,
  refused, panicked,
}
use pfe_development_of_a_mon.Stats.Types.{NetOid, StorageOid, Oid, VarValue, DataType, Report}
use pfe_development_of_a_mon.Stats.Oids.{cpu_eq, memory_eq, net_eq, storage_eq}
use pfe_development_of_a_mon.Proto.Types.{PublicKey}
use pfe_development_of_a_mon.Proto.External.{External}
use pfe_development_of_a_mon.Database.Tables.{StatRow, Database}
use pfe_development_of_a_mon.Database.Users.{read_i64}
use pfe_development_of_a_mon.Database.Nodes.{node_id}
use pfe_development_of_a_mon.Client.Oids.{cpu_text, memory_text, net_text, storage_text}

-- The text of a value, and the name of an interface or a volume where there is one.
abbrev pub Point : Type 0
Point = Text × Option Text

abbrev pub flat {ℓ κ} : {A : Type ℓ} {B : Type κ} → (A → List B) → List A → List B
flat f [] = []
flat f (x ∷ xs) = f x ++ flat f xs

-- `format!("0.CLASS.{}[{}]", val, count)` and `format_oid_value`. `decimal` writes a number.
module _ (decimal : ℕ → Text) where
  abbrev pub numbered_row :
      {A : Type 0} → Text → (A → Text) → ℕ → List (A × VarValue) → List (Text × VarValue)
  numbered_row start name count [] = []
  numbered_row start name count ((oid, v) ∷ row) =
      (start ++ (name oid ++ (b'[' ∷ (decimal count ++ b']' ∷ []))), v)
      ∷ numbered_row start name count row

  abbrev pub numbered :
      {A : Type 0} → Text → (A → Text) → ℕ → List (List (A × VarValue)) → List (Text × VarValue)
  numbered start name count [] = []
  numbered start name count (row ∷ rows) =
      numbered_row start name count row ++ numbered start name (count + 1) rows

  unfoldable pub format_oid_value :
      {A : Type 0} → Text → (A → Text) → List (A × VarValue) → List (Text × VarValue)
  format_oid_value start name [] = []
  format_oid_value start name ((oid, v) ∷ values) =
      (start ++ name oid, v) ∷ format_oid_value start name values

  abbrev pub interpret_part : DataType → List (Text × VarValue)
  interpret_part (DataType.cpu v) = format_oid_value (text "0.CPU.") cpu_text v
  interpret_part (DataType.memory v) = format_oid_value (text "0.MEMORY.") memory_text v
  interpret_part (DataType.network v) = numbered (text "0.NETWORK.") net_text 0 v
  interpret_part (DataType.storage v) = numbered (text "0.STORAGE.") storage_text 0 v

  unfoldable pub interpret_stats : Report → List (Text × VarValue)
  unfolding format_oid_value
  interpret_stats report = flat interpret_part report.contents

-- `show` is `VarValue::to_string`.
module _ (show : VarValue → Text) where
  -- The loop over the values of the processor or of the memory, which ends at the first match.
  unfoldable pub first_value : {A : Type 0} → (A → A → Bool) → A → List (A × VarValue) → List Point
  first_value same_oid obj [] = []
  first_value same_oid obj ((oid, v) ∷ values) = elim (same_oid oid obj) [
    | true ↦ (show v, none) ∷ []
    | false ↦ first_value same_oid obj values
  ]

  -- The loop over the values of one interface or volume. The point is yielded at the value after the
  -- object's, unless that is a name.
  unfoldable pub row_point :
      {A : Type 0}
      → (A → A → Bool)
      → A
      → A
      → List (A × VarValue)
      → Option Text
      → Option Text
      → List Point
  row_point same_oid obj name_oid [] var name = []
  row_point same_oid obj name_oid ((oid, v) ∷ row) var name = elim (same_oid oid obj) [
    | true ↦ row_point same_oid obj name_oid row (some (show v)) name
    | false ↦ elim (same_oid oid name_oid) [
      | true ↦ row_point same_oid obj name_oid row var (some (show v))
      | false ↦ elim var [
        | some t ↦ (t, name) ∷ []
        | none ↦ row_point same_oid obj name_oid row none name
      ]
    ]
  ]

  unfoldable pub part_points : Oid → DataType → List Point
  unfolding first_value row_point
  part_points (Oid.cpu (some obj)) (DataType.cpu v) = first_value cpu_eq obj v
  part_points (Oid.memory (some obj)) (DataType.memory v) = first_value memory_eq obj v
  part_points (Oid.network (some obj)) (DataType.network v) =
      flat (λ row. row_point net_eq obj NetOid.name row none none) v
  part_points (Oid.storage (some obj)) (DataType.storage v) =
      flat (λ row. row_point storage_eq obj StorageOid.name row none none) v
  part_points _ _ = []

  unfoldable pub report_points : Oid → Report → List Point
  unfolding part_points
  report_points oid r = flat (part_points oid) r.contents

-- The guard: one object of a class.
abbrev pub is_object : Oid → Bool
is_object (Oid.cpu (some o)) = true
is_object (Oid.memory (some o)) = true
is_object (Oid.network (some o)) = true
is_object (Oid.storage (some o)) = true
is_object _ = false

abbrev pub of_node : Option ℕ → StatRow → Bool
of_node none r = false
of_node (some id) r = elim r.node [ none ↦ false | some n ↦ n == id ]

-- `get_node_stats_from`.
unfoldable pub node_stats_after : Database → Bytes → ℕ → List StatRow
unfolding node_id
node_stats_after db pk timestamp =
    retain (λ r. of_node (node_id db pk) r && ltb_ℤ (as_i64 timestamp) r.timestamp) db.stats

-- `order by timestamp desc limit …`, and `min`, which is NULL where there is no row.
abbrev pub insert_later : ℤ → List ℤ → List ℤ
insert_later t [] = t ∷ []
insert_later t (u ∷ us) = if ltb_ℤ t u then u ∷ insert_later t us else t ∷ u ∷ us

abbrev pub sort_later : List ℤ → List ℤ
sort_later [] = []
sort_later (t ∷ ts) = insert_later t (sort_later ts)

abbrev pub take {ℓ} : {A : Type ℓ} → ℕ → List A → List A
take zero xs = []
take (suc n) [] = []
take (suc n) (x ∷ xs) = x ∷ take n xs

abbrev pub min_of : List ℤ → Option ℤ
min_of [] = none
min_of (t ∷ ts) = elim (min_of ts) [ none ↦ some t | some m ↦ some (if ltb_ℤ m t then m else t) ]

-- `get_min_stats_timestamp_in_limit`.
unfoldable pub min_timestamp_in_limit : External → Database → Bytes → ℕ → Fallible (Option ℕ)
unfolding node_id
min_timestamp_in_limit x db pk limit = do
  let own = retain (of_node (node_id db pk)) db.stats
  t ← read_i64 x (min_of (take limit (sort_later (map (λ (r : StatRow). r.timestamp) own))))
  ok (some (as_u64 t))

abbrev pub or_zero : Option ℕ → ℕ
or_zero none = 0
or_zero (some n) = n

-- `unwrap` of a result.
abbrev pub unwrap {ℓ} : {A : Type ℓ} → Fallible A → Fallible A
unwrap (ok a) = ok a
unwrap (err _) = err panicked

module _ (x : External) (show : VarValue → Text) where
  -- A report that cannot be read yields nothing. The time is a number of seconds.
  abbrev pub row_points : Oid → StatRow → List (ℕ × Point)
  row_points oid r = elim (x.report.from_slice r.contents) [
    | ok rep ↦ map (λ p. (as_u64 r.timestamp, p)) (report_points show oid rep)
    | err _ ↦ []
  ]

  unfoldable pub plot_data : Database → PublicKey → Oid → ℕ → Fallible (List (ℕ × Point))
  unfolding min_timestamp_in_limit node_stats_after report_points
  plot_data db pk oid timestamp =
      if is_object oid
      then (do
        pk_buf ← x.public_key.to_vec pk
        from ←
            (if timestamp == 0
              then (do m ← unwrap (min_timestamp_in_limit x db pk_buf 50); ok (or_zero m))
              else ok timestamp)
        ok (flat (row_points oid) (node_stats_after db pk_buf from)))
      else err refused
