-- ===== src/Database/Tables.antt =====
-- The rows of the tables that `Database::create_if_not_exists` makes for a master node
-- (nyumt-proto/src/database/mod.rs). A table is the list of its rows in the order of insertion; a
-- statement fails only where SQLite's documentation says so of its text and of the rows, never by
-- an error of the disk.
use pfe_development_of_a_mon.Prelude.{
  ℕ, ◌+◌, Bool, Option, none, some, List, [], ◌∷◌, Bytes, Text, ℤ, ltb, ltb_ℤ, if◌then◌else◌,
  Fallible, ok, err, row_not_found,
}

pub record User : Type 0 where
  pub id : ℕ
  pub name : Text
  pub public_key : Bytes
  pub permissions : Bytes
  pub active : Bool
  pub last_access : Option ℤ

-- A row of `order`: a block.
pub record ChainRow : Type 0 where
  pub id : ℤ
  pub contents : Bytes
  pub hash : Bytes

pub record Node : Type 0 where
  pub id : ℕ
  pub name : Text
  pub public_key : Bytes
  pub master_node : Bool
  pub conf : Text
  pub vote_weight : Option ℕ

-- A row of `node_peerid`.
pub record NodePeerId : Type 0 where
  pub node : Option ℕ
  pub peerid : Text

-- A row of `stats`.
pub record StatRow : Type 0 where
  pub timestamp : ℤ
  pub node : Option ℕ
  pub contents : Bytes
  pub sig : Bytes

pub record Config : Type 0 where
  pub name : Text
  pub master_conf : Bytes
  pub node_conf : Bytes

pub record Database : Type 0 where
  pub users : List User
  pub chain : List ChainRow
  pub nodes : List Node
  pub peer_ids : List NodePeerId
  pub stats : List StatRow
  pub configs : List Config

-- `fetch_one`: the first row, and a failure where there is none.
abbrev pub fetch_one {ℓ} : {A : Type ℓ} → Option A → Fallible A
fetch_one none = err row_not_found
fetch_one (some a) = ok a

-- The id that SQLite gives to a row which is inserted without one: above the largest in use.
abbrev pub max_of : List ℕ → ℕ
max_of [] = 0
max_of (n ∷ ns) = let m = max_of ns in if ltb m n then n else m

abbrev pub next_id : List ℕ → ℕ
next_id ids = max_of ids + 1

-- `max(…)` of a column, which is NULL where there is no row.
abbrev pub max_by {ℓ} : {A : Type ℓ} → (A → ℤ) → List A → Option ℤ
max_by key [] = none
max_by key (r ∷ rs) = elim (max_by key rs) [
  | none ↦ some (key r)
  | some m ↦ some (if ltb_ℤ m (key r) then key r else m)
]
