-- ===== src/Stats/Types.antt =====
-- nyumt-proto/src/stats/{mod,cpu,memory,network,storage}.rs: the object identifiers, the measured
-- values and the report. An `f32` is its bit pattern.
use pfe_development_of_a_mon.Prelude.{ℕ, Bool, Option, List, Text}

pub data CpuOid : Type 0 where
  total user nice system int idle : CpuOid

pub data MemoryOid : Type 0 where
  total used : MemoryOid

pub data NetOid : Type 0 where
  name mac ip_address status rx_packets tx_packets rx_bytes tx_bytes rx_errors tx_errors : NetOid

pub data StorageOid : Type 0 where
  name filesystem_type free total total_nodes free_nodes : StorageOid

-- `OID`: one object of a class, a whole class, or everything.
pub data Oid : Type 0 where
  cpu : Option CpuOid → Oid
  memory : Option MemoryOid → Oid
  network : Option NetOid → Oid
  storage : Option StorageOid → Oid
  everything : Oid

pub data VarValue : Type 0 where
  str : Text → VarValue
  int : ℕ → VarValue
  number : ℕ → VarValue
  real_number : ℕ → VarValue
  bool : Bool → VarValue
  vec_str : List Text → VarValue

-- `DbStruct`: the objects to collect, by class.
pub record DbStruct : Type 0 where
  pub cpu : List CpuOid
  pub memory : List MemoryOid
  pub network : List NetOid
  pub storage : List StorageOid

abbrev pub CpuUsage : Type 0
CpuUsage = List (CpuOid × VarValue)

abbrev pub MemUsage : Type 0
MemUsage = List (MemoryOid × VarValue)

abbrev pub NetworkUsage : Type 0
NetworkUsage = List (List (NetOid × VarValue))

abbrev pub Storage : Type 0
Storage = List (List (StorageOid × VarValue))

pub data DataType : Type 0 where
  cpu : CpuUsage → DataType
  memory : MemUsage → DataType
  network : NetworkUsage → DataType
  storage : Storage → DataType

pub record Report : Type 0 where
  pub contents : List DataType
  pub timestamp : ℕ
