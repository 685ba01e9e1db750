-- ===== src/Stats/Usage.antt =====
-- `usage` of each class (nyumt-proto/src/stats/{cpu,memory,network,storage}.rs): the measurements of
-- the system, taken by the monitoring library, turned into the values that `DbStruct` asks for.
use pfe_development_of_a_mon.Prelude.{
  ℕ, ◌-◌, Bool, true, false, Option, none, some, List, [], ◌∷◌, ◌++◌, ◌&&◌, map, Text, text, same,
  if◌then◌else◌, any, find, is_empty, Fallible, ok, err, ◌>>=◌,
}
use pfe_development_of_a_mon.Stats.Types.{
  CpuOid, MemoryOid, NetOid, StorageOid, VarValue, DataType, Storage, str, number, real_number,
  bool, vec_str,
}
use pfe_development_of_a_mon.Stats.Oids.{storage_eq}

-- The `f32` arithmetic of the processor, on bit patterns.
pub record Floats : Type 0 where
  pub sub : ℕ → ℕ → ℕ
  pub mul : ℕ → ℕ → ℕ

-- `systemstat::CPULoad`.
pub record CpuLoad : Type 0 where
  pub user : ℕ
  pub nice : ℕ
  pub system : ℕ
  pub interrupt : ℕ
  pub idle : ℕ

-- `systemstat::Memory`, in bytes.
pub record Memory : Type 0 where
  pub total : ℕ
  pub free : ℕ

-- `systemstat::NetworkStats`.
pub record NetworkStats : Type 0 where
  pub rx_packets : ℕ
  pub tx_packets : ℕ
  pub rx_bytes : ℕ
  pub tx_bytes : ℕ
  pub rx_errors : ℕ
  pub tx_errors : ℕ

-- `pnet::datalink::NetworkInterface`, with its addresses printed.
pub record Interface : Type 0 where
  pub name : Text
  pub mac : Option Text
  pub is_up : Bool
  pub ips : List Text

-- `systemstat::Filesystem`.
pub record Filesystem : Type 0 where
  pub fs_mounted_from : Text
  pub fs_type : Text
  pub avail : ℕ
  pub total : ℕ
  pub files_total : ℕ
  pub files_avail : ℕ

-- What the monitoring library and the network library answer: `cpu_load_aggregate` and then `done`,
-- `memory`, `networks` (the names, in order), `network_stats`, `interfaces`, `mounts`.
pub record System : Type 0 where
  pub cpu_load : Fallible (Fallible CpuLoad)
  pub memory : Fallible Memory
  pub networks : Fallible (List Text)
  pub network_stats : Text → Fallible NetworkStats
  pub interfaces : List Interface
  pub mounts : Fallible (List Filesystem)

-- The bit pattern of 100.0.
abbrev hundred : ℕ
hundred = 0x42C80000

abbrev pub cpu_entry : Floats → CpuLoad → CpuOid → CpuOid × VarValue
cpu_entry f c CpuOid.total = (CpuOid.total, real_number (f.sub hundred (f.mul c.idle hundred)))
cpu_entry f c CpuOid.user = (CpuOid.user, real_number (f.mul c.user hundred))
cpu_entry f c CpuOid.nice = (CpuOid.nice, real_number (f.mul c.nice hundred))
cpu_entry f c CpuOid.system = (CpuOid.system, real_number (f.mul c.system hundred))
cpu_entry f c CpuOid.int = (CpuOid.int, real_number (f.mul c.interrupt hundred))
cpu_entry f c CpuOid.idle = (CpuOid.idle, real_number (f.mul c.idle hundred))

unfoldable pub cpu_usage : Floats → System → List CpuOid → Fallible DataType
cpu_usage f sys db_struct = do
  started ← sys.cpu_load
  load ← started
  ok (DataType.cpu (map (cpu_entry f load) db_struct))

-- `saturating_sub_bytes` is the subtraction that stops at 0.
abbrev pub memory_entry : Memory → MemoryOid → MemoryOid × VarValue
memory_entry m MemoryOid.total = (MemoryOid.total, number m.total)
memory_entry m MemoryOid.used = (MemoryOid.used, number (m.total - m.free))

unfoldable pub memory_usage : System → List MemoryOid → Fallible DataType
memory_usage sys db_struct = do
  mem ← sys.memory
  ok (DataType.memory (map (memory_entry mem) db_struct))

abbrev mac_text : Option Text → Text
mac_text (some v) = v
mac_text none = []

abbrev pub net_entry : Text → Interface → NetworkStats → NetOid → NetOid × VarValue
net_entry n i v NetOid.name = (NetOid.name, str n)
net_entry n i v NetOid.mac = (NetOid.mac, str (mac_text i.mac))
net_entry n i v NetOid.ip_address = (NetOid.ip_address, vec_str i.ips)
net_entry n i v NetOid.status = (NetOid.status, bool i.is_up)
net_entry n i v NetOid.rx_packets = (NetOid.rx_packets, number v.rx_packets)
net_entry n i v NetOid.tx_packets = (NetOid.tx_packets, number v.tx_packets)
net_entry n i v NetOid.rx_bytes = (NetOid.rx_bytes, number v.rx_bytes)
net_entry n i v NetOid.tx_bytes = (NetOid.tx_bytes, number v.tx_bytes)
net_entry n i v NetOid.rx_errors = (NetOid.rx_errors, number v.rx_errors)
net_entry n i v NetOid.tx_errors = (NetOid.tx_errors, number v.tx_errors)

-- What the loop pushes for one name of `networks`: nothing if the counters cannot be read or no
-- interface has the name, and nothing if no object is asked for.
abbrev pub net_row : System → List NetOid → Text → List (List (NetOid × VarValue))
net_row sys db_struct n = elim (sys.network_stats n) [
  | err _ ↦ []
  | ok v ↦ elim (find (λ i. same i.name n) sys.interfaces) [
    | none ↦ []
    | some i ↦ let net = map (net_entry n i v) db_struct in if is_empty net then [] else net ∷ []
  ]
]

unfoldable pub net_rows : System → List NetOid → List Text → List (List (NetOid × VarValue))
net_rows sys db_struct [] = []
net_rows sys db_struct (n ∷ names) = net_row sys db_struct n ++ net_rows sys db_struct names

unfoldable pub network_usage : System → List NetOid → Fallible DataType
unfolding net_rows
network_usage sys db_struct = do
  names ← sys.networks
  ok (DataType.network (net_rows sys db_struct names))

-- `==` of two values, one of which is a text.
abbrev pub is_str : Text → VarValue → Bool
is_str n (str v) = same n v
is_str n _ = false

abbrev is_name : Text → StorageOid × VarValue → Bool
is_name n (oid, v) = storage_eq oid StorageOid.name && is_str n v

unfoldable pub device_exists : Storage → Text → Bool
device_exists list n = any (any (is_name n)) list

abbrev pub storage_entry : Filesystem → StorageOid → StorageOid × VarValue
storage_entry m StorageOid.name = (StorageOid.name, str m.fs_mounted_from)
storage_entry m StorageOid.filesystem_type = (StorageOid.filesystem_type, str m.fs_type)
storage_entry m StorageOid.free = (StorageOid.free, number m.avail)
storage_entry m StorageOid.total = (StorageOid.total, number m.total)
storage_entry m StorageOid.total_nodes = (StorageOid.total_nodes, number m.files_total)
storage_entry m StorageOid.free_nodes = (StorageOid.free_nodes, number m.files_avail)

-- `starts_with`.
abbrev pub starts_with : Text → Text → Bool
starts_with [] s = true
starts_with (c ∷ cs) [] = false
starts_with (c ∷ cs) (d ∷ s) = same (c ∷ []) (d ∷ []) && starts_with cs s

-- The body of the loop over the mounts.
unfoldable pub add_mount : List StorageOid → Storage → Filesystem → Storage
unfolding device_exists
add_mount db_struct list m =
    if starts_with (text "/dev") m.fs_mounted_from
    then (if device_exists list m.fs_mounted_from
        then list
        else list ++ map (storage_entry m) db_struct ∷ [])
    else list

unfoldable pub add_mounts : List StorageOid → Storage → List Filesystem → Storage
add_mounts db_struct list [] = list
add_mounts db_struct list (m ∷ ms) = add_mounts db_struct (add_mount db_struct list m) ms

unfoldable pub storage_usage : System → List StorageOid → Fallible DataType
unfolding add_mounts
storage_usage sys db_struct = do
  mounts ← sys.mounts
  ok (DataType.storage (add_mounts db_struct [] mounts))
