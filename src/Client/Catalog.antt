-- ===== src/Client/Catalog.antt =====
-- The table of the objects that the client prints (`DB_STRUCT` of nyumt-client-core/src/stats.rs), and
-- the types of values of nyumt-proto/src/stats/mod.rs.
use pfe_development_of_a_mon.Prelude.{
  ◌≡◌, refl, Option, none, some, List, [], ◌∷◌, Text, text, find, same,
}
use pfe_development_of_a_mon.Stats.Types.{CpuOid, MemoryOid, NetOid, StorageOid, VarValue}
use pfe_development_of_a_mon.Stats.Usage.{
  Floats, CpuLoad, Memory, Interface, NetworkStats, Filesystem, cpu_entry, memory_entry, net_entry,
  storage_entry,
}
use pfe_development_of_a_mon.Client.Oids.{cpu_text, memory_text, net_text, storage_text}

pub data VarType : Type 0 where
  mandatory volatile stable : VarType

pub data VarValueType : Type 0 where
  str int number real_number bool vec_str : VarValueType

abbrev pub Field : Type 0
Field = Text × VarType × VarValueType

abbrev pub db_struct : List (Text × List Field)
db_struct =
    (
      text "CPU",
      (text "TOTAL", VarType.volatile, VarValueType.number)
          ∷ (text "USER", VarType.volatile, VarValueType.number)
          ∷ (text "NICE", VarType.volatile, VarValueType.number)
          ∷ (text "SYSTEM", VarType.volatile, VarValueType.number)
          ∷ (text "INT", VarType.volatile, VarValueType.number)
          ∷ (text "IDLE", VarType.volatile, VarValueType.number)
          ∷ [],
    )
    ∷ (
      text "MEMORY",
      (text "USED", VarType.volatile, VarValueType.number)
          ∷ (text "TOTAL", VarType.volatile, VarValueType.number)
          ∷ [],
    )
    ∷ (
      text "STORAGE",
      (text "NAME", VarType.mandatory, VarValueType.str)
          ∷ (text "FILESYSTEM_TYPE", VarType.stable, VarValueType.str)
          ∷ (text "FREE", VarType.volatile, VarValueType.number)
          ∷ (text "TOTAL", VarType.volatile, VarValueType.number)
          ∷ (text "TOTAL_NODES", VarType.volatile, VarValueType.number)
          ∷ (text "FREE_NODES", VarType.volatile, VarValueType.number)
          ∷ [],
    )
    ∷ (
      text "NETWORK",
      (text "NAME", VarType.mandatory, VarValueType.str)
          ∷ (text "MAC", VarType.stable, VarValueType.str)
          ∷ (text "IP_ADDRESS", VarType.stable, VarValueType.str)
          ∷ (text "STATUS", VarType.stable, VarValueType.vec_str)
          ∷ (text "RX_PACKETS", VarType.volatile, VarValueType.number)
          ∷ (text "TX_PACKETS", VarType.volatile, VarValueType.number)
          ∷ (text "RX_BYTES", VarType.volatile, VarValueType.number)
          ∷ (text "TX_BYTES", VarType.volatile, VarValueType.number)
          ∷ (text "RX_ERRORS", VarType.volatile, VarValueType.number)
          ∷ (text "TX_ERRORS", VarType.volatile, VarValueType.number)
          ∷ [],
    )
    ∷ []

abbrev type_of : Option Field → Option VarValueType
type_of none = none
type_of (some (name, var, value)) = some value

abbrev fields_of : Option (Text × List Field) → List Field
fields_of none = []
fields_of (some (class, fields)) = fields

-- The type that the table gives an object.
unfoldable pub listed : Text → Text → Option VarValueType
listed class object =
    type_of (find (λ f. same f.0 object) (fields_of (find (λ c. same c.0 class) db_struct)))

-- The type of a value that was measured.
abbrev pub value_type : VarValue → VarValueType
value_type (VarValue.str v) = VarValueType.str
value_type (VarValue.int v) = VarValueType.int
value_type (VarValue.number v) = VarValueType.number
value_type (VarValue.real_number v) = VarValueType.real_number
value_type (VarValue.bool v) = VarValueType.bool
value_type (VarValue.vec_str v) = VarValueType.vec_str

module _ (f : Floats) (c : CpuLoad) (m : Memory) (name : Text) (i : Interface) (v : NetworkStats)
    (s : Filesystem) where
  -- What the table says of the value that is measured for an object of the network: two are wrong.
  abbrev pub NetListed : NetOid → Type 0
  NetListed NetOid.ip_address =
      (listed (text "NETWORK") (net_text NetOid.ip_address) ≡ some VarValueType.str)
      × (value_type (net_entry name i v NetOid.ip_address).1 ≡ VarValueType.vec_str)
  NetListed NetOid.status =
      (listed (text "NETWORK") (net_text NetOid.status) ≡ some VarValueType.vec_str)
      × (value_type (net_entry name i v NetOid.status).1 ≡ VarValueType.bool)
  NetListed o = listed (text "NETWORK") (net_text o) ≡ some (value_type (net_entry name i v o).1)

  cpu_listed :
      (o : CpuOid)
      → (listed (text "CPU") (cpu_text o) ≡ some VarValueType.number)
        × (value_type (cpu_entry f c o).1 ≡ VarValueType.real_number)
  unfolding listed same
  cpu_listed CpuOid.total = (refl, refl)
  cpu_listed _ = (refl, refl)

  memory_listed :
      (o : MemoryOid)
      → listed (text "MEMORY") (memory_text o) ≡ some (value_type (memory_entry m o).1)
  unfolding listed same
  memory_listed MemoryOid.total = refl
  memory_listed MemoryOid.used = refl

  storage_listed :
      (o : StorageOid)
      → listed (text "STORAGE") (storage_text o) ≡ some (value_type (storage_entry s o).1)
  unfolding listed same
  storage_listed StorageOid.name = refl
  storage_listed _ = refl

  net_listed : (o : NetOid) → NetListed o
  unfolding listed same
  net_listed NetOid.ip_address = (refl, refl)
  net_listed NetOid.status = (refl, refl)
  net_listed _ = refl

  -- The table gives each object of the memory and the storage the type of the value that is measured,
  -- and each of the network but two: an address is listed as a text and is a list, the status is
  -- listed as a list and is a truth value. The values of the processor are listed as whole numbers and
  -- are floating-point numbers.
  listed-value_type :
      (p : CpuOid) (q : MemoryOid) (r : StorageOid) (o : NetOid)
      → (listed (text "CPU") (cpu_text p) ≡ some VarValueType.number)
        × (value_type (cpu_entry f c p).1 ≡ VarValueType.real_number)
        × (listed (text "MEMORY") (memory_text q) ≡ some (value_type (memory_entry m q).1))
        × (listed (text "STORAGE") (storage_text r) ≡ some (value_type (storage_entry s r).1))
        × NetListed o
  listed-value_type p q r o =
      let (a, b) = cpu_listed p in (a, b, memory_listed q, storage_listed r, net_listed o)
