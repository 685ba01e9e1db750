-- ===== src/Stats/Oids.antt =====
-- The enumerations of the object identifiers, `interpret_oid` of each class, and the constructors of
-- `DbStruct` (nyumt-proto/src/stats).
use pfe_development_of_a_mon.Prelude.{
  ◌≡◌, refl, Bool, true, false, Option, none, some, List, [], ◌∷◌,
}
use pfe_development_of_a_mon.Stats.Types.{CpuOid, MemoryOid, NetOid, StorageOid, Oid, DbStruct}

-- `into_enum_iter` of each class: the variants in the order of their declaration.
abbrev pub cpu_oids : List CpuOid
cpu_oids = CpuOid.total ∷ CpuOid.user ∷ CpuOid.nice ∷ CpuOid.system ∷ CpuOid.int ∷ CpuOid.idle ∷ []

abbrev pub memory_oids : List MemoryOid
memory_oids = MemoryOid.total ∷ MemoryOid.used ∷ []

abbrev pub net_oids : List NetOid
net_oids =
    NetOid.name ∷ NetOid.mac ∷ NetOid.ip_address ∷ NetOid.status ∷ NetOid.rx_packets
    ∷ NetOid.tx_packets ∷ NetOid.rx_bytes ∷ NetOid.tx_bytes ∷ NetOid.rx_errors ∷ NetOid.tx_errors
    ∷ []

abbrev pub storage_oids : List StorageOid
storage_oids =
    StorageOid.name ∷ StorageOid.filesystem_type ∷ StorageOid.free ∷ StorageOid.total
    ∷ StorageOid.total_nodes ∷ StorageOid.free_nodes ∷ []

unfoldable pub cpu_interpret_oid : Option CpuOid → List CpuOid
cpu_interpret_oid (some v) = v ∷ []
cpu_interpret_oid none = cpu_oids

unfoldable pub memory_interpret_oid : Option MemoryOid → List MemoryOid
memory_interpret_oid (some v) = v ∷ []
memory_interpret_oid none = memory_oids

unfoldable pub net_interpret_oid : Option NetOid → List NetOid
net_interpret_oid (some v) = v ∷ []
net_interpret_oid none = net_oids

unfoldable pub storage_interpret_oid : Option StorageOid → List StorageOid
storage_interpret_oid (some v) = v ∷ []
storage_interpret_oid none = storage_oids

-- `DbStruct::new`.
abbrev pub new : DbStruct
new = record { cpu = []; memory = []; network = []; storage = [] }

-- `DbStruct::generate`.
unfoldable pub generate : DbStruct
generate = record {
  cpu = cpu_oids;
  memory = memory_oids;
  network = net_oids;
  storage = storage_oids;
}

-- `DbStruct::from_oid`.
unfoldable pub from_oid : Oid → DbStruct
unfolding cpu_interpret_oid memory_interpret_oid net_interpret_oid storage_interpret_oid
from_oid (Oid.cpu v) = record new { cpu = cpu_interpret_oid v }
from_oid (Oid.memory v) = record new { memory = memory_interpret_oid v }
from_oid (Oid.network v) = record new { network = net_interpret_oid v }
from_oid (Oid.storage v) = record new { storage = storage_interpret_oid v }
from_oid Oid.everything = record {
  cpu = cpu_interpret_oid none;
  memory = memory_interpret_oid none;
  network = net_interpret_oid none;
  storage = storage_interpret_oid none;
}

-- `derive(PartialEq)` of the classes, by the discriminant.
abbrev pub cpu_eq : CpuOid → CpuOid → Bool
cpu_eq CpuOid.total CpuOid.total = true
cpu_eq CpuOid.user CpuOid.user = true
cpu_eq CpuOid.nice CpuOid.nice = true
cpu_eq CpuOid.system CpuOid.system = true
cpu_eq CpuOid.int CpuOid.int = true
cpu_eq CpuOid.idle CpuOid.idle = true
cpu_eq _ _ = false

abbrev pub memory_eq : MemoryOid → MemoryOid → Bool
memory_eq MemoryOid.total MemoryOid.total = true
memory_eq MemoryOid.used MemoryOid.used = true
memory_eq _ _ = false

abbrev pub net_eq : NetOid → NetOid → Bool
net_eq NetOid.name NetOid.name = true
net_eq NetOid.mac NetOid.mac = true
net_eq NetOid.ip_address NetOid.ip_address = true
net_eq NetOid.status NetOid.status = true
net_eq NetOid.rx_packets NetOid.rx_packets = true
net_eq NetOid.tx_packets NetOid.tx_packets = true
net_eq NetOid.rx_bytes NetOid.rx_bytes = true
net_eq NetOid.tx_bytes NetOid.tx_bytes = true
net_eq NetOid.rx_errors NetOid.rx_errors = true
net_eq NetOid.tx_errors NetOid.tx_errors = true
net_eq _ _ = false

abbrev pub storage_eq : StorageOid → StorageOid → Bool
storage_eq StorageOid.name StorageOid.name = true
storage_eq StorageOid.filesystem_type StorageOid.filesystem_type = true
storage_eq StorageOid.free StorageOid.free = true
storage_eq StorageOid.total StorageOid.total = true
storage_eq StorageOid.total_nodes StorageOid.total_nodes = true
storage_eq StorageOid.free_nodes StorageOid.free_nodes = true
storage_eq _ _ = false

-- Asking for everything is asking for every object of every class.
pub from_oid-everything : from_oid Oid.everything ≡ generate
unfolding from_oid generate
from_oid-everything = refl
