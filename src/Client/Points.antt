-- ===== src/Client/Points.antt =====
-- What is printed and plotted of a report.
use pfe_development_of_a_mon.Prelude.{
  ℕ, ◌≡◌, ◌≤◌, refl, ◌∙◌, none, some, List, [], ◌∷◌, ◌++◌, map, All, Text, text, same, Fallible, ok,
  arith,
}
use mathlib.Core.List.{map-append, append-nil}
use pfe_development_of_a_mon.Stats.Types.{
  CpuOid, MemoryOid, NetOid, StorageOid, Oid, VarValue, str, DataType, CpuUsage, MemUsage,
}
use pfe_development_of_a_mon.Stats.Oids.{net_oids, storage_oids, net_eq, storage_eq}
use pfe_development_of_a_mon.Stats.Usage.{
  Interface, NetworkStats, Filesystem, net_entry, storage_entry,
}
use pfe_development_of_a_mon.Client.Oids.{cpu_text, memory_text, parse_oid}
use pfe_development_of_a_mon.Client.Names.{IsWord, SpellsOne, key, parse_oid-Spells}
use pfe_development_of_a_mon.Client.Plot.{format_oid_value, interpret_stats, row_point, Point}

-- The ASCII characters from the capital letters to the underscore, among which no letter is small.
abbrev pub IsCapital : ℕ → Type 0
IsCapital c = (b'A' ≤ c) × (c ≤ b'_')

-- Capitals stay as they are.
abbrev pub KeepsCapitals : (Text → Text) → Type 0
KeepsCapitals upper = (t : Text) → All IsCapital t → upper t ≡ t

abbrev IsName : Text → Type 0
IsName t = IsWord t × All IsCapital t

cpu_text-IsName : (o : CpuOid) → IsName (cpu_text o)
unfolding same
cpu_text-IsName CpuOid.total = ((omega arith, refl), omega arith)
cpu_text-IsName _ = ((omega arith, refl), omega arith)

memory_text-IsName : (o : MemoryOid) → IsName (memory_text o)
unfolding same
memory_text-IsName MemoryOid.total = ((omega arith, refl), omega arith)
memory_text-IsName _ = ((omega arith, refl), omega arith)

-- The objects that the names of printed values are read as.
abbrev pub read_back : {A : Type 0} → (A → Oid) → List (A × VarValue) → List (Fallible Oid)
read_back class [] = []
read_back class ((oid, v) ∷ values) = ok (class oid) ∷ read_back class values

abbrev pub name_of : Text × VarValue → Text
name_of (name, v) = name

module _ (upper : Text → Text) (keeps : KeepsCapitals upper) where
  spelt : (t : Text) → IsName t → SpellsOne upper (some t) t
  spelt t (word, caps) = (word, keeps t caps)

  cpu_key : (o : CpuOid) → parse_oid upper (key (text "CPU") (cpu_text o)) ≡ ok (Oid.cpu (some o))
  unfolding same
  cpu_key o = parse_oid-Spells upper (Oid.cpu (some o)) (text "CPU") (cpu_text o) (
      (
        (omega arith, refl),
        keeps (text "CPU") (omega arith),
        spelt (cpu_text o) (cpu_text-IsName o),
      ))

  memory_key :
      (o : MemoryOid)
      → parse_oid upper (key (text "MEMORY") (memory_text o)) ≡ ok (Oid.memory (some o))
  unfolding same
  memory_key o = parse_oid-Spells upper (Oid.memory (some o)) (text "MEMORY") (memory_text o) (
      (
        (omega arith, refl),
        keeps (text "MEMORY") (omega arith),
        spelt (memory_text o) (memory_text-IsName o),
      ))

  module _ (decimal : ℕ → Text) where
    cpu_names :
        (u : CpuUsage)
        → map
            (λ p. parse_oid upper (name_of p))
            (format_oid_value decimal (text "0.CPU.") cpu_text u)
          ≡ read_back (λ o. Oid.cpu (some o)) u
    unfolding format_oid_value
    cpu_names [] = refl
    cpu_names ((o, v) ∷ u) = λ i. cpu_key o i ∷ cpu_names u i

    memory_names :
        (u : MemUsage)
        → map
            (λ p. parse_oid upper (name_of p))
            (format_oid_value decimal (text "0.MEMORY.") memory_text u)
          ≡ read_back (λ o. Oid.memory (some o)) u
    unfolding format_oid_value
    memory_names [] = refl
    memory_names ((o, v) ∷ u) = λ i. memory_key o i ∷ memory_names u i

    -- If capitals stay as they are in capitals, the names that are printed for the values of the
    -- processor and of the memory are read back as the objects of the values, in their order.
    pub interpret_stats-parse_oid :
        (u : CpuUsage) (w : MemUsage) (time : ℕ)
        → map
            (λ p. parse_oid upper (name_of p))
            (interpret_stats decimal
              (record { contents = DataType.cpu u ∷ DataType.memory w ∷ []; timestamp = time }))
          ≡ read_back (λ o. Oid.cpu (some o)) u ++ read_back (λ o. Oid.memory (some o)) w
    unfolding interpret_stats
    interpret_stats-parse_oid u w time =
        map-append read (format_oid_value decimal (text "0.CPU.") cpu_text u) _ ∙ (λ i.
          cpu_names u i
          ++ (map-append read (format_oid_value decimal (text "0.MEMORY.") memory_text w) []
                ∙ append-nil _
                ∙ memory_names w)
              i)
      where
        read : Text × VarValue → Fallible Oid
        read p = parse_oid upper (name_of p)

-- The points that the source means: the value of the object, with the name.
abbrev pub net_point : (VarValue → Text) → Text → Interface → NetworkStats → NetOid → List Point
net_point show n i v NetOid.tx_errors = []
net_point show n i v NetOid.name = (show (str n), none) ∷ []
net_point show n i v o = (show (net_entry n i v o).1, some (show (str n))) ∷ []

abbrev pub storage_point : (VarValue → Text) → Filesystem → StorageOid → List Point
storage_point show m StorageOid.free_nodes = []
storage_point show m StorageOid.name = (show (str m.fs_mounted_from), none) ∷ []
storage_point show m o = (show (storage_entry m o).1, some (show (str m.fs_mounted_from))) ∷ []

row_point-net :
    (show : VarValue → Text) (n : Text) (i : Interface) (v : NetworkStats) (o : NetOid)
    → row_point show net_eq o NetOid.name (map (net_entry n i v) net_oids) none none
      ≡ net_point show n i v o
unfolding row_point
row_point-net show n i v NetOid.name = refl
row_point-net show n i v _ = refl

row_point-storage :
    (show : VarValue → Text) (m : Filesystem) (p : StorageOid)
    → row_point show storage_eq p StorageOid.name (map (storage_entry m) storage_oids) none none
      ≡ storage_point show m p
unfolding row_point
row_point-storage show m StorageOid.name = refl
row_point-storage show m _ = refl

-- Where all objects are collected, an interface and a volume have one point for each object but the
-- last of its class, which has none; the point bears the name, unless it is the name itself.
pub row_point_complete :
    (show : VarValue → Text) (n : Text) (i : Interface) (v : NetworkStats) (m : Filesystem)
    (o : NetOid) (p : StorageOid)
    → (row_point show net_eq o NetOid.name (map (net_entry n i v) net_oids) none none
        ≡ net_point show n i v o)
      × (row_point show storage_eq p StorageOid.name (map (storage_entry m) storage_oids) none none
          ≡ storage_point show m p)
row_point_complete show n i v m o p = (row_point-net show n i v o, row_point-storage show m p)
