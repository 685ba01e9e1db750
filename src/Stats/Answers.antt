-- ===== src/Stats/Answers.antt =====
-- What a report holds of the objects that are asked for.
use pfe_development_of_a_mon.Prelude.{
  ◌≡◌, refl, Bool-cases, inl, inr, List, [], ◌∷◌, ◌++◌, map, All, All-append, Text, text, same,
  find, is_empty, if◌then◌else◌, OnOk, Fallible-cases, Option-cases, arith,
}
use pfe_development_of_a_mon.Stats.Types.{
  CpuOid, MemoryOid, NetOid, StorageOid, VarValue, DbStruct, DataType, Storage,
}
use pfe_development_of_a_mon.Stats.Usage.{
  Floats, CpuLoad, Memory, Interface, NetworkStats, Filesystem, System, cpu_entry, cpu_usage,
  memory_entry, memory_usage, net_entry, net_row, net_rows, network_usage, storage_entry, add_mount,
  add_mounts, storage_usage, device_exists, starts_with,
}

-- The four classes of objects.
pub data Class : Type 0 where
  cpu memory network storage : Class

abbrev pub class : DataType → Class
class (DataType.cpu u) = cpu
class (DataType.memory u) = memory
class (DataType.network u) = network
class (DataType.storage u) = storage

-- The objects that a list of values is about.
abbrev pub objects : {A : Type 0} → List (A × VarValue) → List A
objects [] = []
objects ((oid, v) ∷ values) = oid ∷ objects values

-- A part of a report has a value for each object that is asked for of its class, in their order, and
-- so has every interface and every volume.
abbrev pub Answers : DbStruct → DataType → Type 0
Answers d (DataType.cpu u) = objects u ≡ d.cpu
Answers d (DataType.memory u) = objects u ≡ d.memory
Answers d (DataType.network u) = All (λ row. objects row ≡ d.network) u
Answers d (DataType.storage u) = All (λ row. objects row ≡ d.storage) u

-- The classes that have an object to collect.
abbrev pub asked : DbStruct → List Class
asked d =
    (if is_empty d.cpu then [] else cpu ∷ [])
    ++ ((if is_empty d.memory then [] else memory ∷ [])
        ++ ((if is_empty d.network then [] else network ∷ [])
            ++ (if is_empty d.storage then [] else storage ∷ [])))

cpu_entry-object : (f : Floats) (c : CpuLoad) (o : CpuOid) → (cpu_entry f c o).0 ≡ o
cpu_entry-object f c o = ground arith

memory_entry-object : (m : Memory) (o : MemoryOid) → (memory_entry m o).0 ≡ o
memory_entry-object m o = ground arith

net_entry-object :
    (n : Text) (i : Interface) (v : NetworkStats) (o : NetOid) → (net_entry n i v o).0 ≡ o
net_entry-object n i v o = ground arith

storage_entry-object : (m : Filesystem) (o : StorageOid) → (storage_entry m o).0 ≡ o
storage_entry-object m o = ground arith

objects-map :
    {A : Type 0} (entry : A → A × VarValue) (l : List A)
    → ((o : A) → (entry o).0 ≡ o)
    → objects (map entry l) ≡ l
objects-map entry [] h = refl
objects-map entry (o ∷ l) h = λ i. h o i ∷ objects-map entry l h i

-- The part is of the class, and answers what is asked for.
abbrev pub AnswersClass : DbStruct → Class → DataType → Type 0
AnswersClass d c v = (class v ≡ c) × Answers d v

module _ (f : Floats) (sys : System) (d : DbStruct) where
  pub cpu_usage-Answers : OnOk (AnswersClass d cpu) (cpu_usage f sys d.cpu)
  unfolding cpu_usage
  cpu_usage-Answers = elim (Fallible-cases sys.cpu_load) [
    | inr (e, bad) ↦ rw (cpu_usage, bad) tt
    | inl (started, good) ↦ elim (Fallible-cases started) [
      | inr (e, bad) ↦ rw (cpu_usage, good, bad) tt
      | inl (load, fine) ↦
          rw (cpu_usage, good, fine)
            (refl, objects-map (cpu_entry f load) d.cpu (cpu_entry-object f load))
    ]
  ]

  pub memory_usage-Answers : OnOk (AnswersClass d memory) (memory_usage sys d.memory)
  unfolding memory_usage
  memory_usage-Answers = elim (Fallible-cases sys.memory) [
    | inr (e, bad) ↦ rw (memory_usage, bad) tt
    | inl (m, good) ↦
        rw (memory_usage, good)
          (refl, objects-map (memory_entry m) d.memory (memory_entry-object m))
  ]

  net_row-Answers : (n : Text) → All (λ row. objects row ≡ d.network) (net_row sys d.network n)
  net_row-Answers n = elim (Fallible-cases (sys.network_stats n)) [
    | inr (e, bad) ↦ rw (net_row, bad) tt
    | inl (v, good) ↦ elim (Option-cases (find (λ (i : Interface). same i.name n) sys.interfaces)) [
      | inl missing ↦ rw (net_row, good, missing) tt
      | inr (i, found) ↦
          rw (net_row, good, found)
            (ground (arith, objects-map (net_entry n i v) d.network (net_entry-object n i v)))
    ]
  ]

  net_rows-Answers :
      (names : List Text) → All (λ row. objects row ≡ d.network) (net_rows sys d.network names)
  unfolding net_rows
  net_rows-Answers [] = tt
  net_rows-Answers (n ∷ names) =
      All-append (λ row. objects row ≡ d.network) (net_row sys d.network n) _ (net_row-Answers n)
        (net_rows-Answers names)

  pub network_usage-Answers : OnOk (AnswersClass d network) (network_usage sys d.network)
  unfolding network_usage
  network_usage-Answers = elim (Fallible-cases sys.networks) [
    | inr (e, bad) ↦ rw (network_usage, bad) tt
    | inl (names, good) ↦ rw (network_usage, good) (refl, net_rows-Answers names)
  ]

  add_mount-Answers :
      (list : Storage) (m : Filesystem)
      → All (λ row. objects row ≡ d.storage) list
      → All (λ row. objects row ≡ d.storage) (add_mount d.storage list m)
  unfolding add_mount
  add_mount-Answers list m h = elim (Bool-cases (starts_with (text "/dev") m.fs_mounted_from)) [
    | inr e ↦ rw (add_mount, e) h
    | inl e ↦ elim (Bool-cases (device_exists list m.fs_mounted_from)) [
      | inl e' ↦ rw (add_mount, e, e') h
      | inr e' ↦
          rw (add_mount, e, e')
            (All-append (λ row. objects row ≡ d.storage) list _ h
              (objects-map (storage_entry m) d.storage (storage_entry-object m), tt))
    ]
  ]

  add_mounts-Answers :
      (list : Storage) (ms : List Filesystem)
      → All (λ row. objects row ≡ d.storage) list
      → All (λ row. objects row ≡ d.storage) (add_mounts d.storage list ms)
  unfolding add_mounts
  add_mounts-Answers list [] h = h
  add_mounts-Answers list (m ∷ ms) h =
      add_mounts-Answers (add_mount d.storage list m) ms (add_mount-Answers list m h)

  pub storage_usage-Answers : OnOk (AnswersClass d storage) (storage_usage sys d.storage)
  unfolding storage_usage
  storage_usage-Answers = elim (Fallible-cases sys.mounts) [
    | inr (e, bad) ↦ rw (storage_usage, bad) tt
    | inl (ms, good) ↦ rw (storage_usage, good) (refl, add_mounts-Answers [] ms tt)
  ]
