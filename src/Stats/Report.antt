-- ===== src/Stats/Report.antt =====
-- `generate_report` (nyumt-proto/src/stats/mod.rs). The four measurements run as tasks; their
-- results are awaited in the order in which they were started, and the first failure is returned.
use pfe_development_of_a_mon.Prelude.{
  List, [], ◌∷◌, ◌++◌, if◌then◌else◌, is_empty, Fallible, ok, ◌>>=◌, ℤ, as_u64,
}
use pfe_development_of_a_mon.Stats.Types.{DbStruct, DataType, Report}
use pfe_development_of_a_mon.Stats.Usage.{
  Floats, System, cpu_usage, memory_usage, network_usage, storage_usage,
}

-- The futures that are pushed: one for each class that has objects to collect.
unfoldable pub tasks : Floats → System → DbStruct → List (Fallible DataType)
tasks f sys d =
    (if is_empty d.cpu then [] else cpu_usage f sys d.cpu ∷ [])
    ++ ((if is_empty d.memory then [] else memory_usage sys d.memory ∷ [])
        ++ ((if is_empty d.network then [] else network_usage sys d.network ∷ [])
            ++ (if is_empty d.storage then [] else storage_usage sys d.storage ∷ [])))

-- The loop that awaits them.
unfoldable pub collect : List (Fallible DataType) → Fallible (List DataType)
collect [] = ok []
collect (t ∷ ts) = do v ← t; vs ← collect ts; ok (v ∷ vs)

unfoldable pub generate_report : Floats → System → ℤ → DbStruct → Fallible Report
unfolding tasks collect
generate_report f sys now d = do
  contents ← collect (tasks f sys d)
  ok (record { contents = contents; timestamp = as_u64 now })
