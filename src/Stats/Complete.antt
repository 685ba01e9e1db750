-- ===== src/Stats/Complete.antt =====
-- A report is complete: `generate_report` as a whole.
use pfe_development_of_a_mon.Prelude.{
  ◌≡◌, refl, Bool, true, false, inl, inr, List, [], ◌∷◌, ◌++◌, map, All, ℤ, is_empty, if◌then◌else◌,
  Fallible, ok, OnOk, OnOk_elim, Fallible-cases, >>=-eq-ok, as_u64,
}
use mathlib.Core.Path.{subst}
use pfe_development_of_a_mon.Stats.Types.{DbStruct, DataType, Report}
use pfe_development_of_a_mon.Stats.Usage.{Floats, System}
use pfe_development_of_a_mon.Stats.Report.{tasks, collect, generate_report}
use pfe_development_of_a_mon.Stats.Answers.{
  Class, cpu, memory, network, storage, class, Answers, asked, AnswersClass, cpu_usage-Answers,
  memory_usage-Answers, network_usage-Answers, storage_usage-Answers,
}

-- The tasks answer for the classes, in their order.
abbrev AreFor : DbStruct → List Class → List (Fallible DataType) → Type 0
AreFor d [] [] = Unit
AreFor d (c ∷ cs) (t ∷ ts) = OnOk (AnswersClass d c) t × AreFor d cs ts
AreFor d _ _ = ⊥

-- The parts answer for the classes, in their order.
abbrev IsComplete : DbStruct → List Class → List DataType → Type 0
IsComplete d cs parts = (map class parts ≡ cs) × All (Answers d) parts

collect-IsComplete :
    (d : DbStruct) (cs : List Class) (ts : List (Fallible DataType))
    → AreFor d cs ts
    → OnOk (IsComplete d cs) (collect ts)
unfolding collect
collect-IsComplete d [] [] h = (refl, tt)
collect-IsComplete d (c ∷ cs) (t ∷ ts) h = elim (Fallible-cases t) [
  | inr (f, bad) ↦ rw (collect, bad) tt
  | inl (v, good) ↦ elim (Fallible-cases (collect ts)) [
    | inr (f, bad) ↦ rw (good, bad) tt
    | inl (vs, rest) ↦
        let (is_c, answers) = OnOk_elim (AnswersClass d c) t h.0 good in
        let (are, all) =
          OnOk_elim (IsComplete d cs) (collect ts) (collect-IsComplete d cs ts h.1) rest in
        rw (good, rest) ((λ i. is_c i ∷ are i), (answers, all))
  ]
]
collect-IsComplete d [] (t ∷ ts) h = absurd h
collect-IsComplete d (c ∷ cs) [] h = absurd h

-- One class with the tasks behind it.
when-AreFor :
    (d : DbStruct) (empty : Bool) (c : Class) (t : Fallible DataType) (cs : List Class)
    (ts : List (Fallible DataType))
    → OnOk (AnswersClass d c) t
    → AreFor d cs ts
    → AreFor d ((if empty then [] else c ∷ []) ++ cs) ((if empty then [] else t ∷ []) ++ ts)
when-AreFor d true c t cs ts h rest = rest
when-AreFor d false c t cs ts h rest = (h, rest)

last-AreFor :
    (d : DbStruct) (empty : Bool) (c : Class) (t : Fallible DataType)
    → OnOk (AnswersClass d c) t
    → AreFor d (if empty then [] else c ∷ []) (if empty then [] else t ∷ [])
last-AreFor d true c t h = tt
last-AreFor d false c t h = (h, tt)

module _ (f : Floats) (sys : System) (d : DbStruct) where
  tasks-AreFor : AreFor d (asked d) (tasks f sys d)
  unfolding tasks
  tasks-AreFor = when-AreFor d (is_empty d.cpu) cpu _ _ _ (cpu_usage-Answers f sys d) (
      when-AreFor d (is_empty d.memory) memory _ _ _ (memory_usage-Answers f sys d) (
        when-AreFor d (is_empty d.network) network _ _ _ (network_usage-Answers f sys d)
          (last-AreFor d (is_empty d.storage) storage _ (storage_usage-Answers f sys d))))

  -- A report that is made has one part for each class with an object to collect, in the order of the
  -- classes, and bears the time at which it was begun. The parts of the processor and of the memory
  -- have a value for each object that is asked for, in their order, and so has every interface and
  -- every volume in the other two.
  pub generate_report-asked :
      (now : ℤ) (r : Report)
      → generate_report f sys now d ≡ ok r
      → (map class r.contents ≡ asked d) × All (Answers d) r.contents × (r.timestamp ≡ as_u64 now)
  unfolding generate_report
  generate_report-asked now r h =
      let (parts, good, e) = >>=-eq-ok (collect (tasks f sys d)) _ h in
      let (are, all) =
        OnOk_elim (IsComplete d (asked d)) (collect (tasks f sys d))
          (collect-IsComplete d (asked d) (tasks f sys d) tasks-AreFor) good in
      let made : record { contents = parts; timestamp = as_u64 now } ≡ r = cc in
      subst
        (λ (q : Report).
          (map class q.contents ≡ asked d)
          × All (Answers d) q.contents
          × (q.timestamp ≡ as_u64 now))
        made (are, all, refl)
