-- ===== src/Peers/Follow.antt =====
-- A collector works by the configuration that its node bears (nyumt-node/src/node/stats.rs and
-- nyumt-node/src/master/stats.rs).
use pfe_development_of_a_mon.Prelude.{
  ◌≡◌, ◌≢◌, ◌↔◌, refl, false, List, [], ◌∷◌, ==_iff, same, same_iff, Bytes, err, panicked,
  Fallible-cases, OnOk, OnOk_elim, inl, inr, arith,
}
use pfe_development_of_a_mon.Proto.Types.{NodeConfig}
use pfe_development_of_a_mon.Peers.Collector.{Collector, with_interval, adopt, follow}

-- The timer runs by the configuration.
abbrev pub Keeps : Collector → Type 0
Keeps c = (c.period ≡ c.conf.report_timeframe) × (c.period ≢ 0)

abbrev pub last_hash : Bytes → List NodeConfig → Bytes
last_hash hash [] = hash
last_hash hash (shared ∷ confs) = last_hash shared.hash confs

adopt-Keeps :
    (shared : NodeConfig) (c : Collector)
    → Keeps c
    → OnOk (λ c'. Keeps c' × (c'.conf.hash ≡ shared.hash)) (adopt shared c)
unfolding adopt with_interval
adopt-Keeps shared c keeps = ground (
  arith,
  same_iff shared.hash c.conf.hash,
  ==_iff shared.report_timeframe c.period,
  ==_iff shared.report_timeframe 0,
)

-- Whatever configurations the node is given, a collector whose timer runs by its configuration goes on
-- so, unless it stops: in the end it has the hash of the last one, and the timer runs by the seconds
-- that its configuration says.
pub follow-Keeps :
    (confs : List NodeConfig) (c : Collector)
    → Keeps c
    → OnOk (λ c'. Keeps c' × (c'.conf.hash ≡ last_hash c.conf.hash confs)) (follow confs c)
unfolding follow
follow-Keeps [] c keeps = (keeps, refl)
follow-Keeps (shared ∷ confs) c keeps = elim (Fallible-cases (adopt shared c)) [
  | inr (f, e) ↦ rw (follow, e) tt
  | inl (c', e) ↦
      let (keeps', is) = OnOk_elim _ _ (adopt-Keeps shared c keeps) e in
      rw (follow, e, ← is) (follow-Keeps confs c' keeps')
]

-- A collector stops the program exactly where it is given another configuration whose time between two
-- reports is zero seconds.
pub adopt-panicked :
    (shared : NodeConfig) (c : Collector)
    → Keeps c
    → (adopt shared c ≡ err panicked)
      ↔ ((same shared.hash c.conf.hash ≡ false) × (shared.report_timeframe ≡ 0))
unfolding adopt with_interval
adopt-panicked shared c keeps =
    ground (arith, ==_iff shared.report_timeframe c.period, ==_iff shared.report_timeframe 0)
