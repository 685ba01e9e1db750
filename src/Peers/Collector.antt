-- ===== src/Peers/Collector.antt =====
-- The collectors of reports (nyumt-node/src/node/stats.rs and nyumt-node/src/master/stats.rs): a round of
-- the loop at each tick, and the configuration by which the next one works.
use pfe_development_of_a_mon.Prelude.{
  ℕ, ℤ, Option, none, some, List, [], ◌∷◌, ◌==◌, same, if◌then◌else◌, Bytes, Fallible, ok, err,
  panicked, ◌>>=◌,
}
use pfe_development_of_a_mon.Stats.Types.{DbStruct}
use pfe_development_of_a_mon.Stats.Usage.{Floats, System}
use pfe_development_of_a_mon.Stats.Report.{generate_report}
use pfe_development_of_a_mon.Proto.Types.{NodeConfig}
use pfe_development_of_a_mon.Proto.External.{External}
use pfe_development_of_a_mon.Database.Tables.{Database}
use pfe_development_of_a_mon.Database.Reports.{store_stats}
use pfe_development_of_a_mon.Peers.Messages.{NodeReport}

-- The configuration in use, and the period of the timer in seconds.
pub record Collector : Type 0 where
  pub conf : NodeConfig
  pub period : ℕ

-- A timer: `tokio::time::interval` stops the program if its period is zero.
unfoldable pub with_interval : NodeConfig → Fallible Collector
with_interval conf =
    if conf.report_timeframe == 0
    then err panicked
    else ok (record { conf = conf; period = conf.report_timeframe })

-- The end of a round: `shared` is the configuration that the other tasks change.
unfoldable pub adopt : NodeConfig → Collector → Fallible Collector
unfolding with_interval
adopt shared c =
    if same shared.hash c.conf.hash
    then ok c
    else if shared.report_timeframe == c.period
    then ok (record c { conf = shared })
    else with_interval shared

-- `sys` and `now` are the machine and its clock, `sign` is the signature of the node.
module _ (x : External) (f : Floats) (sys : System) (now : ℤ) (sign : Bytes → Fallible Bytes) where
  -- The report with its signature and its time.
  unfoldable pub signed_report : DbStruct → Fallible (NodeReport × ℕ)
  unfolding generate_report
  signed_report db_struct = do
    report ← generate_report f sys now db_struct
    v ← x.report.to_vec report
    sig ← sign v
    ok (record { report = v; sig = sig }, report.timestamp)

  abbrev sent_report : Fallible (NodeReport × ℕ) → Option NodeReport
  sent_report (ok (r, time)) = some r
  sent_report (err _) = none

  -- A plain node sends the report, if there is one.
  unfoldable pub node_round : NodeConfig → Collector → Option NodeReport × Fallible Collector
  unfolding signed_report adopt
  node_round shared c = (sent_report (signed_report c.conf.db_struct), adopt shared c)

  abbrev stored_report : Bytes → Database → Fallible (NodeReport × ℕ) → Database
  stored_report pk db (err _) = db
  stored_report pk db (ok (r, time)) = elim (store_stats db pk r.report r.sig time) [
    | ok after ↦ after
    | err _ ↦ db
  ]

  -- A master node stores it under its own key.
  unfoldable pub master_round :
      Bytes → NodeConfig → Database → Collector → Database × Fallible Collector
  unfolding signed_report adopt
  master_round pk shared db c =
      (stored_report pk db (signed_report c.conf.db_struct), adopt shared c)

-- The configurations that the rounds meet, one after the other.
unfoldable pub follow : List NodeConfig → Collector → Fallible Collector
unfolding adopt
follow [] c = ok c
follow (shared ∷ confs) c = do c' ← adopt shared c; follow confs c'
