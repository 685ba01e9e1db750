-- ===== src/Proto/Config.antt =====
-- nyumt-proto/src/config.rs: the defaults, and the hash by which a change is noticed. A value that
-- cannot be serialised makes `update` panic, here a failure.
use pfe_development_of_a_mon.Prelude.{false, replicate, Fallible, ok, ◌>>=◌}
use pfe_development_of_a_mon.Stats.Oids.{new}
use pfe_development_of_a_mon.Proto.Types.{MasterConfig, NodeConfig, GlobalConfig}
use pfe_development_of_a_mon.Proto.External.{External}

module _ (x : External) where
  unfoldable pub master_update : MasterConfig → Fallible MasterConfig
  master_update c = do ser ← x.master_config.to_vec c; ok (record c { hash = x.sha256 ser })

  unfoldable pub node_update : NodeConfig → Fallible NodeConfig
  node_update c = do ser ← x.node_config.to_vec c; ok (record c { hash = x.sha256 ser })

  unfoldable pub master_default : Fallible MasterConfig
  unfolding master_update
  master_default = master_update (record {
    hash = replicate 32 0;
    collect_data_from_master = false;
    block_push_retries = 3;
    block_vote_time = 5000;
    vote_push_retries = 4;
    poll_timeout = 2;
  })

  unfoldable pub node_default : Fallible NodeConfig
  unfolding node_update
  node_default =
      node_update (record { hash = replicate 32 0; report_timeframe = 5; db_struct = new })

  unfoldable pub global_default : Fallible GlobalConfig
  unfolding master_default node_default
  global_default = do
    master ← master_default
    node ← node_default
    ok (record { master = master; node = node })

  unfoldable pub global_update : GlobalConfig → Fallible GlobalConfig
  unfolding master_update node_update
  global_update c = do
    master ← master_update c.master
    node ← node_update c.node
    ok (record { master = master; node = node })
