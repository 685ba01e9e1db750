-- ===== src/Tests/Starts.antt =====
-- The start of a chain and of a session, and the reports for a session.
use pfe_development_of_a_mon.Prelude.{
  ℕ, ◌≡◌, ◌⊎◌, refl, true, none, some, List, [], ◌∷◌, ◌++◌, Bytes, text, same, pos, Fallible, ok,
  err, row_not_found, codec,
}
use pfe_development_of_a_mon.Proto.Config.{master_default, node_default, master_update, node_update}
use pfe_development_of_a_mon.Database.Tables.{Database}
use pfe_development_of_a_mon.Database.Chain.{get_last_block}
use pfe_development_of_a_mon.Database.Reports.{stats_after, get_last_stats_timestamp}
use pfe_development_of_a_mon.Client.Sync.{Stat, handle_stats}
use pfe_development_of_a_mon.Consensus.First.{create}
use pfe_development_of_a_mon.Consensus.Genesis.{Writes, empty, founded, create-founded}
use pfe_development_of_a_mon.Serve.Requests.{SessionUser, session_of}
use pfe_development_of_a_mon.Serve.Sessions.{open_session, IsSession, open_session-IsSession}
use pfe_development_of_a_mon.Serve.Reports.{Feed, send_stats}
use pfe_development_of_a_mon.Serve.Delivery.{DeliversAll, joined_stats, send_stats-DeliversAll}
use pfe_development_of_a_mon.Client.Start.{last_timestamp}
use pfe_development_of_a_mon.Replication.Reports.{send_stats-handle_stats}
use pfe_development_of_a_mon.Database.Configs.{load_local_master_node_conf}
use pfe_development_of_a_mon.Proto.External.{Codec}
use pfe_development_of_a_mon.Consensus.Types.{Master}
use pfe_development_of_a_mon.Consensus.Submit.{commit}
use pfe_development_of_a_mon.Client.Channel.{ClientRequest, ClientResponse}
use pfe_development_of_a_mon.Invariant.Keys.{IsConsistent}
use pfe_development_of_a_mon.Tests.Sample.{
  toy, net, db, admin, controller, master_config, node_config, master, body,
}

has_master : master_default toy ≡ ok (record master_config { hash = 1 ∷ [] })
unfolding master_default master_update
has_master = refl

has_node : node_default toy ≡ ok (record node_config { hash = 1 ∷ [] })
unfolding node_default node_update
has_node = refl

abbrev written : Writes toy net controller admin 7
written = record {
  master = record master_config { hash = 1 ∷ [] };
  node = record node_config { hash = 1 ∷ [] };
  body = 1 ∷ [];
  block = 1 ∷ [];
  user_key = 10 ∷ [];
  node_key = 20 ∷ [];
  perms = 0 ∷ [];
  master_conf = 1 ∷ [];
  node_conf = 1 ∷ [];
  has_master = has_master;
  has_node = has_node;
  writes_body = refl;
  writes_block = refl;
  writes_user = refl;
  writes_key = refl;
  writes_perms = refl;
  writes_master = refl;
  writes_node = refl;
}

create-founded_example :
    (create toy net (empty toy net) controller admin 7
      ≡ ok (founded toy net controller admin 7 written))
    × (get_last_block (founded toy net controller admin 7 written) ≡ ok (some (0, 1 ∷ [])))
    × (load_local_master_node_conf (founded toy net controller admin 7 written) (20 ∷ [])
        ≡ ok (some (record { name = text "default"; master_conf = 1 ∷ []; node_conf = 1 ∷ [] })))
create-founded_example = create-founded toy net controller admin 7 written

open_session-IsSession_example :
    let (after, disconnected) = open_session toy db (text "peer") admin [] in
    (((disconnected ≡ true) × (after ≡ []))
      ⊎ ((user : SessionUser) × (session_of after (text "peer") ≡ some user)
          × IsSession toy db admin user))
    × (session_of after (text "other") ≡ none)
unfolding same
open_session-IsSession_example =
    open_session-IsSession toy db (text "peer") admin [] (text "other") refl

abbrev writes_stats : List Stat → Fallible Bytes
writes_stats m = ok (1 ∷ [])

abbrev reported : Database
reported = record db {
  stats = record { timestamp = pos 9; node = some 1; contents = 4 ∷ []; sig = 5 ∷ [] } ∷ [];
}

abbrev feed : Feed
feed = record { last_timestamp = 3; sent = [] }

abbrev one_stat : Stat
one_stat = record { id = 1; contents = 4 ∷ []; sig = 5 ∷ [] }

abbrev stat_rows : List (Stat × ℕ)
stat_rows = (one_stat, 9) ∷ []

send_stats-DeliversAll_example :
    ((stat_rows ≡ []) × (send_stats writes_stats (err row_not_found) reported feed ≡ feed))
    ⊎ DeliversAll feed [] 0 stat_rows (send_stats writes_stats (err row_not_found) reported feed)
unfolding stats_after
send_stats-DeliversAll_example =
    send_stats-DeliversAll writes_stats (λ m. refl) (err row_not_found) reported feed stat_rows refl

abbrev requests : Codec ClientRequest
requests = record { to_vec = λ r. err codec; from_slice = λ b. err codec }

abbrev responses : Codec ClientResponse
responses = record { to_vec = λ r. err codec; from_slice = λ b. err codec }

abbrev first_tables : Database
first_tables = founded toy net controller admin 7 written

abbrev with_first : Master
with_first = record master { db = first_tables }

abbrev with_second : Master
with_second = (commit toy net body 1 none (1 ∷ []) with_first).state

reported-IsConsistent : IsConsistent toy reported
reported-IsConsistent = record {
  users = (refl, (refl, tt));
  chain = (refl, tt);
  nodes = (refl, tt);
  peer_ids = tt;
  stats = (refl, tt);
  configs = (refl, tt);
  peers_refer = λ e. tt;
  stats_refer = λ e. (refl, tt);
}

send_stats-handle_stats_example :
    handle_stats toy db (
      joined_stats
        (send_stats writes_stats
          (err row_not_found)
          reported
          (record { last_timestamp = 0; sent = [] })).sent)
    ≡ record db { stats = db.stats ++ stats_after reported 0 }
unfolding last_timestamp get_last_stats_timestamp
send_stats-handle_stats_example =
    send_stats-handle_stats toy writes_stats (err row_not_found) (λ m. refl) reported db 0
      reported-IsConsistent
      (
        record {
          node = 1;
          under = refl;
          report = record { contents = []; timestamp = 9 };
          read = refl;
          time = refl;
        },
        tt,
      )
      refl tt refl
