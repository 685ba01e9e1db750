-- ===== src/Database/Configs.antt =====
-- nyumt-proto/src/database/{cache,template}.rs: the configurations.
use pfe_development_of_a_mon.Prelude.{
  ℕ, Option, some, List, map, Bytes, Text, same, find, count, Fallible, ok,
}
use pfe_development_of_a_mon.Database.Tables.{Config, Database}
use pfe_development_of_a_mon.Database.Users.{is_node}
use pfe_development_of_a_mon.Database.Nodes.{then_find}

-- The row of a name.
unfoldable pub get_node_conf : Database → Text → Fallible (Option Config)
get_node_conf db name = ok (find (λ c. same c.name name) db.configs)

unfoldable pub load_local_master_node_conf : Database → Bytes → Fallible (Option Config)
load_local_master_node_conf db pk =
    ok (then_find (find (is_node pk) db.nodes) (λ n. find (λ c. same c.name n.conf) db.configs))

-- Each configuration with the number of the nodes that use it.
unfoldable pub get_template_list : Database → List (Text × ℕ)
get_template_list db = map (λ c. (c.name, count (λ n. same n.conf c.name) db.nodes)) db.configs

unfoldable pub get_template : Database → Text → Fallible (Option (Bytes × Bytes))
get_template db name =
    ok
      (then_find (find (λ c. same c.name name) db.configs) (λ c. some (c.master_conf, c.node_conf)))
