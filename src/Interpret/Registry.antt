-- ===== src/Interpret/Registry.antt =====
-- The abstract view of the tables: which keys are users, nodes and master nodes, and which names are
-- configurations; and what an order means for it.
use pfe_development_of_a_mon.Prelude.{
  Bool, not, List, [], ◌∷◌, ◌&&◌, ◌||◌, Bytes, Text, same, any, ok, err, ◌≡◌, arith,
}
use pfe_development_of_a_mon.Proto.Types.{
  PublicKey, Order, add_user, add_master_node, add_node, remove_user, remove_master_node,
  remove_node, set_config, remove_config, RequestType, order,
}
use pfe_development_of_a_mon.Proto.External.{External}
use pfe_development_of_a_mon.Database.Tables.{Database}
use pfe_development_of_a_mon.Database.Users.{is_user, is_node, is_master}

pub record Registry : Type 0 where
  pub user_of : Bytes → Bool
  pub node_of : Bytes → Bool
  pub master_of : Bytes → Bool
  pub config_of : Text → Bool

abbrev pub view : Database → Registry
view db = record {
  user_of = λ k. any (is_user k) db.users;
  node_of = λ k. any (is_node k) db.nodes;
  master_of = λ k. any (is_master k) db.nodes;
  config_of = λ n. any (λ c. same c.name n) db.configs;
}

-- Put an element in, or take it out.
abbrev pub with_element : Bytes → (Bytes → Bool) → Bytes → Bool
with_element a s j = s j || same a j

abbrev pub without_element : Bytes → (Bytes → Bool) → Bytes → Bool
without_element a s j = s j && not (same a j)

-- The bytes of a key.
unfoldable pub written : External → PublicKey → Bytes
written x k = elim (x.public_key.to_vec k) [ ok pk ↦ pk | err _ ↦ [] ]

pub written-eq :
    (x : External) (k : PublicKey) {pk : Bytes} → x.public_key.to_vec k ≡ ok pk → written x k ≡ pk
unfolding written
written-eq x k e = ground arith

abbrev pub apply : External → Order → Registry → Registry
apply x (add_user name k perm) r = record r { user_of = with_element (written x k) r.user_of }
apply x (add_master_node name k) r = record r {
  node_of = with_element (written x k) r.node_of;
  master_of = with_element (written x k) r.master_of;
}
apply x (add_node name k) r = record r { node_of = with_element (written x k) r.node_of }
apply x (remove_user k) r = record r { user_of = without_element (written x k) r.user_of }
apply x (remove_master_node k) r = record r {
  node_of = without_element (written x k) r.node_of;
  master_of = without_element (written x k) r.master_of;
}
apply x (remove_node k) r = record r {
  node_of = without_element (written x k) r.node_of;
  master_of = without_element (written x k) r.master_of;
}
apply x (set_config name master node) r = record r { config_of = with_element name r.config_of }
apply x (remove_config name) r = record r { config_of = without_element name r.config_of }
apply x _ r = r

abbrev pub apply_all : External → List RequestType → Registry → Registry
apply_all x [] r = r
apply_all x (order o ∷ reqs) r = apply_all x reqs (apply x o r)
