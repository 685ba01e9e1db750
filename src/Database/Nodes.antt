-- ===== src/Database/Nodes.antt =====
-- nyumt-proto/src/database/node.rs, the statements on nodes and on their peer ids.
use pfe_development_of_a_mon.Prelude.{
  ℕ, Bool, false, Option, none, some, List, [], ◌∷◌, ◌++◌, map, Bytes, Text, same, ◌==◌,
  if◌then◌else◌, retain, find, any, count, Fallible, ok, ◌>>=◌,
}
use pfe_development_of_a_mon.Database.Tables.{Node, NodePeerId, Database, fetch_one}
use pfe_development_of_a_mon.Database.Users.{is_node}

abbrev pub then_find {ℓ κ} : {A : Type ℓ} {B : Type κ} → Option A → (A → Option B) → Option B
then_find none f = none
then_find (some a) f = f a

unfoldable pub get_master_nodes : Database → List Bytes
get_master_nodes db = map (λ n. n.public_key) (retain (λ n. n.master_node) db.nodes)

unfoldable pub master_node_count : Database → Fallible ℕ
master_node_count db = ok (count (λ n. n.master_node) db.nodes)

-- `(select id from node where public_key = ?1)`.
unfoldable pub node_id : Database → Bytes → Option ℕ
node_id db pk = then_find (find (is_node pk) db.nodes) (λ n. some n.id)

unfoldable pub get_node_id : Database → Bytes → Fallible (Option ℕ)
unfolding node_id
get_node_id db pk = ok (node_id db pk)

abbrev pub set_peerid : ℕ → Text → List NodePeerId → List NodePeerId
set_peerid n peerid [] = []
set_peerid n peerid (r ∷ rs) =
    (if elim r.node [ none ↦ false | some m ↦ m == n ] then record r { peerid = peerid } else r)
    ∷ set_peerid n peerid rs

abbrev pub has_node : ℕ → NodePeerId → Bool
has_node n r = elim r.node [ none ↦ false | some m ↦ m == n ]

-- The upsert on `node_peerid`. A key of no node has the id NULL, which conflicts with nothing.
unfoldable pub update_peerid : Database → Bytes → Text → Fallible Database
unfolding node_id
update_peerid db pk peerid = ok (elim (node_id db pk) [
  | none ↦ record db { peer_ids = db.peer_ids ++ record { node = none; peerid = peerid } ∷ [] }
  | some n ↦
      if any (has_node n) db.peer_ids
      then record db { peer_ids = set_peerid n peerid db.peer_ids }
      else record db { peer_ids = db.peer_ids ++ record { node = some n; peerid = peerid } ∷ [] }
])

-- `node where id = (select node from node_peerid where peerid = ?1)`: the first row of the peer id
-- counts, also if its node is NULL.
unfoldable pub peer_node : Database → Text → Option Node
peer_node db peerid =
    then_find (find (λ r. same r.peerid peerid) db.peer_ids)
      λ r. then_find r.node λ n. find (λ row. row.id == n) db.nodes

unfoldable pub get_peer_pk : Database → Text → Fallible (Option Bytes)
unfolding peer_node
get_peer_pk db peerid = ok (then_find (peer_node db peerid) (λ n. some n.public_key))

unfoldable pub is_peer_master_node : Database → Text → Fallible Bool
unfolding peer_node
is_peer_master_node db peerid =
    ok (elim (peer_node db peerid) [ none ↦ false | some n ↦ n.master_node ])

unfoldable pub get_peer_master_node_pk : Database → Text → Fallible (Option Bytes)
unfolding peer_node
get_peer_master_node_pk db peerid =
    ok (then_find (peer_node db peerid) (λ n. if n.master_node then some n.public_key else none))

unfoldable pub is_node_master : Database → Bytes → Fallible Bool
is_node_master db pk =
    ok (elim (find (is_node pk) db.nodes) [ none ↦ false | some n ↦ n.master_node ])

unfoldable pub get_peer_conf_name : Database → Text → Fallible Text
unfolding peer_node
get_peer_conf_name db peerid = do n ← fetch_one (peer_node db peerid); ok n.conf

unfoldable pub get_peer_conf : Database → Text → Fallible Bytes
unfolding peer_node
get_peer_conf db peerid = do
  c ← fetch_one (then_find (peer_node db peerid) (λ n. find (λ c. same c.name n.conf) db.configs))
  ok c.node_conf
