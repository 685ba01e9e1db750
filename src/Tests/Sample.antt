-- ===== src/Tests/Sample.antt =====
-- A small network: one master node, one root user, one configuration, and a chain of one block. The
-- parameters are filled by short functions: the digest is the identity, a signature is right if it is
-- the message, and only the shapes that the runs need are encoded.
use pfe_development_of_a_mon.Prelude.{
  ℕ, true, false, none, some, List, [], ◌∷◌, ◌&&◌, map, Bytes, text, same, same→eq, if◌then◌else◌,
  pos, Fallible, ok, err, codec, arith, refl,
}
use pfe_development_of_a_mon.Stats.Oids.{new}
use pfe_development_of_a_mon.Proto.Types.{
  PublicKey, ed25519, Permission, root, monitor, MasterConfig, NodeConfig, add_node, RequestType,
  order, BodyData, Block,
}
use pfe_development_of_a_mon.Proto.External.{Codec, External}
use pfe_development_of_a_mon.Database.Tables.{Database}
use pfe_development_of_a_mon.Consensus.Types.{NetData, Master}
use pfe_development_of_a_mon.Consensus.Publish.{Attempt, insufficient_peers}
use pfe_development_of_a_mon.Consensus.Rounds.{KeepsU8}
use pfe_development_of_a_mon.Consensus.Append.{KeepsChain, RoundTrips}

abbrev key_bytes : PublicKey → Bytes
key_bytes (ed25519 b) = b

abbrev permission_code : Permission → ℕ
permission_code root = 0
permission_code monitor = 2

-- A codec that writes one value only.
abbrev pub constant : {A : Type 0} → A → Codec A
constant a = record { to_vec = λ _. ok (1 ∷ []); from_slice = λ _. ok a }

abbrev pub master_config : MasterConfig
master_config = record {
  hash = [];
  collect_data_from_master = false;
  block_push_retries = 3;
  block_vote_time = 5000;
  vote_push_retries = 4;
  poll_timeout = 2;
}

abbrev pub node_config : NodeConfig
node_config = record { hash = []; report_timeframe = 5; db_struct = new }

abbrev pub admin : PublicKey
admin = ed25519 (10 ∷ [])

abbrev pub controller : PublicKey
controller = ed25519 (20 ∷ [])

abbrev pub sensor : PublicKey
sensor = ed25519 (30 ∷ [])

abbrev pub viewer : PublicKey
viewer = ed25519 (40 ∷ [])

abbrev pub add_sensor : List RequestType
add_sensor = order (add_node (text "sensor") sensor) ∷ []

abbrev pub body : BodyData
body = record { req = add_sensor; sign = []; user_pk = admin; timestamp = 7 }

abbrev pub sample_block : Block
sample_block = record { hash = 1 ∷ []; body = 1 ∷ [] }

abbrev pub toy : External
toy = record {
  sha256 = λ b. b;
  verify = λ k message sig. ok (same message sig);
  public_key = record { to_vec = λ k. ok (key_bytes k); from_slice = λ b. ok (ed25519 b) };
  permissions = record {
    to_vec = λ p. ok (map permission_code p);
    from_slice = λ b. ok (root ∷ []);
  };
  master_config = constant master_config;
  node_config = constant node_config;
  requests = constant add_sensor;
  body_data = constant body;
  block = constant sample_block;
  report = constant (record { contents = []; timestamp = 9 });
  null_i64 = ok (pos 0);
  foreign_keys = true;
}

abbrev pub db : Database
db = record {
  users =
      record {
        id = 1;
        name = text "root";
        public_key = 10 ∷ [];
        permissions = 0 ∷ [];
        active = true;
        last_access = none;
      }
      ∷ record {
        id = 2;
        name = text "viewer";
        public_key = 40 ∷ [];
        permissions = 2 ∷ [];
        active = true;
        last_access = none;
      }
      ∷ [];
  chain = record { id = pos 0; contents = 1 ∷ []; hash = 5 ∷ [] } ∷ [];
  nodes =
      record {
        id = 1;
        name = text "controller0";
        public_key = 20 ∷ [];
        master_node = true;
        conf = text "default";
        vote_weight = some 1;
      }
      ∷ [];
  peer_ids = [];
  stats = [];
  configs = record { name = text "default"; master_conf = 1 ∷ []; node_conf = 1 ∷ [] } ∷ [];
}

-- Only the one block is written as a message.
abbrev net_to_vec : NetData → Fallible Bytes
net_to_vec (NetData.block b) =
    if same b.hash (1 ∷ []) && same b.body (1 ∷ []) then ok (2 ∷ []) else err codec
net_to_vec (NetData.vote h v) = err codec
net_to_vec (NetData.archive_block a) = err codec
net_to_vec (NetData.serial_vote i h v) = err codec

abbrev pub net : Codec NetData
net = record { to_vec = net_to_vec; from_slice = λ _. ok (NetData.block sample_block) }

pub net-RoundTrips : RoundTrips net
net-RoundTrips (NetData.block b) bytes h =
    ground (arith, same→eq b.hash (1 ∷ []), same→eq b.body (1 ∷ []))
net-RoundTrips (NetData.vote h v) bytes e = cc
net-RoundTrips (NetData.archive_block a) bytes e = cc
net-RoundTrips (NetData.serial_vote i h v) bytes e = cc

-- No other master node can be reached, and no other task runs.
abbrev pub alone : ℕ → Attempt
alone n = record { answer = insufficient_peers; votes_window = λ m. m; sleep = λ m. m }

pub alone-KeepsU8 : KeepsU8 alone
alone-KeepsU8 = record { window = λ n m h. h; sleep = λ n m h. h }

pub alone-KeepsChain : KeepsChain alone
alone-KeepsChain = record { window = λ n m. refl; sleep = λ n m. refl }

abbrev pub master : Master
master = record {
  db = db;
  conf = record { master = master_config; node = node_config };
  vote = 1;
  pending = [];
  approved = [];
  candidates = [];
  outbox = [];
  timers = [];
  running = true;
}
