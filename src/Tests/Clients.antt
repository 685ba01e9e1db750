-- ===== src/Tests/Clients.antt =====
-- The texts of keys and objects, and the sessions of a client.
use pfe_development_of_a_mon.Prelude.{
  ℕ, ◌+◌, ◌-◌, ◌≡◌, ◌⊎◌, ◌↔◌, refl, ap, true, Option, none, some, List, [], ◌∷◌, ◌++◌, map,
  replicate, Bytes, Text, text, same, same_refl, All, ok, err, refused, arith,
}
use pfe_development_of_a_mon.Stats.Types.{
  CpuOid, MemoryOid, NetOid, StorageOid, Oid, VarValue, DataType,
}
use pfe_development_of_a_mon.Stats.Oids.{net_oids, storage_oids, net_eq, storage_eq}
use pfe_development_of_a_mon.Stats.Usage.{
  net_entry, storage_entry, Floats, CpuLoad, Memory, Interface, NetworkStats, Filesystem,
}
use pfe_development_of_a_mon.Proto.Types.{ed25519, root, BodyData, RequestStatus}
use pfe_development_of_a_mon.Proto.Keys.{parse_str, export, IsInline, parse_str-export}
use pfe_development_of_a_mon.Serve.Requests.{SessionUser, handle_request, request_status}
use pfe_development_of_a_mon.Verify.Soundness.{IsAllowedRequest}
use pfe_development_of_a_mon.Client.Oids.{index, parse_oid}
use pfe_development_of_a_mon.Client.Names.{key, parse_oid-Spells}
use pfe_development_of_a_mon.Client.Plot.{interpret_stats, row_point}
use pfe_development_of_a_mon.Client.Points.{name_of, interpret_stats-parse_oid, row_point_complete}
use pfe_development_of_a_mon.Client.Orders.{Session, public, Crates, pack_order, sign_order}
use pfe_development_of_a_mon.Client.Packing.{Signs, is_forwarded, handle_request-pack_order}
use pfe_development_of_a_mon.Terminal.Sessions.{
  list, new, connect_to, connected, manage, manage_all,
}
use pfe_development_of_a_mon.Terminal.Names.{IsDistinct, manage_all-IsDistinct, manage-new}
use pfe_development_of_a_mon.Terminal.Commands.{NodeArgs, Outside, Command, on_node, session}
use pfe_development_of_a_mon.Terminal.Sent.{Sends, Asks, session-Sends}
use pfe_development_of_a_mon.Tests.Sample.{toy, db, admin, master_config, node_config, add_sensor}

-- A code in which each byte is one character above the bracket.
abbrev shifted : Bytes → Text
shifted v = map (λ n. n + 42) v

abbrev unshifted : Text → Option Bytes
unshifted t = some (map (λ c. c - 42) t)

unshifted-shifted : (v : Bytes) → map (λ c. c - 42) (shifted v) ≡ v
unshifted-shifted [] = refl
unshifted-shifted (n ∷ v) = ground (arith, unshifted-shifted v)

shifted-IsInline : (v : Bytes) → IsInline (shifted v)
shifted-IsInline [] = tt
shifted-IsInline (n ∷ v) = ground (arith, shifted-IsInline v)

abbrev sevens : Bytes
sevens = replicate 32 7

parse_str-export_example :
    parse_str shifted unshifted (export shifted unshifted (ed25519 sevens) ++ text " ")
    ≡ ok (ed25519 sevens)
parse_str-export_example =
    parse_str-export shifted unshifted (λ v. ap some (unshifted-shifted v)) shifted-IsInline sevens
      (text " ") refl

-- No letter is small.
abbrev capitals : Text → Text
capitals t = t

parse_oid-Spells_example :
    parse_oid capitals (key (text "CPU") (text "IDLE")) ≡ ok (Oid.cpu (some CpuOid.idle))
unfolding same
parse_oid-Spells_example =
    parse_oid-Spells capitals (Oid.cpu (some CpuOid.idle)) (text "CPU") (text "IDLE")
      ((omega arith, refl), refl, ((omega arith, refl), refl))

abbrev digits : ℕ → Text
digits n = (n + 48) ∷ []

interpret_stats-parse_oid_example :
    map
      (λ p. parse_oid capitals (name_of p))
      (interpret_stats digits (record {
        contents =
            DataType.cpu ((CpuOid.user, VarValue.real_number 3) ∷ [])
            ∷ DataType.memory ((MemoryOid.used, VarValue.number 9) ∷ [])
            ∷ [];
        timestamp = 5;
      }))
    ≡ ok (Oid.cpu (some CpuOid.user)) ∷ ok (Oid.memory (some MemoryOid.used)) ∷ []
interpret_stats-parse_oid_example =
    interpret_stats-parse_oid capitals (λ t h. refl) digits
      ((CpuOid.user, VarValue.real_number 3) ∷ []) ((MemoryOid.used, VarValue.number 9) ∷ []) 5

abbrev interface : Interface
interface = record { name = text "eth0"; mac = none; is_up = true; ips = [] }

abbrev counters : NetworkStats
counters = record {
  rx_packets = 1;
  tx_packets = 2;
  rx_bytes = 3;
  tx_bytes = 4;
  rx_errors = 5;
  tx_errors = 6;
}

abbrev volume : Filesystem
volume = record {
  fs_mounted_from = text "/dev/sda1";
  fs_type = text "ext4";
  avail = 1;
  total = 2;
  files_total = 3;
  files_avail = 4;
}

abbrev show : VarValue → Text
show (VarValue.str t) = t
show (VarValue.number n) = digits n
show _ = []

row_point_complete_example :
    (row_point show net_eq NetOid.rx_bytes NetOid.name
        (map (net_entry (text "eth0") interface counters) net_oids)
        none
        none
      ≡ (digits 3, some (text "eth0")) ∷ [])
    × (row_point show storage_eq StorageOid.free_nodes StorageOid.name
          (map (storage_entry volume) storage_oids)
          none
          none
        ≡ [])
row_point_complete_example =
    row_point_complete show (text "eth0") interface counters volume NetOid.rx_bytes
      StorageOid.free_nodes

abbrev keys : Bytes
keys = replicate 32 0 ++ 10 ∷ []

abbrev crates : Crates
crates = record { to_base58 = shifted; from_base58 = unshifted; sign = λ keys' message. ok message }

crates-Signs : Signs toy crates
crates-Signs keys' message sig h =
    let e : message ≡ sig = cc in rw (← e) (ap ok (same_refl message))

abbrev client_sessions : List Session
client_sessions = record { name = text "home"; host = text "10.0.0.1:80"; keys = keys } ∷ []

abbrev admins : List SessionUser
admins = record { peer = text "peer"; pubkey = admin; permissions = root ∷ [] } ∷ []

abbrev submit_none : BodyData → Option RequestStatus
submit_none b = none

handle_request-pack_order_example :
    (is_forwarded (
        handle_request toy submit_none 7 db admins
          (text "peer")
          (record { req = add_sensor; sign = 1 ∷ [] }))
      ≡ true)
    ↔ All (IsAllowedRequest toy db admin (root ∷ [])) add_sensor
unfolding same pack_order sign_order public
handle_request-pack_order_example =
    handle_request-pack_order toy submit_none 7 db admins (text "peer") crates crates-Signs
      client_sessions 0 (record { name = text "home"; host = text "10.0.0.1:80"; keys = keys }) refl
      add_sensor (record { req = add_sensor; sign = 1 ∷ [] }) refl
      (record { peer = text "peer"; pubkey = admin; permissions = root ∷ [] }) refl refl

manage_all-IsDistinct_example :
    IsDistinct (manage_all [] (new (text "a:1") (text "home") keys (ok tt) ∷ list ∷ []))
manage_all-IsDistinct_example =
    manage_all-IsDistinct (new (text "a:1") (text "home") keys (ok tt) ∷ list ∷ []) [] tt

manage-new_example :
    let after =
      manage_all
        (manage client_sessions (new (text "a:1") (text "work") keys (ok tt))).0
        (list ∷ []) in
    let made : Session = record { name = text "work"; host = text "a:1"; keys = keys } in
    (manage after (connect_to (text "work")) ≡ (after, ok (connected (text "work") 1 (text "a:1"))))
    × (index after 1 ≡ ok made)
unfolding same
manage-new_example = manage-new client_sessions (text "a:1") (text "work") keys (list ∷ []) refl

abbrev outside : Outside
outside = record {
  execute = λ r. ok (request_status RequestStatus.ok);
  get_stats = λ k o. err refused;
  write_config = λ name c. ok tt;
  read_config = λ name. ok (record { master = master_config; node = node_config });
  decimal = digits;
  show = show;
  uppercase = capitals;
}

abbrev home : Session
home = record { name = text "home"; host = text "10.0.0.1:80"; keys = keys }

abbrev get_idle : Command
get_idle =
    on_node
      (NodeArgs.get (export shifted unshifted (ed25519 sevens)) (key (text "CPU") (text "IDLE")))

session-Sends_example :
    let run = session toy outside crates client_sessions 0 db get_idle in
    Sends toy crates home run ⊎ Asks toy outside crates client_sessions 0 get_idle run
session-Sends_example = session-Sends toy outside crates client_sessions 0 home refl db get_idle

abbrev floats : Floats
floats = record { sub = λ a b. a - b; mul = λ a b. a }

abbrev load : CpuLoad
load = record { user = 1; nice = 2; system = 3; interrupt = 4; idle = 5 }

abbrev memory : Memory
memory = record { total = 8; free = 2 }
