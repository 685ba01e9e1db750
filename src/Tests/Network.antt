-- ===== src/Tests/Network.antt =====
-- What passes between nodes and clients.
use pfe_development_of_a_mon.Prelude.{
  Option, text, ◌≡◌, refl, List, [], ◌∷◌, ℕ, negsuc, Bytes, Fallible, ok, some, true, Bool, ltb_ℤ,
  as_i64, ◌⊎◌,
}
use mathlib.Core.List.{Permᴰ}
use pfe_development_of_a_mon.Proto.Types.{BodyData, RequestStatus, root}
use pfe_development_of_a_mon.Serve.Requests.{SessionUser, Request, handle_request}
use pfe_development_of_a_mon.Serve.Forwarding.{Handles, handle_request-Handles}
use pfe_development_of_a_mon.Database.Chain.{get_last_block_height, get_blocks_from}
use pfe_development_of_a_mon.Consensus.Types.{vote_ok, vote_no, NetEvent}
use pfe_development_of_a_mon.Consensus.Events.{handle_incoming_data}
use pfe_development_of_a_mon.Consensus.Tally.{handle_incoming_data-votes, validity}
use pfe_development_of_a_mon.Consensus.Follower.{handle_incoming_data-idle}
use pfe_development_of_a_mon.Client.Sync.{RequestBlock, Replica, handle_block}
use pfe_development_of_a_mon.Client.Outcomes.{Outcome, handle_block-outcome}
use pfe_development_of_a_mon.Serve.Stream.{Session, send_blocks}
use pfe_development_of_a_mon.Serve.Latest.{IsLevel, Serves, send_blocks-Serves}
use pfe_development_of_a_mon.Gossip.Receive.{Receiver, on_block}
use pfe_development_of_a_mon.Gossip.Ballots.{Ends, on_block-Ends}
use pfe_development_of_a_mon.Tests.Sample.{admin, add_sensor, toy, net, master, db, sample_block}

abbrev in_favour : NetEvent
in_favour = NetEvent.vote (1 ∷ []) vote_ok 1

abbrev against : NetEvent
against = NetEvent.vote (1 ∷ []) vote_no 1

handle_incoming_data-votes_example :
    handle_incoming_data toy net master (in_favour ∷ against ∷ [])
    ≡ handle_incoming_data toy net master (against ∷ in_favour ∷ [])
handle_incoming_data-votes_example =
    handle_incoming_data-votes toy net master (in_favour ∷ against ∷ []) (against ∷ in_favour ∷ [])
      (validity (1 ∷ []) vote_ok 1, (validity (1 ∷ []) vote_no 1, tt)) (Permᴰ.swap refl refl)

abbrev timeout : NetEvent
timeout = NetEvent.approved_block_timeout 1 (5 ∷ []) (1 ∷ [])

handle_incoming_data-idle_example :
    let after = handle_incoming_data toy net master (timeout ∷ []) in
    (after.approved ≡ []) × (after.db ≡ db)
handle_incoming_data-idle_example = handle_incoming_data-idle toy net master (timeout ∷ []) refl

abbrev replica : Replica
replica = record { db = record db { chain = [] }; last = negsuc 0 }

abbrev first_block : RequestBlock
first_block = record { id = 0; body = 1 ∷ [] }

handle_block-outcome_example :
    Outcome toy replica first_block (handle_block toy replica first_block)
handle_block-outcome_example = handle_block-outcome toy replica first_block

abbrev ser : List RequestBlock → Fallible Bytes
ser m = ok (1 ∷ [])

abbrev session : Session
session = record { height = negsuc 0; sent = [] }

send_blocks-Serves_example :
    (IsLevel db session × (send_blocks ser db session ≡ session))
    ⊎ ((last : ℕ) × (get_last_block_height db ≡ ok (some last))
        × (ltb_ℤ (negsuc 0) (as_i64 last) ≡ true)
        × Serves (get_blocks_from db (negsuc 0)) session (send_blocks ser db session))
send_blocks-Serves_example = send_blocks-Serves ser (λ m. refl) db session (refl, tt)

abbrev accepts : ℕ → Bool
accepts n = true

abbrev receiver : Receiver
receiver = record { node = master; queue = [] }

on_block-Ends_example :
    Ends toy net accepts receiver sample_block (on_block toy net accepts sample_block receiver)
on_block-Ends_example = on_block-Ends toy net accepts receiver sample_block

abbrev answer_all : BodyData → Option RequestStatus
answer_all b = some RequestStatus.ok

abbrev sessions : List SessionUser
sessions = record { peer = text "peer"; pubkey = admin; permissions = root ∷ [] } ∷ []

abbrev request : Request
request = record { req = add_sensor; sign = 1 ∷ [] }

handle_request-Handles_example :
    Handles toy answer_all 7 db sessions
      (text "peer")
      request
      (handle_request toy answer_all 7 db sessions (text "peer") request)
handle_request-Handles_example =
    handle_request-Handles toy answer_all 7 db sessions (text "peer") request
