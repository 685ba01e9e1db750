-- ===== src/Tests/Replicas.antt =====
-- A client that follows a master node.
use pfe_development_of_a_mon.Prelude.{
  ◌≡◌, inl, inr, refl, some, none, text, [], ◌∷◌, ◌++◌, ◌&&◌, pos, same, same→eq, if◌then◌else◌,
  Fallible, ok, err, codec, arith, Bytes, List,
}
use pfe_development_of_a_mon.Proto.Types.{Block, BodyData}
use pfe_development_of_a_mon.Proto.External.{External}
use pfe_development_of_a_mon.Database.Users.{get_user_with_pubkey, entity_with_pubkey_exists}
use pfe_development_of_a_mon.Database.Chain.{add_new}
use pfe_development_of_a_mon.Verify.Check.{
  verify_req, verify_orders, verify_order, check_entity, check_authority,
}
use pfe_development_of_a_mon.Consensus.Submit.{serialize_block}
use pfe_development_of_a_mon.Consensus.Append.{RoundTrips}
use pfe_development_of_a_mon.Interpret.Shared.{core}
use pfe_development_of_a_mon.Client.Sync.{RequestBlock, Replica, authenticate, handle_blocks}
use pfe_development_of_a_mon.Serve.Stream.{send_blocks}
use pfe_development_of_a_mon.Serve.Batches.{joined}
use pfe_development_of_a_mon.Replication.Commits.{Entry, sent, play, IsCommitted}
use pfe_development_of_a_mon.Replication.Started.{new-handle_blocks}
use pfe_development_of_a_mon.Proto.Types.{RequestStatus}
use pfe_development_of_a_mon.Proto.External.{Codec}
use pfe_development_of_a_mon.Serve.Requests.{request_status}
use pfe_development_of_a_mon.Database.Chain.{get_last_block_height}
use pfe_development_of_a_mon.Database.Reports.{get_last_stats_timestamp}
use pfe_development_of_a_mon.Client.Channel.{
  ClientRequest, ClientResponse, Link, new_link, Call, Event, on_call, step, run,
}
use pfe_development_of_a_mon.Client.Start.{new, last_height, last_timestamp, address, split, greet}
use pfe_development_of_a_mon.Client.Answers.{answers_on}
use pfe_development_of_a_mon.Client.Waits.{run-answered}
use pfe_development_of_a_mon.Tests.Sample.{toy, constant, net, master, body, db, viewer}

abbrev second : Block
second = record { hash = 5 ∷ 1 ∷ []; body = 1 ∷ [] }

abbrev signed : BodyData
signed = record body { sign = 1 ∷ [] }

-- Only the second block is written.
abbrev two : External
two = record toy {
  body_data = constant signed;
  block = record {
    to_vec =
        λ b. if same b.hash (5 ∷ 1 ∷ []) && same b.body (1 ∷ []) then ok (3 ∷ []) else err codec;
    from_slice = λ _. ok second;
  };
}

two-RoundTrips : RoundTrips two.block
two-RoundTrips b bytes h = ground (arith, same→eq b.hash (5 ∷ 1 ∷ []), same→eq b.body (1 ∷ []))

abbrev entry : Entry
entry = record {
  body = signed;
  height = 1;
  vhash = none;
  seed = 5 ∷ [];
  contents = 3 ∷ [];
  hash = 5 ∷ 1 ∷ [];
}

entry-IsCommitted : IsCommitted two net master entry
unfolding serialize_block same authenticate get_user_with_pubkey verify_req verify_orders
    verify_order check_entity check_authority entity_with_pubkey_exists add_new
entry-IsCommitted = record {
  bytes = 1 ∷ [];
  written = refl;
  read = refl;
  serialized = refl;
  fits = omega arith;
  authentic = inr refl;
  row = record db {
    chain = db.chain ++ record { id = pos 1; contents = 3 ∷ []; hash = 5 ∷ 1 ∷ [] } ∷ [];
  };
  stored = refl;
}

abbrev one_each : List RequestBlock → Fallible Bytes
one_each blocks = ok (1 ∷ [])

abbrev requests : Codec ClientRequest
requests = record { to_vec = λ r. ok (8 ∷ []); from_slice = λ b. err codec }

abbrev responses : Codec ClientResponse
responses = record {
  to_vec = λ r. ok (9 ∷ []);
  from_slice = λ b. ok (ClientResponse.request (request_status RequestStatus.dup_req));
}

abbrev client : Replica
client = record { db = db; last = pos 0 }

abbrev link : Link
link = record new_link { peer = some (text "node"); sent = (text "node", 8 ∷ []) ∷ [] }

started :
    new two requests responses 1 (λ t. ok tt) db (text "10.0.0.1:80") viewer (text "node") 4
    ≡ ok (client, link)
unfolding new last_height last_timestamp address greet get_last_block_height
    get_last_stats_timestamp on_call split
started = refl

abbrev messages : List (List RequestBlock)
messages =
    (send_blocks one_each (play two net master (entry ∷ [])).db
      (record { height = pos 0; sent = [] })).sent

new-handle_blocks_example :
    (joined messages ≡ sent entry ∷ [])
    × (core (handle_blocks two client (joined messages)).0.db
        ≡ core (play two net master (entry ∷ [])).db)
new-handle_blocks_example =
    new-handle_blocks two net one_each requests responses 1 (λ t. ok tt) (λ m. refl) two-RoundTrips
      db (text "10.0.0.1:80") viewer (text "node") 4 client link started master refl
      (omega arith, tt) 1 entry [] (omega arith) (omega arith, entry-IsCommitted, tt)

-- Another order is made in between, and the same answer comes again.
abbrev asked : Link
asked = run requests responses new_link (Event.connection_established (text "node") ∷ [])

run-answered_example :
    (answers_on 0
        (run requests responses
          (step requests responses asked (Event.call 4 (Call.send_order (text "node") (8 ∷ []))))
          (Event.call 5 (Call.send_order (text "node") (8 ∷ [])) ∷ [])).delivered
      ≡ [])
    × (answers_on 0
          (run requests responses
            (step requests responses
              (run requests responses
                (step requests responses asked
                  (Event.call 4 (Call.send_order (text "node") (8 ∷ []))))
                (Event.call 5 (Call.send_order (text "node") (8 ∷ [])) ∷ []))
              (Event.answer (text "node") 4 (9 ∷ [])))
            (Event.answer (text "node") 4 (9 ∷ []) ∷ [])).delivered
        ≡ request_status RequestStatus.dup_req ∷ [])
unfolding run step
run-answered_example =
    run-answered requests responses (Event.connection_established (text "node") ∷ []) 4
      (text "node") (8 ∷ []) (Event.call 5 (Call.send_order (text "node") (8 ∷ [])) ∷ [])
      (text "node") (9 ∷ []) (request_status RequestStatus.dup_req)
      (Event.answer (text "node") 4 (9 ∷ []) ∷ []) refl (refl, tt) (inl refl)
