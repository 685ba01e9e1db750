-- ===== src/Tests/Links.antt =====
-- A client that is disconnected.
use pfe_development_of_a_mon.Prelude.{
  same, ◌≡◌, refl, true, none, some, List, [], ◌∷◌, text, ok, err, codec, length, ◌≤◌, ◌+◌,
}
use pfe_development_of_a_mon.Proto.Types.{RequestStatus}
use pfe_development_of_a_mon.Client.Channel.{ClientRequest}
use pfe_development_of_a_mon.Serve.Requests.{session_of, verify_user_permissions, check_request}
use pfe_development_of_a_mon.Serve.Links.{Outside, Server}
use pfe_development_of_a_mon.Serve.Handling.{
  Event, connection_closed, request, request_task, session_task, run, step,
}
use pfe_development_of_a_mon.Serve.Sessions.{open_session, session_user, insert_session}
use pfe_development_of_a_mon.Database.Users.{get_user_with_pubkey, entity_with_pubkey_exists}
use pfe_development_of_a_mon.Verify.Check.{verify_req, verify_order}
use pfe_development_of_a_mon.Serve.Closed.{run-closed}
use pfe_development_of_a_mon.Serve.Shut.{handed_on}
use pfe_development_of_a_mon.Tests.Sample.{toy, db, admin, body}

-- Every request bears one order of the administrator.
abbrev asked : ClientRequest
asked = ClientRequest.request (record { req = body.req; sign = 1 ∷ [] })

abbrev outside : Outside
outside = record {
  requests = record { to_vec = λ r. err codec; from_slice = λ b. ok asked };
  responses = record { to_vec = λ r. ok (1 ∷ []); from_slice = λ b. err codec };
  version = 1;
  same_version = λ v. true;
  valid_pk = λ peer pk. true;
  submit = λ b. some RequestStatus.ok;
  now = 5;
  peer_of = λ pk. err codec;
  live = λ peer oid. none;
}

abbrev greeted : Server
greeted = record {
  auth = [];
  sent = [];
  responses = [];
  left = [];
  ended = [];
  forwarded = [];
  starting = (text "peer", admin) ∷ [];
  tasks = [];
}

-- The client has its session, and for one request its user was looked up.
abbrev served : Server
served =
    run toy outside greeted
      (session_task db 0 ∷ request [] (text "peer") 0 ∷ request_task db 0 ∷ [])

abbrev asks_again : List Event
asks_again = request_task db 0 ∷ request [] (text "peer") 1 ∷ request_task db 0 ∷ []

abbrev closed : Server
closed = run toy outside served (connection_closed (text "peer") ∷ asks_again)

-- The request that was under way is handed on though the connection has ended.
closed-handed_on : handed_on (text "peer") closed ≡ 1
unfolding run step verify_user_permissions check_request open_session session_user
    get_user_with_pubkey same insert_session verify_req verify_order entity_with_pubkey_exists
closed-handed_on = refl

-- The task that makes the session may run when the client is gone.
session_of_a_gone_client :
    length (run toy outside greeted (connection_closed (text "peer") ∷ session_task db 0 ∷ [])).auth
    ≡ 1
unfolding run step open_session session_user get_user_with_pubkey same insert_session
session_of_a_gone_client = refl

run-closed_example :
    (session_of closed.auth (text "peer") ≡ none) × (handed_on (text "peer") closed ≤ 0 + 1)
unfolding run step verify_user_permissions check_request open_session session_user
    get_user_with_pubkey same insert_session verify_req verify_order entity_with_pubkey_exists
run-closed_example =
    run-closed toy outside served (text "peer") asks_again tt (refl, (refl, (refl, tt)))
