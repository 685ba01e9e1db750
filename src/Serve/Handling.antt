-- ===== src/Serve/Handling.antt =====
-- `handle` (nyumt-node/src/master_serve/req_resp.rs), each step of which may find the sessions changed, and
-- the events of the loop of a master node for its clients (nyumt-node/src/master_serve/activity.rs).
use pfe_development_of_a_mon.Prelude.{
  ℕ, Bool, true, false, Option, none, some, List, [], ◌∷◌, ◌++◌, if◌then◌else◌, Bytes, Text, ok,
  err,
}
use pfe_development_of_a_mon.Proto.Types.{PublicKey, BodyData}
use pfe_development_of_a_mon.Proto.External.{External}
use pfe_development_of_a_mon.Database.Tables.{Database}
use pfe_development_of_a_mon.Client.Channel.{ClientRequest, ClientResponse}
use pfe_development_of_a_mon.Serve.Requests.{
  Greeting, disconnected, session_for, on_hello, Request, SessionUser, session_of, Handled, failed,
  check_request, verify_user_permissions,
}
use pfe_development_of_a_mon.Serve.Sessions.{open_session}
use pfe_development_of_a_mon.Serve.Links.{
  Task, admitted, checking, take_at, Server, Call, leave, end_session, on_call, send_response,
  or_stop, on_get_stats, Outside,
}

-- What happens: a call, the end of a connection, the handler of a request, the next step of any request
-- that is under way, or any one of the tasks that make the sessions; the last two on the tables as they are
-- then.
pub data Event : Type 0 where
  call : Call → Event
  connection_closed : Text → Event
  request : Bytes → Text → ℕ → Event
  request_task : Database → ℕ → Event
  session_task : Database → ℕ → Event

module _ (x : External) (o : Outside) where
  -- The beginning of `event_handler`, which leaves a peer that gets no session.
  unfoldable pub start_session : Database → Text → PublicKey → Server → Server
  start_session db peer pk s =
      let (auth, refused) = open_session x db peer pk s.auth in
      let after = record s { auth = auth } in if refused then leave peer after else after

  unfoldable pub start_some : Database → ℕ → Server → Server
  unfolding start_session take_at
  start_some db n s = elim (take_at n s.starting) [
    | none ↦ s
    | some v ↦ start_session db v.0.0 v.0.1 (record s { starting = v.1 })
  ]

  abbrev pub put_session : Text → PublicKey → Server → Server
  put_session peer pk s = record s { starting = s.starting ++ (peer, pk) ∷ [] }

  unfoldable pub greet : Greeting → Text → ℕ → Server → Server
  unfolding send_response on_call
  greet disconnected peer channel s =
      elim (send_response o.responses ClientResponse.error channel s) [
        | ok s' ↦ leave peer s'
        | err _ ↦ s
      ]
  greet (session_for pk) peer channel s =
      elim (send_response o.responses (ClientResponse.hi o.version) channel s) [
        | ok s' ↦ put_session peer pk s'
        | err _ ↦ s
      ]

  abbrev pub hand_on : Text → Option BodyData → Server → Server
  hand_on peer none s = s
  hand_on peer (some body) s = record s { forwarded = s.forwarded ++ (peer, body) ∷ [] }

  abbrev pub respond_if : Option ClientResponse → ℕ → Server → Server
  respond_if none channel s = s
  respond_if (some r) channel s = or_stop o.responses s (send_response o.responses r channel s)

  abbrev pub request_answer : Handled → Option ClientResponse
  request_answer h = elim h.response [ none ↦ none | some r ↦ some (ClientResponse.request r) ]

  abbrev pub put_task : Task → Server → Server
  put_task t s = record s { tasks = s.tasks ++ t ∷ [] }

  abbrev pub admit : Bool → Text → Request → ℕ → Server → Server
  admit true peer r channel s = put_task (admitted peer r channel) s
  admit false peer r channel s = s

  -- A user that is gone when it is looked up is an error of the node.
  abbrev pub check : Database → Option SessionUser → Request → Handled
  check db none r = failed
  check db (some user) r = check_request x o.submit o.now db r user

  unfoldable pub run_task : Database → Task → Server → Server
  unfolding check_request send_response
  run_task db (admitted peer r channel) s =
      put_task (checking peer (session_of s.auth peer) r channel) s
  run_task db (checking peer user r channel) s =
      let h = check db user r in respond_if (request_answer h) channel (hand_on peer h.forwarded s)

  unfoldable pub run_some : Database → ℕ → Server → Server
  unfolding run_task take_at
  run_some db n s = elim (take_at n s.tasks) [
    | none ↦ s
    | some v ↦ run_task db v.0 (record s { tasks = v.1 })
  ]

  unfoldable pub handle : Bytes → Text → ℕ → Server → Server
  unfolding greet send_response verify_user_permissions
  handle bytes peer channel s = elim (o.requests.from_slice bytes) [
    | err _ ↦ s
    | ok (ClientRequest.hello v pk settings) ↦
        greet (on_hello (o.same_version v) (o.valid_pk peer pk) pk) peer channel s
    | ok (ClientRequest.request r) ↦ admit (verify_user_permissions s.auth peer []) peer r channel s
    | ok (ClientRequest.get_stats pk oid) ↦
        respond_if (some (on_get_stats o.peer_of o.live pk oid)) channel s
    | ok (ClientRequest.block b) ↦ respond_if (some ClientResponse.error) channel s
    | ok (ClientRequest.stats b) ↦ respond_if (some ClientResponse.error) channel s
    | ok (ClientRequest.stat b) ↦ respond_if (some ClientResponse.error) channel s
  ]

  unfoldable pub step : Server → Event → Server
  unfolding handle on_call end_session start_some run_some
  step s (call c) = on_call o.responses c s
  step s (connection_closed peer) = end_session peer s
  step s (request bytes peer channel) = handle bytes peer channel s
  step s (request_task db n) = run_some db n s
  step s (session_task db n) = start_some db n s

  unfoldable pub run : Server → List Event → Server
  run s [] = s
  run s (e ∷ es) = run (step s e) es
