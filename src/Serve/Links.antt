-- ===== src/Serve/Links.antt =====
-- The connections of the clients: the state of the loop and its calls
-- (nyumt-node/src/master_serve/activity.rs), `send_response` and the answer to `ClientRequest::GetStats`
-- (nyumt-node/src/master_serve/req_resp.rs).
use pfe_development_of_a_mon.Prelude.{
  ℕ, zero, suc, Bool, not, Option, none, some, List, [], ◌∷◌, ◌++◌, same, retain, Bytes, Text,
  Fallible, ok, err, panicked,
}
use pfe_development_of_a_mon.Stats.Types.{Oid}
use pfe_development_of_a_mon.Proto.Types.{PublicKey, RequestStatus, BodyData}
use pfe_development_of_a_mon.Proto.External.{Codec}
use pfe_development_of_a_mon.Client.Channel.{ClientRequest, ClientResponse}
use pfe_development_of_a_mon.Serve.Requests.{Request, SessionUser, session_of, request_status}

-- A request on its way through `handle`: its peer had a session, whose user is looked up next; or the user
-- was looked up, and `spawn_blocking` verifies the request and hands it on. The number is the channel for
-- the response.
pub data Task : Type 0 where
  admitted : Text → Request → ℕ → Task
  checking : Text → Option SessionUser → Request → ℕ → Task

-- A task of the list, and the others.
unfoldable pub take_at {ℓ} : {A : Type ℓ} → ℕ → List A → Option (A × List A)
take_at n [] = none
take_at zero (t ∷ tasks) = some (t, tasks)
take_at (suc n) (t ∷ tasks) = elim (take_at n tasks) [ none ↦ none | some v ↦ some (v.0, t ∷ v.1) ]

-- The sessions, and what the loop has done: the requests and the responses that it has handed to the
-- swarm, the peers that it has left, the sessions that it has ended, and the orders that were handed on
-- to `sync`. In `starting` are the peers whose greeting was answered and whose session is still to be made:
-- a task of its own does that, which may run after the connection has ended. In `tasks` are the requests
-- that are under way, which may be handed on after the connection has ended.
pub record Server : Type 0 where
  pub auth : List SessionUser
  pub sent : List (Text × Bytes)
  pub responses : List (ℕ × Bytes)
  pub left : List Text
  pub ended : List SessionUser
  pub forwarded : List (Text × BodyData)
  pub starting : List (Text × PublicKey)
  pub tasks : List Task

-- `SwarmHandlerRequest`.
pub data Call : Type 0 where
  report stat : Text → Bytes → Call
  disconnect_peer : Text → Call
  error : Text → Call
  response : ℕ → Bytes → Call

abbrev pub send_request : Text → Bytes → Server → Server
send_request peer bytes s = record s { sent = s.sent ++ (peer, bytes) ∷ [] }

abbrev pub leave : Text → Server → Server
leave peer s = record s { left = s.left ++ peer ∷ [] }

-- `auth.remove(&peer_id)` and `v.disconnected.send(())`.
unfoldable pub end_session : Text → Server → Server
end_session peer s = elim (session_of s.auth peer) [
  | none ↦ s
  | some v ↦ record s {
    auth = retain (λ u. not (same u.peer peer)) s.auth;
    ended = s.ended ++ v ∷ [];
  }
]

module _ (responses : Codec ClientResponse) where
  -- The arms of `swarm_event_handler` on a call.
  unfoldable pub on_call : Call → Server → Server
  on_call (Call.response channel bytes) s = record s {
    responses = s.responses ++ (channel, bytes) ∷ [];
  }
  on_call (Call.report peer bytes) s = send_request peer bytes s
  on_call (Call.stat peer bytes) s = send_request peer bytes s
  on_call (Call.disconnect_peer peer) s = leave peer s
  on_call (Call.error peer) s = elim (responses.to_vec ClientResponse.error) [
    | ok v ↦ send_request peer v s
    | err _ ↦ leave peer s
  ]

  -- What cannot be written is answered with `Error`, which has to be written then.
  unfoldable pub send_response : ClientResponse → ℕ → Server → Fallible Server
  unfolding on_call
  send_response resp channel s = elim (responses.to_vec resp) [
    | ok v ↦ ok (on_call (Call.response channel v) s)
    | err _ ↦ elim (responses.to_vec ClientResponse.error) [
      | ok v ↦ ok (on_call (Call.response channel v) s)
      | err _ ↦ err panicked
    ]
  ]

  -- A task that stops has done nothing.
  abbrev pub or_stop : Server → Fallible Server → Server
  or_stop s (ok s') = s'
  or_stop s (err _) = s

-- `peer_of` decodes a key and names its peer; `live` is what `sync` answers for it, `none` if the channel
-- is closed.
module _ (peer_of : PublicKey → Fallible Text) (live : Text → Oid → Option RequestStatus) where
  unfoldable pub on_get_stats : PublicKey → Oid → ClientResponse
  on_get_stats pk oid = elim (peer_of pk) [
    | err _ ↦ ClientResponse.error
    | ok peer ↦ elim (live peer oid) [
      | some v ↦ ClientResponse.get_stats (request_status v)
      | none ↦ ClientResponse.error
    ]
  ]

-- What stands around the handlers: the node's version, the comparisons of `Hello`, `submit` and `now` of
-- `check_request` (one time for the run), and what `on_get_stats` takes.
pub record Outside : Type 0 where
  pub requests : Codec ClientRequest
  pub responses : Codec ClientResponse
  pub version : ℕ
  pub same_version : ℕ → Bool
  pub valid_pk : Text → PublicKey → Bool
  pub submit : BodyData → Option RequestStatus
  pub now : ℕ
  pub peer_of : PublicKey → Fallible Text
  pub live : Text → Oid → Option RequestStatus
