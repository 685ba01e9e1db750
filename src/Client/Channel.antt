-- ===== src/Client/Channel.antt =====
-- The connection of a client (nyumt-client-core/src/client/{activity,behavior,req_resp}.rs): its event
-- loop, the orders that wait for an answer, and what it does with the messages of the master node.
-- `ClientRequest`, `ClientResponse` and `ReqStat` are those of nyumt-proto/src/api.rs.
use pfe_development_of_a_mon.Prelude.{
  ℕ, zero, suc, ◌+◌, Bool, true, false, not, Option, none, some, List, [], ◌∷◌, ◌++◌, ◌==◌, find,
  retain, length, if◌then◌else◌, Bytes, Text, ℤ, Fallible, ok, err, panicked,
}
use pfe_development_of_a_mon.Stats.Types.{Oid}
use pfe_development_of_a_mon.Proto.Types.{PublicKey}
use pfe_development_of_a_mon.Proto.External.{Codec, External}
use pfe_development_of_a_mon.Client.Sync.{RequestBlock, Stat, Replica, handle_blocks, handle_stats}
use pfe_development_of_a_mon.Serve.Requests.{Request, RequestResp}

pub data ReqStat : Type 0 where
  good bad : ReqStat

pub record SessionSettings : Type 0 where
  pub last_request_height : ℤ
  pub last_timestamp : ℕ

-- A version is an `f64` in the program, here the number of its bits.
pub data ClientRequest : Type 0 where
  hello : ℕ → PublicKey → SessionSettings → ClientRequest
  block : List RequestBlock → ClientRequest
  stats : List Stat → ClientRequest
  request : Request → ClientRequest
  stat : List Stat → ClientRequest
  get_stats : PublicKey → Oid → ClientRequest

pub data ClientResponse : Type 0 where
  hi : ℕ → ClientResponse
  block stats : ReqStat → ClientResponse
  request : RequestResp → ClientResponse
  incompatible_version : ℕ → ClientResponse
  get_stats : RequestResp → ClientResponse
  error : ClientResponse

-- An entry of `resp`: the request's id, and the one-shot channel on which its answer is awaited.
pub record Waiting : Type 0 where
  pub id : ℕ
  pub ticket : ℕ

-- What of `SwarmSettings` changes, and what the loop has done: the requests and the responses that it
-- has handed to the swarm, the peers that it has left, and the answers that it has delivered.
-- `channels` counts the one-shot channels for answers; `running` ends with the loop.
pub record Link : Type 0 where
  pub resp : List Waiting
  pub channels : ℕ
  pub peer : Option Text
  pub sent : List (Text × Bytes)
  pub responses : List (ℕ × Bytes)
  pub left : List Text
  pub delivered : List (ℕ × RequestResp)
  pub running : Bool
  pub disconnected : Bool

-- As `Client::new` makes it.
abbrev pub new_link : Link
new_link = record {
  resp = [];
  channels = 0;
  peer = none;
  sent = [];
  responses = [];
  left = [];
  delivered = [];
  running = true;
  disconnected = false;
}

-- `SwarmHandlerRequest`.
pub data Call : Type 0 where
  hello : Text → Bytes → Call
  send_order : Text → Bytes → Call
  disconnect_peer : Text → Call
  error : Text → Call
  response : ℕ → Bytes → Call

-- What wakes the loop or the behaviour up: the end that the user asks for, a call with the request id
-- that the swarm gives to what is sent for it, the swarm's events, and the answer to a request.
pub data Event : Type 0 where
  closing : Event
  call : ℕ → Call → Event
  connection_established : Text → Event
  connection_closed : Event
  answer : Text → ℕ → Bytes → Event

-- `HashMap::insert`, `remove` and the look-up.
abbrev pub other_than : ℕ → Waiting → Bool
other_than id w = not (w.id == id)

abbrev pub waiting_for : ℕ → Waiting → Bool
waiting_for id w = w.id == id

abbrev pub send_request : Text → Bytes → Link → Link
send_request peer bytes l = record l { sent = l.sent ++ (peer, bytes) ∷ [] }

abbrev pub leave : Text → Link → Link
leave peer l = record l { left = l.left ++ peer ∷ [] }

-- The answer goes to the channel that waits for it, if one does.
unfoldable pub deliver : ℕ → RequestResp → Link → Link
deliver id status l = elim (find (waiting_for id) l.resp) [
  | none ↦ l
  | some w ↦ record l {
    resp = retain (other_than id) l.resp;
    delivered = l.delivered ++ (w.ticket, status) ∷ [];
  }
]

module _ (requests : Codec ClientRequest) (responses : Codec ClientResponse) where
  -- The arms of `swarm_event_handler` on a call.
  unfoldable pub on_call : ℕ → Call → Link → Link
  on_call id (Call.response channel data') l = record l {
    responses = l.responses ++ (channel, data') ∷ [];
  }
  on_call id (Call.hello peer bytes) l = send_request peer bytes l
  on_call id (Call.send_order peer order) l = record (send_request peer order l) {
    resp = record { id = id; ticket = l.channels } ∷ retain (other_than id) l.resp;
    channels = l.channels + 1;
  }
  on_call id (Call.disconnect_peer peer) l = leave peer l
  on_call id (Call.error peer) l = elim (responses.to_vec ClientResponse.error) [
    | ok v ↦ send_request peer v l
    | err _ ↦ leave peer l
  ]

  -- A call after the loop's end stops the task that makes it.
  abbrev pub make_call : ℕ → Call → Link → Link
  make_call id c l = if l.running then on_call id c l else l

  -- `handle_resp`.
  unfoldable pub handle_resp : Text → ℕ → Bytes → Link → Link
  unfolding on_call deliver
  handle_resp peer id bytes l = elim (responses.from_slice bytes) [
    | err _ ↦ l
    | ok (ClientResponse.incompatible_version v) ↦ make_call id (Call.disconnect_peer peer) l
    | ok (ClientResponse.request status) ↦ deliver id status l
    | ok (ClientResponse.get_stats status) ↦ deliver id status l
    | ok (ClientResponse.hi v) ↦ l
    | ok (ClientResponse.block s) ↦ l
    | ok (ClientResponse.stats s) ↦ l
    | ok ClientResponse.error ↦ l
  ]

  unfoldable pub step : Link → Event → Link
  unfolding on_call handle_resp
  step l closing = record l { running = false }
  step l (call id c) = make_call id c l
  step l (connection_established peer) = if l.running then record l { peer = some peer } else l
  step l connection_closed =
      if l.running then record l { running = false; disconnected = true } else l
  step l (answer peer id bytes) = handle_resp peer id bytes l

  unfoldable pub run : Link → List Event → Link
  run l [] = l
  run l (e ∷ es) = run (step l e) es

  -- `respond`, which stops the task after the loop's end.
  abbrev respond : ℕ → Bytes → Link → Fallible Link
  respond channel bytes l =
      if l.running then ok (on_call 0 (Call.response channel bytes) l) else err panicked

  -- What cannot be written is answered with `Error`, which has to be written then.
  unfoldable pub send_response : ClientResponse → ℕ → Link → Fallible Link
  unfolding on_call
  send_response resp channel l = elim (responses.to_vec resp) [
    | ok v ↦ respond channel v l
    | err _ ↦ elim (responses.to_vec ClientResponse.error) [
      | ok v ↦ respond channel v l
      | err _ ↦ err panicked
    ]
  ]

  abbrev leave_times : ℕ → Text → Link → Link
  leave_times zero peer l = l
  leave_times (suc n) peer l = leave_times n peer (make_call 0 (Call.disconnect_peer peer) l)

  -- `handle`: the master node is answered first, and left once for each block that is refused.
  unfoldable pub handle : External → Bytes → Text → ℕ → Replica × Link → Replica × Link
  unfolding send_response on_call
  handle x bytes peer channel (r, l) = elim (requests.from_slice bytes) [
    | err _ ↦ (r, l)
    | ok (ClientRequest.block blocks) ↦ elim (send_response (ClientResponse.block good) channel l) [
      | err _ ↦ (r, l)
      | ok answered ↦
          let (r', errors) = handle_blocks x r blocks in
          (r', leave_times (length errors) peer answered)
    ]
    | ok (ClientRequest.stats reports) ↦
        elim (send_response (ClientResponse.stats good) channel l) [
          | err _ ↦ (r, l)
          | ok answered ↦ (record r { db = handle_stats x r.db reports }, answered)
        ]
    | ok (ClientRequest.hello v k s) ↦ (r, l)
    | ok (ClientRequest.request q) ↦ (r, l)
    | ok (ClientRequest.stat s) ↦ (r, l)
    | ok (ClientRequest.get_stats k o) ↦ (r, l)
  ]
