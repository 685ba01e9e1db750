-- ===== src/Serve/Requests.antt =====
-- The arms `ClientRequest::Hello` and `ClientRequest::Request` of `handle`, and
-- `verify_user_permissions` (nyumt-node/src/master_serve/req_resp.rs).
use pfe_development_of_a_mon.Prelude.{
  ℕ, Bool, true, false, not, Option, none, some, List, [], ◌&&◌, any, find, is_empty, same,
  if◌then◌else◌, Bytes, Text, ok, err,
}
use pfe_development_of_a_mon.Proto.Types.{
  PublicKey, Permissions, RequestType, BodyData, RequestError, RequestStatus,
}
use pfe_development_of_a_mon.Proto.External.{External, contains}
use pfe_development_of_a_mon.Database.Tables.{Database}
use pfe_development_of_a_mon.Verify.Check.{Verdict, verify_req}

-- An entry of `auth`: the user behind a peer (`User` of types.rs, without its channel and its name).
pub record SessionUser : Type 0 where
  pub peer : Text
  pub pubkey : PublicKey
  pub permissions : Permissions

-- `Request` and `RequestResp` of nyumt-proto/src/api.rs.
pub record Request : Type 0 where
  pub req : List RequestType
  pub sign : Bytes

pub data RequestResp : Type 0 where
  request_error : RequestError → RequestResp
  request_status : RequestStatus → RequestResp

abbrev pub session_of : List SessionUser → Text → Option SessionUser
session_of auth peer = find (λ u. same u.peer peer) auth

-- Any one of the permissions is enough, and none is needed if none is listed.
unfoldable pub verify_user_permissions : List SessionUser → Text → Permissions → Bool
verify_user_permissions auth peer permissions = elim (session_of auth peer) [
  | none ↦ false
  | some v ↦ if is_empty permissions then true else any (contains v.permissions) permissions
]

-- The answer to a greeting: an error and the end of the connection, or the node's version and a
-- session for the key that the peer has named. `same_version` is the comparison of the versions,
-- `valid_pk` whether the key is that of the peer.
pub data Greeting : Type 0 where
  disconnected : Greeting
  session_for : PublicKey → Greeting

unfoldable pub on_hello : Bool → Bool → PublicKey → Greeting
on_hello same_version valid_pk pk =
    if not same_version && valid_pk then disconnected else session_for pk

-- The response that is sent, if one is, and the body that is handed to `sync`, if one is.
pub record Handled : Type 0 where
  pub response : Option RequestResp
  pub forwarded : Option BodyData

abbrev pub reply : RequestResp → Handled
reply r = record { response = some r; forwarded = none }

abbrev pub failed : Handled
failed = reply (request_status RequestStatus.node_error)

-- `submit` is what comes back over the channel, `none` if it is closed; `now` is the clock.
module _ (x : External) (submit : BodyData → Option RequestStatus) (now : ℕ) where
  -- `forwarded` is what was put into the channel to `sync`, also where nobody takes it out again because the
  -- node is stopping.
  unfoldable pub forward : BodyData → Handled
  forward body = elim (submit body) [
    | some v ↦ record { response = some (request_status v); forwarded = some body }
    | none ↦ record {
      response = some (request_status RequestStatus.node_error);
      forwarded = some body;
    }
  ]

  unfoldable pub respond : Verdict → Request → SessionUser → Handled
  unfolding forward
  respond (ok (some e)) r user = reply (request_error e)
  respond (ok none) r user =
      forward (record { req = r.req; sign = r.sign; user_pk = user.pubkey; timestamp = now })
  respond (err _) r user = failed

  unfoldable pub check_request : Database → Request → SessionUser → Handled
  unfolding respond
  check_request db r user = elim (x.requests.to_vec r.req) [
    | err _ ↦ failed
    | ok v ↦ respond (verify_req x db v r.req user.pubkey user.permissions r.sign) r user
  ]

  -- A peer without a session gets no response.
  unfoldable pub handle_request : Database → List SessionUser → Text → Request → Handled
  unfolding check_request verify_user_permissions
  handle_request db auth peer r =
      if verify_user_permissions auth peer []
      then elim (session_of auth peer) [ none ↦ failed | some user ↦ check_request db r user ]
      else record { response = none; forwarded = none }
