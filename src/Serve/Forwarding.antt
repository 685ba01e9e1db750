-- ===== src/Serve/Forwarding.antt =====
-- Which requests of clients go on to the master nodes.
use pfe_development_of_a_mon.Prelude.{
  ℕ, ◌≡◌, refl, ◌⊎◌, inl, inr, Option, Option-cases, none, some, List, Bytes, Text, Fallible-cases,
  ok,
}
use pfe_development_of_a_mon.Proto.Types.{BodyData, RequestError, RequestStatus}
use pfe_development_of_a_mon.Proto.External.{External}
use pfe_development_of_a_mon.Database.Tables.{Database}
use pfe_development_of_a_mon.Verify.Check.{accept, verify_req}
use pfe_development_of_a_mon.Serve.Requests.{
  SessionUser, Request, request_error, request_status, session_of, verify_user_permissions, Handled,
  forward, respond, check_request, handle_request,
}

-- The request was handed on, under the key of its session.
pub record IsForwarded (x : External) (submit : BodyData → Option RequestStatus) (now : ℕ)
    (db : Database) (auth : List SessionUser) (peer : Text) (r : Request) (h : Handled)
    : Type 0 where
  pub user : SessionUser
  pub session : session_of auth peer ≡ some user
  pub raw_req : Bytes
  pub written : x.requests.to_vec r.req ≡ ok raw_req
  pub accepted : verify_req x db raw_req r.req user.pubkey user.permissions r.sign ≡ accept
  pub body : BodyData
  pub made : body ≡ record { req = r.req; sign = r.sign; user_pk = user.pubkey; timestamp = now }
  pub forwarded : h.forwarded ≡ some body
  pub answered :
      ((v : RequestStatus) × (submit body ≡ some v) × (h.response ≡ some (request_status v)))
      ⊎ ((submit body ≡ none) × (h.response ≡ some (request_status RequestStatus.node_error)))

-- The request was not handed on, and the response does not say that it was.
pub data IsRejected (h : Handled) : Type 0 where
  silent : h.forwarded ≡ none → h.response ≡ none → IsRejected h
  reasoned :
      (e : RequestError) → h.forwarded ≡ none → h.response ≡ some (request_error e) → IsRejected h
  broken :
      h.forwarded ≡ none
      → h.response ≡ some (request_status RequestStatus.node_error)
      → IsRejected h

module _ (x : External) (submit : BodyData → Option RequestStatus) (now : ℕ) (db : Database)
    (auth : List SessionUser) (peer : Text) (r : Request) where
  abbrev pub Handles : Handled → Type 0
  Handles h = IsForwarded x submit now db auth peer r h ⊎ IsRejected h

  check_request-Handles :
      (user : SessionUser)
      → session_of auth peer ≡ some user
      → Handles (check_request x submit now db r user)
  unfolding check_request respond forward
  check_request-Handles user session = elim (Fallible-cases (x.requests.to_vec r.req)) [
    | inr (f, bad) ↦ rw (check_request, bad) (inr (broken refl refl))
    | inl (raw, written) ↦
        elim (Fallible-cases (verify_req x db raw r.req user.pubkey user.permissions r.sign)) [
          | inr (f, bad) ↦ rw (check_request, written, bad) (inr (broken refl refl))
          | inl (some e, refused) ↦
              rw (check_request, written, refused) (inr (reasoned e refl refl))
          | inl (none, accepted) ↦
              let body : BodyData = record {
                req = r.req;
                sign = r.sign;
                user_pk = user.pubkey;
                timestamp = now;
              } in
              elim (Option-cases (submit body)) [
                | inl closed ↦
                    rw (check_request, written, accepted, respond, forward, closed)
                      (inl (record {
                        user = user;
                        session = session;
                        raw_req = raw;
                        written = written;
                        accepted = accepted;
                        body = body;
                        made = refl;
                        forwarded = refl;
                        answered = inr (closed, refl);
                      }))
                | inr (v, back) ↦
                    rw (check_request, written, accepted, respond, forward, back)
                      (inl (record {
                        user = user;
                        session = session;
                        raw_req = raw;
                        written = written;
                        accepted = accepted;
                        body = body;
                        made = refl;
                        forwarded = refl;
                        answered = inl (v, back, refl);
                      }))
              ]
        ]
  ]

  -- A request of a client is handed on only if its peer has a session whose key has signed it and whose
  -- permissions allow each of its orders; it then bears the key of the session, and the client is told
  -- what came back. Else nothing is handed on, and the client hears nothing, the reason, or of an error
  -- of the node.
  pub handle_request-Handles : Handles (handle_request x submit now db auth peer r)
  unfolding handle_request verify_user_permissions
  handle_request-Handles = elim (Option-cases (session_of auth peer)) [
    | inl missing ↦ rw (handle_request, verify_user_permissions, missing) (inr (silent refl refl))
    | inr (user, session) ↦
        rw (handle_request, verify_user_permissions, session) (check_request-Handles user session)
  ]
