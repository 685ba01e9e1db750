-- ===== src/Client/Packing.antt =====
-- What becomes of a packed request (`pack_order` of nyumt-client-core/src/order.rs) at the master node.
use pfe_development_of_a_mon.Prelude.{
  ℕ, ◌≡◌, ◌↔◌, refl, Bool, true, false, Option, none, some, List, Bytes, Text, All, ok, >>=-eq-ok,
  Fallible-cases, inl, inr, arith,
}
use pfe_development_of_a_mon.Proto.Types.{RequestType, BodyData, RequestStatus}
use pfe_development_of_a_mon.Proto.External.{External}
use pfe_development_of_a_mon.Database.Tables.{Database}
use pfe_development_of_a_mon.Verify.Check.{accept, verify_req}
use pfe_development_of_a_mon.Verify.Soundness.{IsAllowedRequest, verify_req_iff}
use pfe_development_of_a_mon.Serve.Requests.{
  SessionUser, Request, session_of, Handled, forward, respond, check_request, handle_request,
  verify_user_permissions,
}
use pfe_development_of_a_mon.Client.Oids.{index}
use pfe_development_of_a_mon.Client.Orders.{Session, public, Crates, sign_order, pack_order}

-- A signature is right for the public half of the pair that has made it.
abbrev pub Signs : External → Crates → Type 0
Signs x crates =
    (keys message sig : Bytes)
    → crates.sign keys message ≡ ok sig
    → x.verify (public keys) message sig ≡ ok true

-- The request carries the orders, signed with the keys of the session.
pub record IsPacked (x : External) (crates : Crates) (s : Session) (ord : List RequestType)
    (r : Request) : Type 0 where
  pub carries : r.req ≡ ord
  pub raw : Bytes
  pub written : x.requests.to_vec ord ≡ ok raw
  pub signed : crates.sign s.keys raw ≡ ok r.sign

module _ (x : External) (crates : Crates) (sessions : List Session) (session_id : ℕ) (s : Session)
    (chosen : index sessions session_id ≡ ok s) where
  pub pack_order-IsPacked :
      (ord : List RequestType) (r : Request)
      → pack_order x crates sessions session_id ord ≡ ok r
      → IsPacked x crates s ord r
  unfolding pack_order sign_order
  pack_order-IsPacked ord r h =
      let (raw, written, h') = >>=-eq-ok (x.requests.to_vec ord) _ h in
      let (sig, signed, packed) = >>=-eq-ok (crates.sign s.keys raw) _ (rw chosen at h') in
      let same_req : ord ≡ r.req = cc in
      let same_sign : sig ≡ r.sign = cc in
      record { carries = cc; raw = raw; written = written; signed = rw (← same_sign) signed }

-- A body is handed on.
abbrev pub is_forwarded : Handled → Bool
is_forwarded h = elim h.forwarded [ none ↦ false | some _ ↦ true ]

module _ (x : External) (submit : BodyData → Option RequestStatus) (now : ℕ) (db : Database)
    (auth : List SessionUser) (peer : Text) where
  forward-forwarded : (body : BodyData) → is_forwarded (forward x submit now body) ≡ true
  unfolding forward
  forward-forwarded body = ground arith

  handle_request_iff :
      (r : Request) (user : SessionUser) (raw : Bytes)
      → session_of auth peer ≡ some user
      → x.requests.to_vec r.req ≡ ok raw
      → (is_forwarded (handle_request x submit now db auth peer r) ≡ true)
        ↔ (verify_req x db raw r.req user.pubkey user.permissions r.sign ≡ accept)
  unfolding handle_request verify_user_permissions check_request respond
  handle_request_iff r user raw session written =
      elim (Fallible-cases (verify_req x db raw r.req user.pubkey user.permissions r.sign)) [
        | inr (f, e) ↦
            rw (handle_request, verify_user_permissions, session, check_request, written, e)
              (ground arith)
        | inl (some w, e) ↦
            rw (handle_request, verify_user_permissions, session, check_request, written, e)
              (ground arith)
        | inl (none, e) ↦
            rw (handle_request, verify_user_permissions, session, check_request, written, e)
              (λ h. refl, λ h. forward-forwarded _)
      ]

  -- If signatures are right for the keys that made them, then a master node hands on the request which
  -- a client has packed with the keys of its session, for the user of that session, exactly if each of
  -- its orders is allowed to that user.
  pub handle_request-pack_order :
      (crates : Crates)
      → Signs x crates
      → (sessions : List Session) (session_id : ℕ) (s : Session) → index sessions session_id ≡ ok s
      → (ord : List RequestType) (r : Request) → pack_order x crates sessions session_id ord ≡ ok r
      → (user : SessionUser) → session_of auth peer ≡ some user
      → user.pubkey ≡ public s.keys
      → (is_forwarded (handle_request x submit now db auth peer r) ≡ true)
        ↔ All (IsAllowedRequest x db user.pubkey user.permissions) ord
  handle_request-pack_order crates signs sessions session_id s chosen ord r packed user session
        own =
      let p = pack_order-IsPacked x crates sessions session_id s chosen ord r packed in
      let sent = handle_request_iff r user p.raw session (rw p.carries p.written) in
      let checked = verify_req_iff x db user.pubkey user.permissions p.raw r.req r.sign in
      let good : x.verify user.pubkey p.raw r.sign ≡ ok true =
        rw own (signs s.keys p.raw r.sign p.signed) in
      ground (arith, (rw p.carries at sent), (rw p.carries at checked), good)
