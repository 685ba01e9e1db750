-- ===== src/Serve/Shut.antt =====
-- What the parts of a step leave to a peer that has no session and gets none.
use pfe_development_of_a_mon.Prelude.{
  ℕ, ◌+◌, ◌≤◌, count, Option-cases, ◌≡◌, refl, ◌∙◌, ap, sym, Bool, true, false, not, Option, none,
  some, List, [], ◌∷◌, same, retain, All, All-append, if◌then◌else◌, Text, OnOk, OnOk_elim,
  Fallible-cases, inl, inr, arith,
}
use mathlib.Core.Path.{subst}
use pfe_development_of_a_mon.Proto.Types.{PublicKey}
use pfe_development_of_a_mon.Proto.External.{Codec, External}
use pfe_development_of_a_mon.Database.Tables.{Database}
use pfe_development_of_a_mon.Client.Channel.{ClientResponse}
use pfe_development_of_a_mon.Serve.Requests.{
  Greeting, disconnected, session_for, SessionUser, session_of,
}
use pfe_development_of_a_mon.Serve.Sessions.{open_session, open_session-IsSession}
use pfe_development_of_a_mon.Serve.Links.{
  Task, checking, take_at, Outside, Server, Call, leave, on_call, send_response,
}
use pfe_development_of_a_mon.Serve.Tasks.{take_at-All}
use pfe_development_of_a_mon.Serve.Handling.{start_session, greet, respond_if, start_some}

-- How many orders of a peer were handed on.
abbrev pub handed_on : Text → Server → ℕ
handed_on peer s = count (λ o. same o.0 peer) s.forwarded

-- The user of this peer was looked up for the request.
abbrev pub is_checked : Text → Task → Bool
is_checked peer (checking q (some user) r channel) = same q peer
is_checked peer _ = false

-- How many requests of a peer are under way for which its user was looked up.
abbrev pub under_way : Text → Server → ℕ
under_way peer s = count (is_checked peer) s.tasks

pub gone :
    (peer : Text) (auth : List SessionUser)
    → session_of (retain (λ u. not (same u.peer peer)) auth) peer ≡ none
gone peer [] = refl
gone peer (u ∷ auth) = ground (arith, gone peer auth)

-- The sessions and the orders are as they were.
pub record Keeps (s s' : Server) : Type 0 where
  pub auth : s'.auth ≡ s.auth
  pub forwarded : s'.forwarded ≡ s.forwarded
  pub starting : s'.starting ≡ s.starting
  pub tasks : s'.tasks ≡ s.tasks

-- No session is being made for the peer.
abbrev pub IsAway : Text → List (Text × PublicKey) → Type 0
IsAway peer starting = All (λ p. same p.0 peer ≡ false) starting

-- The peer has no session, none is being made, and no more than so many of its orders were handed on or
-- may yet be.
pub record IsShut (peer : Text) (bound : ℕ) (s : Server) : Type 0 where
  pub shut : session_of s.auth peer ≡ none
  pub bounded : handed_on peer s + under_way peer s ≤ bound
  pub away : IsAway peer s.starting

pub Keeps-IsShut :
    (peer : Text) (bound : ℕ) (s s' : Server)
    → Keeps s s'
    → IsShut peer bound s
    → IsShut peer bound s'
Keeps-IsShut peer bound s s' k h =
    let sent : handed_on peer s' ≡ handed_on peer s = ap (count (λ o. same o.0 peer)) k.forwarded in
    let left : under_way peer s' ≡ under_way peer s = ap (count (is_checked peer)) k.tasks in
    record {
      shut = ap (λ a. session_of a peer) k.auth ∙ h.shut;
      bounded = omega (arith, h.bounded, sent, left);
      away = subst (IsAway peer) (sym k.starting) h.away;
    }

module _ (responses : Codec ClientResponse) where
  pub on_call-Keeps : (c : Call) (s : Server) → Keeps s (on_call responses c s)
  unfolding on_call
  on_call-Keeps (Call.response channel bytes) s = record {
    auth = refl;
    forwarded = refl;
    starting = refl;
    tasks = refl;
  }
  on_call-Keeps (Call.report peer bytes) s = record {
    auth = refl;
    forwarded = refl;
    starting = refl;
    tasks = refl;
  }
  on_call-Keeps (Call.stat peer bytes) s = record {
    auth = refl;
    forwarded = refl;
    starting = refl;
    tasks = refl;
  }
  on_call-Keeps (Call.disconnect_peer peer) s = record {
    auth = refl;
    forwarded = refl;
    starting = refl;
    tasks = refl;
  }
  on_call-Keeps (Call.error peer) s = record {
    auth = ground arith;
    forwarded = ground arith;
    starting = ground arith;
    tasks = ground arith;
  }

  send_response-Keeps :
      (r : ClientResponse) (channel : ℕ) (s : Server)
      → OnOk (Keeps s) (send_response responses r channel s)
  unfolding send_response
  send_response-Keeps r channel s = elim (Fallible-cases (responses.to_vec r)) [
    | inl (v, e) ↦ rw (send_response, e) (on_call-Keeps (Call.response channel v) s)
    | inr (f, e) ↦ elim (Fallible-cases (responses.to_vec ClientResponse.error)) [
      | inl (v, e') ↦ rw (send_response, e, e') (on_call-Keeps (Call.response channel v) s)
      | inr (g, e') ↦ rw (send_response, e, e') tt
    ]
  ]

module _ (x : External) (o : Outside) where
  module _ (peer : Text) (bound : ℕ) where
    pub respond-IsShut :
        (s : Server) (r : Option ClientResponse) (channel : ℕ)
        → IsShut peer bound s
        → IsShut peer bound (respond_if x o r channel s)
    respond-IsShut s none channel g = g
    respond-IsShut s (some r) channel g =
        elim (Fallible-cases (send_response o.responses r channel s)) [
          | inl (t, e) ↦ rw e (
              Keeps-IsShut peer bound s t
                (OnOk_elim _ _ (send_response-Keeps o.responses r channel s) e) g)
          | inr (f, e) ↦ rw e g
        ]

    start_session-IsShut :
        (s : Server) (db : Database) (q : Text) (pk : PublicKey)
        → same q peer ≡ false
        → IsShut peer bound s
        → IsShut peer bound (start_session x o db q pk s)
    unfolding start_session
    start_session-IsShut s db q pk other g = left_or_not (open_session x db q pk s.auth).1 (record {
      shut = (open_session-IsSession x db q pk s.auth peer other).1 ∙ g.shut;
      bounded = g.bounded;
      away = g.away;
    })
      where
        after : Server
        after = record s { auth = (open_session x db q pk s.auth).0 }

        left_or_not :
            (b : Bool)
            → IsShut peer bound after
            → IsShut peer bound (if b then leave q after else after)
        left_or_not false h = h
        left_or_not true h = record { shut = h.shut; bounded = h.bounded; away = h.away }

    pub start_some-IsShut :
        (s : Server) (db : Database) (n : ℕ)
        → IsShut peer bound s
        → IsShut peer bound (start_some x o db n s)
    unfolding start_some
    start_some-IsShut s db n h = elim (Option-cases (take_at n s.starting)) [
      | inl e ↦ rw (start_some, e) h
      | inr (v, e) ↦
          let (other, rest) = take_at-All (λ p. same p.0 peer ≡ false) n s.starting v e h.away in
          rw (start_some, e)
            (start_session-IsShut (record s { starting = v.1 }) db v.0.0 v.0.1 other
              (record { shut = h.shut; bounded = h.bounded; away = rest }))
    ]

    pub greet-IsShut :
        (s : Server) (g : Greeting) (q : Text) (channel : ℕ)
        → same q peer ≡ false
        → IsShut peer bound s
        → IsShut peer bound (greet x o g q channel s)
    unfolding greet
    greet-IsShut s disconnected q channel other h =
        elim (Fallible-cases (send_response o.responses ClientResponse.error channel s)) [
          | inr (f, e) ↦ rw (greet, e) h
          | inl (t, e) ↦
              let k =
                OnOk_elim _ _ (send_response-Keeps o.responses ClientResponse.error channel s) e in
              rw (greet, e)
                (Keeps-IsShut peer bound s (leave q t)
                  (record {
                    auth = k.auth;
                    forwarded = k.forwarded;
                    starting = k.starting;
                    tasks = k.tasks;
                  })
                  h)
        ]
    greet-IsShut s (session_for pk) q channel other h =
        elim (Fallible-cases (send_response o.responses (ClientResponse.hi o.version) channel s)) [
          | inr (f, e) ↦ rw (greet, e) h
          | inl (t, e) ↦
              let k =
                Keeps-IsShut peer bound s t
                  (OnOk_elim _ _
                    (send_response-Keeps o.responses (ClientResponse.hi o.version) channel s) e)
                  h in
              rw (greet, e)
                (record {
                  shut = k.shut;
                  bounded = k.bounded;
                  away = All-append (λ p. same p.0 peer ≡ false) t.starting _ k.away (other, tt);
                })
        ]
