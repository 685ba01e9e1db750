-- ===== src/Serve/Closed.antt =====
-- What becomes of a client whose connection has ended.
use pfe_development_of_a_mon.Prelude.{
  ℕ, ◌+◌, ◌≤◌, ◌≡◌, refl, ◌∙◌, ap, sym, Bool, true, false, ◌&&◌, Option, none, some, List, [], ◌∷◌,
  same, same_iff, All, count, if◌then◌else◌, Bytes, Text, ok, err, Bool-cases, Option-cases,
  Fallible-cases, inl, inr, arith,
}
use mathlib.Core.Path.{subst}
use pfe_development_of_a_mon.Proto.Types.{BodyData}
use pfe_development_of_a_mon.Proto.External.{External}
use pfe_development_of_a_mon.Database.Tables.{Database}
use pfe_development_of_a_mon.Client.Channel.{ClientRequest, ClientResponse}
use pfe_development_of_a_mon.Serve.Requests.{
  on_hello, Request, SessionUser, session_of, verify_user_permissions,
}
use pfe_development_of_a_mon.Serve.Sessions.{find-retain}
use pfe_development_of_a_mon.Serve.Links.{
  Task, admitted, checking, take_at, Outside, Server, end_session, on_get_stats,
}
use pfe_development_of_a_mon.Serve.Tasks.{one_more, take_at-count}
use pfe_development_of_a_mon.Serve.Handling.{
  Event, call, connection_closed, request, request_task, session_task, handle, admit, check,
  run_task, run_some, step, run, hand_on, request_answer,
}
use pfe_development_of_a_mon.Serve.Shut.{
  handed_on, is_checked, under_way, gone, IsAway, IsShut, Keeps-IsShut, on_call-Keeps,
  respond-IsShut, start_some-IsShut, greet-IsShut,
}

-- The request is a greeting of this peer.
abbrev pub is_hello : ClientRequest → Bool
is_hello (ClientRequest.hello v pk settings) = true
is_hello _ = false

module _ (x : External) (o : Outside) where
  abbrev pub greets : Text → Event → Bool
  greets peer (request bytes q channel) = elim (o.requests.from_slice bytes) [
    | ok r ↦ is_hello r && same q peer
    | err _ ↦ false
  ]
  greets peer _ = false

  -- Only what was looked up for a request can hand an order on.
  check-forwarded :
      (db : Database) (q : Text) (user : Option SessionUser) (r : Request) (channel : ℕ)
      (peer : Text)
      → is_checked peer (checking q user r channel) ≡ false
      → same q peer ≡ true
      → (check x o db user r).forwarded ≡ none
  check-forwarded db q none r channel peer e own = refl
  check-forwarded db q (some user) r channel peer e own = absurd cc

  module _ (peer : Text) (bound : ℕ) where
    admit-IsShut :
        (s : Server) (q : Text) (r : Request) (channel : ℕ) (b : Bool)
        → IsShut peer bound s
        → IsShut peer bound (admit x o b q r channel s)
    admit-IsShut s q r channel false h = h
    admit-IsShut s q r channel true h = record {
      shut = h.shut;
      bounded = omega (arith, h.bounded, one_more (is_checked peer) (admitted q r channel) s.tasks);
      away = h.away;
    }

    answer-IsShut :
        (s : Server) (q : Text) (channel : ℕ) (bytes : Bytes) (c : ClientRequest)
        → o.requests.from_slice bytes ≡ ok c
        → is_hello c && same q peer ≡ false
        → IsShut peer bound s
        → IsShut peer bound (handle x o bytes q channel s)
    unfolding handle
    answer-IsShut s q channel bytes (ClientRequest.hello v pk settings) e other h =
        rw (handle, e)
          (greet-IsShut x o peer bound s (on_hello (o.same_version v) (o.valid_pk q pk) pk) q
            channel other h)
    answer-IsShut s q channel bytes (ClientRequest.request r) e other h =
        rw (handle, e) (admit-IsShut s q r channel (verify_user_permissions s.auth q []) h)
    answer-IsShut s q channel bytes (ClientRequest.get_stats pk oid) e other h =
        rw (handle, e)
          (respond-IsShut x o peer bound s (some (on_get_stats o.peer_of o.live pk oid)) channel h)
    answer-IsShut s q channel bytes (ClientRequest.block b) e other h =
        rw (handle, e) (respond-IsShut x o peer bound s (some ClientResponse.error) channel h)
    answer-IsShut s q channel bytes (ClientRequest.stats b) e other h =
        rw (handle, e) (respond-IsShut x o peer bound s (some ClientResponse.error) channel h)
    answer-IsShut s q channel bytes (ClientRequest.stat b) e other h =
        rw (handle, e) (respond-IsShut x o peer bound s (some ClientResponse.error) channel h)

    -- A request that is looked up now finds no user of this peer.
    looked_up :
        (s : Server) (q : Text) (r : Request) (channel : ℕ)
        → session_of s.auth peer ≡ none
        → is_checked peer (checking q (session_of s.auth q) r channel) ≡ false
    looked_up s q r channel shut = elim (Option-cases (session_of s.auth q)) [
      | inl e ↦ rw e refl
      | inr (v, e) ↦ elim (Bool-cases (same q peer)) [
        | inl own ↦ absurd (let p = (same_iff q peer).0 own in cc)
        | inr other ↦ rw e other
      ]
    ]

    hand_on-handed :
        (s : Server) (q : Text) (body : Option BodyData)
        → handed_on peer (hand_on x o q body s) ≤ handed_on peer s + (if same q peer then 1 else 0)
    hand_on-handed s q none = ground arith
    hand_on-handed s q (some body) =
        ground (arith, one_more (λ p. same p.0 peer) (q, body) s.forwarded)

    hand_on-bounded :
        (db : Database) (s : Server) (q : Text) (user : Option SessionUser) (r : Request)
        (channel : ℕ)
        → handed_on peer (hand_on x o q (check x o db user r).forwarded s)
          ≤ handed_on peer s + (if is_checked peer (checking q user r channel) then 1 else 0)
    hand_on-bounded db s q user r channel =
        elim (Bool-cases (is_checked peer (checking q user r channel))) [
          | inl mine ↦ rw mine (ground (arith, hand_on-handed s q (check x o db user r).forwarded))
          | inr e ↦ elim (Bool-cases (same q peer)) [
            | inl own ↦ rw (e, check-forwarded db q user r channel peer e own) (omega arith)
            | inr other ↦
                rw e (ground (arith, other, hand_on-handed s q (check x o db user r).forwarded))
          ]
        ]

    hand_on-keeps :
        (s : Server) (q : Text) (body : Option BodyData)
        → ((hand_on x o q body s).auth ≡ s.auth)
          × ((hand_on x o q body s).starting ≡ s.starting)
          × ((hand_on x o q body s).tasks ≡ s.tasks)
    hand_on-keeps s q none = (refl, refl, refl)
    hand_on-keeps s q (some body) = (refl, refl, refl)

    -- The task was taken out of the list; the bound still holds with it.
    run_task-IsShut :
        (db : Database) (t : Task) (s : Server)
        → session_of s.auth peer ≡ none
        → IsAway peer s.starting
        → handed_on peer s + under_way peer s + (if is_checked peer t then 1 else 0) ≤ bound
        → IsShut peer bound (run_task x o db t s)
    unfolding run_task
    run_task-IsShut db (admitted q r channel) s shut away under = record {
      shut = shut;
      bounded =
          let new =
            one_more (is_checked peer) (checking q (session_of s.auth q) r channel) s.tasks in
          let no = looked_up s q r channel shut in ground (arith, new, no, under);
      away = away;
    }
    run_task-IsShut db (checking q user r channel) s shut away under =
        let h = check x o db user r in
        let after = hand_on x o q h.forwarded s in
        let (auths, starts, tasks) = hand_on-keeps s q h.forwarded in
        let left : under_way peer after ≡ under_way peer s = ap (count (is_checked peer)) tasks in
        respond-IsShut x o peer bound after (request_answer x o h) channel (record {
          shut = ap (λ a. session_of a peer) auths ∙ shut;
          bounded = omega (arith, hand_on-bounded db s q user r channel, left, under);
          away = subst (IsAway peer) (sym starts) away;
        })

    run_some-IsShut :
        (db : Database) (n : ℕ) (s : Server)
        → IsShut peer bound s
        → IsShut peer bound (run_some x o db n s)
    unfolding run_some
    run_some-IsShut db n s h = elim (Option-cases (take_at n s.tasks)) [
      | inl e ↦ rw (run_some, e) h
      | inr (v, e) ↦
          rw (run_some, e)
            (run_task-IsShut db v.0 (record s { tasks = v.1 }) h.shut h.away
              (omega (arith, h.bounded, take_at-count (is_checked peer) n s.tasks v e)))
    ]

    end_session-IsShut :
        (s : Server) (q : Text) → IsShut peer bound s → IsShut peer bound (end_session q s)
    unfolding end_session
    end_session-IsShut s q h = elim (Option-cases (session_of s.auth q)) [
      | inl e ↦ rw (end_session, e) h
      | inr (v, e) ↦ elim (Bool-cases (same q peer)) [
        | inl own ↦ absurd (let p = (same_iff q peer).0 own in let n = h.shut in cc)
        | inr other ↦
            rw (end_session, e)
              (record {
                shut = find-retain q peer s.auth other ∙ h.shut;
                bounded = h.bounded;
                away = h.away;
              })
      ]
    ]

    step-IsShut :
        (s : Server) (e : Event)
        → greets peer e ≡ false
        → IsShut peer bound s
        → IsShut peer bound (step x o s e)
    unfolding step handle
    step-IsShut s (call c) g h = Keeps-IsShut peer bound s _ (on_call-Keeps o.responses c s) h
    step-IsShut s (connection_closed q) g h = end_session-IsShut s q h
    step-IsShut s (request_task db n) g h = run_some-IsShut db n s h
    step-IsShut s (session_task db n) g h = start_some-IsShut x o peer bound s db n h
    step-IsShut s (request bytes q channel) g h =
        elim (Fallible-cases (o.requests.from_slice bytes)) [
          | inl (c, e) ↦ answer-IsShut s q channel bytes c e (rw (greets, e) at g) h
          | inr (f, e) ↦ rw (handle, e) h
        ]

    run-IsShut :
        (s : Server) (es : List Event)
        → All (λ e. greets peer e ≡ false) es
        → IsShut peer bound s
        → IsShut peer bound (run x o s es)
    unfolding run
    run-IsShut s [] g h = h
    run-IsShut s (e ∷ es) g h = run-IsShut (step x o s e) es g.1 (step-IsShut s e g.0 h)

  connection_closed-IsShut :
      (s : Server) (peer : Text)
      → IsAway peer s.starting
      → IsShut peer (handed_on peer s + under_way peer s) (step x o s (connection_closed peer))
  unfolding step end_session
  connection_closed-IsShut s peer a = elim (Option-cases (session_of s.auth peer)) [
    | inl e ↦ rw (step, end_session, e) (record { shut = e; bounded = omega arith; away = a })
    | inr (v, e) ↦
        rw (step, end_session, e)
          (record { shut = gone peer s.auth; bounded = omega arith; away = a })
  ]

  -- When the connection of a client ends while no session is being made for it: as long as no greeting of
  -- it is handled it has no session, and of its orders no more are handed on than there were requests of it
  -- under way, in whatever order these and the requests of others go on, for which its user had been looked
  -- up before.
  pub run-closed :
      (s : Server) (peer : Text) (es : List Event)
      → IsAway peer s.starting
      → All (λ e. greets peer e ≡ false) es
      → (session_of (run x o s (connection_closed peer ∷ es)).auth peer ≡ none)
        × (handed_on peer (run x o s (connection_closed peer ∷ es))
            ≤ handed_on peer s + under_way peer s)
  unfolding run
  run-closed s peer es a g =
      let bound = handed_on peer s + under_way peer s in
      let h =
        run-IsShut peer bound (step x o s (connection_closed peer)) es g
          (connection_closed-IsShut s peer a) in
      (h.shut, omega (arith, h.bounded))
