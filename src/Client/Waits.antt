-- ===== src/Client/Waits.antt =====
-- An order waits under its request id until its answer comes, and is answered once.
use pfe_development_of_a_mon.Prelude.{
  ℕ, ◌⊎◌, inl, inr, ◌<◌, ◌≤◌, ◌≡◌, ◌≢◌, refl, ◌∙◌, true, false, some, List, [], ◌∷◌, ◌++◌, ◌==◌,
  find, retain, All, Bytes, Text, ok, arith,
}
use mathlib.Core.List.{append-nil}
use pfe_development_of_a_mon.Proto.External.{Codec}
use pfe_development_of_a_mon.Serve.Requests.{RequestResp}
use pfe_development_of_a_mon.Client.Channel.{
  ClientRequest, ClientResponse, Link, new_link, Call, Event, other_than, waiting_for, deliver,
  on_call, handle_resp, step, run,
}
use pfe_development_of_a_mon.Client.Answers.{
  answers_on, answers_on-append, Unheld, Unheld-retain, Unheld-find, find-retain_other, retain_comm,
  found_other, is_about, Change, kept, ordered, gave, step-Change,
}

-- No entry has a channel that is still to be made, and no answer has come over one.
record IsFresh (l : Link) : Type 0 where
  free : (t : ℕ) → l.channels ≤ t → Unheld t l.resp
  unanswered : (t : ℕ) → l.channels ≤ t → answers_on t l.delivered ≡ []

-- The order with this id waits on this channel, alone, and has no answer.
record Awaits (id t : ℕ) (l : Link) : Type 0 where
  found : find (waiting_for id) l.resp ≡ some (record { id = id; ticket = t })
  only : Unheld t (retain (other_than id) l.resp)
  old : t < l.channels
  unanswered : answers_on t l.delivered ≡ []

-- Nothing waits on the channel any more, and these answers have come over it.
record IsDone (t : ℕ) (rs : List RequestResp) (l : Link) : Type 0 where
  gone : Unheld t l.resp
  old : t < l.channels
  had : answers_on t l.delivered ≡ rs

-- An answer over another channel.
skip :
    (t u : ℕ) (r : RequestResp) (xs : List (ℕ × RequestResp))
    → (u == t) ≡ false
    → answers_on t (xs ++ (u, r) ∷ []) ≡ answers_on t xs
skip t u r xs h = answers_on-append t u r xs ∙ rw h (append-nil (answers_on t xs))

IsFresh-Change : (l l' : Link) (e : Event) → Change l e l' → IsFresh l → IsFresh l'
IsFresh-Change l l' e (kept a b c) h = record {
  free = λ t le. rw a (h.free t (omega (arith, b)));
  unanswered = λ t le. rw c (h.unanswered t (omega (arith, b)));
}
IsFresh-Change l l' e (ordered i about a b c) h = record {
  free = λ t le. rw a (ground (arith, b, Unheld-retain t i l.resp (h.free t (omega (arith, b)))));
  unanswered = λ t le. rw c (h.unanswered t (omega (arith, b)));
}
IsFresh-Change l l' e (gave i w r about is a b c) h = record {
  free = λ t le. rw a (Unheld-retain t i l.resp (h.free t (omega (arith, b))));
  unanswered = λ t le. rw c (
      skip t w.ticket r l.delivered (Unheld-find t i l.resp w (h.free t (omega (arith, b))) is)
      ∙ h.unanswered t (omega (arith, b)));
}

IsDone-Change :
    (t : ℕ) (rs : List RequestResp) (l l' : Link) (e : Event)
    → Change l e l'
    → IsDone t rs l
    → IsDone t rs l'
IsDone-Change t rs l l' e (kept a b c) h = record {
  gone = rw a h.gone;
  old = omega (arith, b, h.old);
  had = rw c h.had;
}
IsDone-Change t rs l l' e (ordered i about a b c) h = record {
  gone = rw a (ground (arith, h.old, Unheld-retain t i l.resp h.gone));
  old = omega (arith, b, h.old);
  had = rw c h.had;
}
IsDone-Change t rs l l' e (gave i w r about is a b c) h = record {
  gone = rw a (Unheld-retain t i l.resp h.gone);
  old = omega (arith, b, h.old);
  had = rw c (skip t w.ticket r l.delivered (Unheld-find t i l.resp w h.gone is) ∙ h.had);
}

Awaits-Change :
    (id t : ℕ) (l l' : Link) (e : Event)
    → Change l e l'
    → is_about id e ≡ false
    → Awaits id t l
    → Awaits id t l'
Awaits-Change id t l l' e (kept a b c) other h = record {
  found = rw a h.found;
  only = rw a h.only;
  old = omega (arith, b, h.old);
  unanswered = rw c h.unanswered;
}
Awaits-Change id t l l' e (ordered i about a b c) other h =
    let ne : id ≢ i = λ same. let p = rw (← same) at about in cc in
    record {
      found = rw a (ground (arith, ne, find-retain_other id i l.resp ne, h.found));
      only = rw a (
          ground (
            arith,
            ne,
            h.old,
            retain_comm id i l.resp,
            Unheld-retain t i (retain (other_than id) l.resp) h.only,
          ));
      old = omega (arith, b, h.old);
      unanswered = rw c h.unanswered;
    }
Awaits-Change id t l l' e (gave i w r about is a b c) other h =
    let ne : id ≢ i = λ same. let p = rw (← same) at about in cc in
    record {
      found = rw a (find-retain_other id i l.resp ne ∙ h.found);
      only =
          rw (a, retain_comm id i l.resp)
            (Unheld-retain t i (retain (other_than id) l.resp) h.only);
      old = omega (arith, b, h.old);
      unanswered = rw c (
          skip t w.ticket r l.delivered (
            Unheld-find t i (retain (other_than id) l.resp) w h.only
              (found_other id i l.resp w ne is))
          ∙ h.unanswered);
    }

new_link-IsFresh : IsFresh new_link
new_link-IsFresh = record { free = λ t le. refl; unanswered = λ t le. refl }

module _ (requests : Codec ClientRequest) (responses : Codec ClientResponse) where
  abbrev after_step : Link → Event → Link
  after_step l e = step requests responses l e

  abbrev after_run : Link → List Event → Link
  after_run l es = run requests responses l es

  run-IsFresh : (es : List Event) (l : Link) → IsFresh l → IsFresh (after_run l es)
  unfolding run
  run-IsFresh [] l h = h
  run-IsFresh (e ∷ es) l h =
      run-IsFresh es (after_step l e)
        (IsFresh-Change l (after_step l e) e (step-Change requests responses l e) h)

  run-IsDone :
      (t : ℕ) (rs : List RequestResp) (es : List Event) (l : Link)
      → IsDone t rs l
      → IsDone t rs (after_run l es)
  unfolding run
  run-IsDone t rs [] l h = h
  run-IsDone t rs (e ∷ es) l h =
      run-IsDone t rs es (after_step l e)
        (IsDone-Change t rs l (after_step l e) e (step-Change requests responses l e) h)

  run-Awaits :
      (id t : ℕ) (es : List Event) (l : Link)
      → All (λ e. is_about id e ≡ false) es
      → Awaits id t l
      → Awaits id t (after_run l es)
  unfolding run
  run-Awaits id t [] l other h = h
  run-Awaits id t (e ∷ es) l (now, later) h =
      run-Awaits id t es (after_step l e) later
        (Awaits-Change id t l (after_step l e) e (step-Change requests responses l e) now h)

  ask-Awaits :
      (l : Link) (id : ℕ) (peer : Text) (bytes : Bytes)
      → l.running ≡ true
      → IsFresh l
      → Awaits id l.channels (after_step l (Event.call id (Call.send_order peer bytes)))
  unfolding step on_call
  ask-Awaits l id peer bytes on h =
      let asked : after_step l (Event.call id (Call.send_order peer bytes))
          ≡ on_call requests responses id (Call.send_order peer bytes) l =
        simp on refl in
      rw asked (record {
        found = ground arith;
        only = ground (
          arith,
          Unheld-retain l.channels id (retain (other_than id) l.resp),
          Unheld-retain l.channels id l.resp,
          h.free l.channels (omega arith),
        );
        old = omega arith;
        unanswered = h.unanswered l.channels (omega arith);
      })

  -- The bytes are an answer to an order.
  abbrev pub IsAnswer : Bytes → RequestResp → Type 0
  IsAnswer bytes r =
      (responses.from_slice bytes ≡ ok (ClientResponse.request r))
      ⊎ (responses.from_slice bytes ≡ ok (ClientResponse.get_stats r))

  answer-delivered :
      (l : Link) (peer : Text) (id : ℕ) (bytes : Bytes) (r : RequestResp)
      → IsAnswer bytes r
      → after_step l (Event.answer peer id bytes) ≡ deliver id r l
  unfolding step handle_resp
  answer-delivered l peer id bytes r (inl e) = rw (handle_resp, e) refl
  answer-delivered l peer id bytes r (inr e) = rw (handle_resp, e) refl

  deliver-IsDone :
      (id t : ℕ) (r : RequestResp) (l : Link) → Awaits id t l → IsDone t (r ∷ []) (deliver id r l)
  unfolding deliver
  deliver-IsDone id t r l h =
      rw (deliver, h.found)
        (record {
          gone = h.only;
          old = h.old;
          had = answers_on-append t t r l.delivered ∙ ground (arith, h.unanswered);
        })

  -- Whatever has happened to the connection: an order that is made while the loop runs has no answer
  -- as long as neither an order nor an answer comes under its request id. With the first answer under
  -- the id its requester has that answer, and never another one, whatever follows.
  pub run-answered :
      (before : List Event) (id : ℕ) (peer : Text) (bytes : Bytes) (between : List Event)
      (from : Text) (reply : Bytes) (r : RequestResp) (after : List Event)
      → (run requests responses new_link before).running ≡ true
      → All (λ e. is_about id e ≡ false) between
      → IsAnswer reply r
      → let l = run requests responses new_link before in
        let waiting =
          run requests responses
            (step requests responses l (Event.call id (Call.send_order peer bytes)))
            between in
        let answered = step requests responses waiting (Event.answer from id reply) in
        (answers_on l.channels waiting.delivered ≡ [])
        × (answers_on l.channels (run requests responses answered after).delivered ≡ r ∷ [])
  run-answered before id peer bytes between from reply r after on other is =
      let l = run requests responses new_link before in
      let asked = ask-Awaits l id peer bytes on (run-IsFresh before new_link new_link-IsFresh) in
      let waits = run-Awaits id l.channels between _ other asked in
      let waiting =
        run requests responses
          (step requests responses l (Event.call id (Call.send_order peer bytes))) between in
      let done : IsDone l.channels (r ∷ []) (after_step waiting (Event.answer from id reply)) =
        rw (answer-delivered waiting from id reply r is)
          (deliver-IsDone id l.channels r waiting waits) in
      (waits.unanswered, (run-IsDone l.channels (r ∷ []) after _ done).had)
