-- ===== src/Client/Answers.antt =====
-- Each order has its own answer.
use pfe_development_of_a_mon.Prelude.{
  ℕ, ◌+◌, ◌≡◌, ◌≢◌, refl, ◌∙◌, sym, Bool, true, false, some, List, [], ◌∷◌, ◌++◌, ◌==◌, ==_iff,
  find, retain, any, if◌then◌else◌, Bytes, Text, inl, inr, Option-cases, Fallible-cases, arith,
}
use pfe_development_of_a_mon.Proto.External.{Codec}
use pfe_development_of_a_mon.Serve.Requests.{RequestResp}
use pfe_development_of_a_mon.Client.Channel.{
  ClientRequest, ClientResponse, Waiting, Link, Call, Event, other_than, waiting_for, deliver,
  on_call, leave, handle_resp, step,
}

-- The answers that have come over a one-shot channel.
abbrev pub answers_on : ℕ → List (ℕ × RequestResp) → List RequestResp
answers_on t [] = []
answers_on t ((u, r) ∷ rest) = let more = answers_on t rest in if u == t then r ∷ more else more

pub answers_on-append :
    (t u : ℕ) (r : RequestResp) (xs : List (ℕ × RequestResp))
    → answers_on t (xs ++ (u, r) ∷ []) ≡ answers_on t xs ++ (if u == t then r ∷ [] else [])
answers_on-append t u r [] = ground arith
answers_on-append t u r (x ∷ xs) = ground (arith, answers_on-append t u r xs)

-- The entry that has a one-shot channel.
abbrev pub has_ticket : ℕ → Waiting → Bool
has_ticket t w = w.ticket == t

-- No entry has the channel any more, or yet.
abbrev pub Unheld : ℕ → List Waiting → Type 0
Unheld t ws = any (has_ticket t) ws ≡ false

pub Unheld-retain :
    (t i : ℕ) (ws : List Waiting) → Unheld t ws → Unheld t (retain (other_than i) ws)
Unheld-retain t i [] h = refl
Unheld-retain t i (w ∷ ws) h = ground (arith, Unheld-retain t i ws)

-- An entry that is found has a ticket of the list.
pub Unheld-find :
    (t i : ℕ) (ws : List Waiting) (w : Waiting)
    → Unheld t ws
    → find (waiting_for i) ws ≡ some w
    → (w.ticket == t) ≡ false
Unheld-find t i [] w h e = cc
Unheld-find t i (v ∷ ws) w h e = ground (arith, Unheld-find t i ws w)

pub find-retain_other :
    (i j : ℕ) (ws : List Waiting)
    → i ≢ j
    → find (waiting_for i) (retain (other_than j) ws) ≡ find (waiting_for i) ws
find-retain_other i j [] ne = refl
find-retain_other i j (w ∷ ws) ne = ground (arith, find-retain_other i j ws ne)

pub retain_comm :
    (i j : ℕ) (ws : List Waiting)
    → retain (other_than i) (retain (other_than j) ws)
      ≡ retain (other_than j) (retain (other_than i) ws)
retain_comm i j [] = refl
retain_comm i j (w ∷ ws) = ground (arith, retain_comm i j ws)

pub found_other :
    (i j : ℕ) (ws : List Waiting) (w : Waiting)
    → i ≢ j
    → find (waiting_for j) ws ≡ some w
    → find (waiting_for j) (retain (other_than i) ws) ≡ some w
found_other i j ws w ne e = find-retain_other j i ws (λ h. ne (sym h)) ∙ e

-- The event is an order or an answer under this request id.
abbrev pub is_about : ℕ → Event → Bool
is_about id (Event.call i (Call.send_order peer bytes)) = i == id
is_about id (Event.answer peer i bytes) = i == id
is_about id _ = false

-- What an event does to the entries, the channels and the answers.
pub data Change (l : Link) (e : Event) (l' : Link) : Type 0 where
  kept : l'.resp ≡ l.resp → l'.channels ≡ l.channels → l'.delivered ≡ l.delivered → Change l e l'
  ordered :
      (i : ℕ)
      → is_about i e ≡ true
      → l'.resp ≡ record { id = i; ticket = l.channels } ∷ retain (other_than i) l.resp
      → l'.channels ≡ l.channels + 1
      → l'.delivered ≡ l.delivered
      → Change l e l'
  gave :
      (i : ℕ) (w : Waiting) (r : RequestResp)
      → is_about i e ≡ true
      → find (waiting_for i) l.resp ≡ some w
      → l'.resp ≡ retain (other_than i) l.resp
      → l'.channels ≡ l.channels
      → l'.delivered ≡ l.delivered ++ (w.ticket, r) ∷ []
      → Change l e l'

Change-if :
    (l : Link) (e : Event) (l' : Link) (b : Bool) → Change l e l' → Change l e (if b then l' else l)
Change-if l e l' true h = h
Change-if l e l' false h = kept refl refl refl

deliver-Change :
    (l : Link) (peer : Text) (id : ℕ) (bytes : Bytes) (r : RequestResp)
    → Change l (Event.answer peer id bytes) (deliver id r l)
unfolding deliver
deliver-Change l peer id bytes r = elim (Option-cases (find (waiting_for id) l.resp)) [
  | inl e ↦ rw (deliver, e) (kept refl refl refl)
  | inr (w, e) ↦ rw (deliver, e) (gave id w r ((==_iff id id).1 refl) e refl refl refl)
]

module _ (requests : Codec ClientRequest) (responses : Codec ClientResponse) where
  on_call-Change :
      (l : Link) (id : ℕ) (c : Call)
      → Change l (Event.call id c) (on_call requests responses id c l)
  unfolding on_call
  on_call-Change l id (Call.response channel bytes) = kept refl refl refl
  on_call-Change l id (Call.hello peer bytes) = kept refl refl refl
  on_call-Change l id (Call.send_order peer bytes) =
      ordered id ((==_iff id id).1 refl) refl refl refl
  on_call-Change l id (Call.disconnect_peer peer) = kept refl refl refl
  on_call-Change l id (Call.error peer) =
      elim (Fallible-cases (responses.to_vec ClientResponse.error)) [
        | inl (v, e) ↦ rw (on_call, e) (kept refl refl refl)
        | inr (f, e) ↦ rw (on_call, e) (kept refl refl refl)
      ]

  handle_resp-Change :
      (l : Link) (peer : Text) (id : ℕ) (bytes : Bytes)
      → Change l (Event.answer peer id bytes) (handle_resp requests responses peer id bytes l)
  unfolding handle_resp on_call
  handle_resp-Change l peer id bytes = elim (Fallible-cases (responses.from_slice bytes)) [
    | inr (f, e) ↦ rw (handle_resp, e) (kept refl refl refl)
    | inl (ClientResponse.request r, e) ↦ rw (handle_resp, e) (deliver-Change l peer id bytes r)
    | inl (ClientResponse.get_stats r, e) ↦ rw (handle_resp, e) (deliver-Change l peer id bytes r)
    | inl (ClientResponse.hi v, e) ↦ rw (handle_resp, e) (kept refl refl refl)
    | inl (ClientResponse.block s, e) ↦ rw (handle_resp, e) (kept refl refl refl)
    | inl (ClientResponse.stats s, e) ↦ rw (handle_resp, e) (kept refl refl refl)
    | inl (ClientResponse.error, e) ↦ rw (handle_resp, e) (kept refl refl refl)
    | inl (ClientResponse.incompatible_version v, e) ↦
        rw (handle_resp, e) (Change-if l _ (leave peer l) l.running (kept refl refl refl))
  ]

  pub step-Change : (l : Link) (e : Event) → Change l e (step requests responses l e)
  unfolding step
  step-Change l Event.closing = kept refl refl refl
  step-Change l (Event.call id c) = Change-if l _ _ l.running (on_call-Change l id c)
  step-Change l (Event.connection_established peer) =
      Change-if l _ (record l { peer = some peer }) l.running (kept refl refl refl)
  step-Change l Event.connection_closed =
      Change-if l _ (record l { running = false; disconnected = true }) l.running
        (kept refl refl refl)
  step-Change l (Event.answer peer id bytes) = handle_resp-Change l peer id bytes
