-- ===== src/Peers/Dispatch.antt =====
-- Where the reports of a plain node go.
use pfe_development_of_a_mon.Prelude.{
  ℕ, ◌≡◌, refl, ◌∙◌, ap, none, some, List, [], ◌∷◌, ◌++◌, map, Bytes, Text, inl, inr,
  Fallible-cases,
}
use mathlib.Core.List.{append-nil, append_assoc}
use pfe_development_of_a_mon.Proto.Types.{PublicKey}
use pfe_development_of_a_mon.Proto.External.{Codec}
use pfe_development_of_a_mon.Peers.Messages.{PeerRequest}
use pfe_development_of_a_mon.Peers.Plain.{dispatch_report}
use pfe_development_of_a_mon.Peers.Loop.{
  Link, Call, on_call, Event, call, connection_established, on_connection, step, run,
}

-- The reports that were handed to the loop.
abbrev pub published : List Event → List Bytes
published [] = []
published (call connected id (Call.report pk timestamp bytes) ∷ es) = bytes ∷ published es
published (_ ∷ es) = published es

-- The node has a default master node, and these are the reports that it was sent.
record Bound (master : Text) (sent : List (Text × Bytes)) (l : Link) : Type 0 where
  default : l.node.default_master_node ≡ some master
  reports : l.reports ≡ sent

abbrev pub all_to : Text → List Bytes → List (Text × Bytes)
all_to master bytes = map (λ b. (master, b)) bytes

module _ (requests : Codec PeerRequest) (protocol_version : ℕ) (pubkey : PublicKey)
    (master : Text) where
  on_connection-Bound :
      (peer : Text) (l : Link) (sent : List (Text × Bytes))
      → Bound master sent l
      → Bound master sent (on_connection requests protocol_version pubkey peer l)
  unfolding on_connection
  on_connection-Bound peer l sent h =
      elim (Fallible-cases (requests.to_vec (PeerRequest.hello protocol_version pubkey))) [
        | inl (v, e) ↦ rw (on_connection, e) (record { default = h.default; reports = h.reports })
        | inr (f, e) ↦ rw (on_connection, e) (record { default = h.default; reports = h.reports })
      ]

  on_report-Bound :
      (connected : List Text) (id timestamp : ℕ) (pk bytes : Bytes) (l : Link)
      (sent : List (Text × Bytes))
      → Bound master sent l
      → Bound master
          (sent ++ (master, bytes) ∷ [])
          (on_call connected id (Call.report pk timestamp bytes) l).1
  unfolding on_call dispatch_report
  on_report-Bound connected id timestamp pk bytes l sent h =
      rw (on_call, dispatch_report, h.default)
        (record { default = h.default; reports = ap (λ r. r ++ (master, bytes) ∷ []) h.reports })

  run-Bound :
      (es : List Event) (l : Link) (sent : List (Text × Bytes))
      → Bound master sent l
      → Bound master
          (sent ++ all_to master (published es))
          (run requests protocol_version pubkey l es)
  unfolding run step on_call
  run-Bound [] l sent h = rw (append-nil sent) h
  run-Bound (connection_established peer ∷ es) l sent h =
      run-Bound es _ sent (on_connection-Bound peer l sent h)
  run-Bound (call connected id (Call.report pk timestamp bytes) ∷ es) l sent h =
      let rest =
        run-Bound es _ (sent ++ (master, bytes) ∷ [])
          (on_report-Bound connected id timestamp pk bytes l sent h) in
      rw (append_assoc sent ((master, bytes) ∷ []) (all_to master (published es))) at rest
  run-Bound (call connected id Call.peers ∷ es) l sent h = run-Bound es l sent h
  run-Bound (call connected id Call.peers_count ∷ es) l sent h = run-Bound es l sent h
  run-Bound (call connected id Call.synchronise ∷ es) l sent h =
      run-Bound es _ sent (record { default = h.default; reports = h.reports })
  run-Bound (call connected id (Call.request peer bytes) ∷ es) l sent h =
      run-Bound es _ sent (record { default = h.default; reports = h.reports })
  run-Bound (call connected id (Call.response channel bytes) ∷ es) l sent h =
      run-Bound es _ sent (record { default = h.default; reports = h.reports })

-- Once a node without a default master node has published a report while a peer was connected, it sends
-- this report and all later ones to the first peer of that time, each once and in their order, whatever
-- happens to the connection.
pub run-published :
    (requests : Codec PeerRequest) (protocol_version : ℕ) (pubkey : PublicKey) (l : Link)
    (master : Text) (others : List Text) (id timestamp : ℕ) (pk bytes : Bytes) (es : List Event)
    → l.node.default_master_node ≡ none
    → (run requests protocol_version pubkey l
        (call (master ∷ others) id (Call.report pk timestamp bytes) ∷ es)).reports
      ≡ l.reports ++ all_to master (bytes ∷ published es)
unfolding run step on_call dispatch_report
run-published requests protocol_version pubkey l master others id timestamp pk bytes es e =
    let first : Bound master (l.reports ++ (master, bytes) ∷ [])
        (on_call (master ∷ others) id (Call.report pk timestamp bytes) l).1 =
      rw (on_call, dispatch_report, e) (record { default = refl; reports = refl }) in
    (run-Bound requests protocol_version pubkey master es _ _ first).reports
    ∙ append_assoc l.reports ((master, bytes) ∷ []) (all_to master (published es))
