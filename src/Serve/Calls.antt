-- ===== src/Serve/Calls.antt =====
-- `SwarmHandlerCall` (nyumt-node/src/master_serve/activity.rs): how the tasks of a master node ask its
-- loop for something.
use pfe_development_of_a_mon.Prelude.{ℕ, ◌≡◌, refl, Bool, Bytes, Text, Fallible, ok, err, panicked}
use pfe_development_of_a_mon.Proto.External.{Codec}
use pfe_development_of_a_mon.Client.Channel.{ClientResponse}
use pfe_development_of_a_mon.Serve.Links.{Server, Call, on_call}

-- `SwarmHandlerResponse`: `disconnect_peer_status` holds whether the peer was connected.
data Reply : Type 0 where
  report stat error nothing : Reply
  disconnect_peer_status : Bool → Reply

module _ (responses : Codec ClientResponse) (connected : Text → Bool) where
  -- What the loop sends back once it has carried a call out.
  abbrev reply_to : Call → Reply
  reply_to (Call.report peer bytes) = Reply.report
  reply_to (Call.stat peer bytes) = Reply.stat
  reply_to (Call.disconnect_peer peer) = Reply.disconnect_peer_status (connected peer)
  reply_to (Call.error peer) = Reply.error
  reply_to (Call.response channel bytes) = Reply.nothing

  abbrev make_call : Call → Server → Reply × Server
  make_call c s = (reply_to c, on_call responses c s)

  abbrev on_report : Reply × Server → Fallible Server
  on_report (Reply.report, s) = ok s
  on_report (_, s) = err panicked

  abbrev on_stat : Reply × Server → Fallible Server
  on_stat (Reply.stat, s) = ok s
  on_stat (_, s) = err panicked

  abbrev on_error : Reply × Server → Fallible Server
  on_error (Reply.error, s) = ok s
  on_error (_, s) = err panicked

  abbrev on_status : Reply × Server → Fallible (Bool × Server)
  on_status (Reply.disconnect_peer_status v, s) = ok (v, s)
  on_status (_, s) = err panicked

  abbrev on_nothing : Reply × Server → Fallible Server
  on_nothing (Reply.nothing, s) = ok s
  on_nothing (_, s) = err panicked

  abbrev send_reports : Text → Bytes → Server → Fallible Server
  send_reports peer reports s = on_report (make_call (Call.report peer reports) s)

  abbrev send_stats : Text → Bytes → Server → Fallible Server
  send_stats peer stats s = on_stat (make_call (Call.stat peer stats) s)

  abbrev req_error : Text → Server → Fallible Server
  req_error peer s = on_error (make_call (Call.error peer) s)

  abbrev disconnect_from_peer : Text → Server → Fallible (Bool × Server)
  disconnect_from_peer peer s = on_status (make_call (Call.disconnect_peer peer) s)

  abbrev respond : ℕ → Bytes → Server → Fallible Server
  respond channel bytes s = on_nothing (make_call (Call.response channel bytes) s)

  -- Every call of a task is carried out and answered in its own kind.
  calls-answered :
      (peer : Text) (bytes : Bytes) (channel : ℕ) (s : Server)
      → (send_reports peer bytes s ≡ ok (on_call responses (Call.report peer bytes) s))
        × (send_stats peer bytes s ≡ ok (on_call responses (Call.stat peer bytes) s))
        × (req_error peer s ≡ ok (on_call responses (Call.error peer) s))
        × (disconnect_from_peer peer s
            ≡ ok (connected peer, on_call responses (Call.disconnect_peer peer) s))
        × (respond channel bytes s ≡ ok (on_call responses (Call.response channel bytes) s))
  calls-answered peer bytes channel s = (refl, refl, refl, refl, refl)
