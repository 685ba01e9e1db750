-- ===== src/Gossip/Receive.antt =====
-- The arm `GossipsubEvent::Message` of `inject_event`, for a message with a source
-- (nyumt-node/src/master/net_behavior.rs).
use pfe_development_of_a_mon.Prelude.{
  ℕ, zero, suc, ◌+◌, Bool, true, false, not, Option, none, some, List, [], ◌∷◌, ◌++◌, Bytes, Text,
  same, retain, if◌then◌else◌, Fallible, ok, err,
}
use pfe_development_of_a_mon.Proto.Types.{BodyData, Block}
use pfe_development_of_a_mon.Proto.External.{Codec, External}
use pfe_development_of_a_mon.Database.Tables.{Database}
use pfe_development_of_a_mon.Database.Users.{get_user_with_pubkey}
use pfe_development_of_a_mon.Database.Nodes.{get_peer_master_node_pk}
use pfe_development_of_a_mon.Verify.Check.{Verdict, verify_hash, verify_req}
use pfe_development_of_a_mon.Consensus.Types.{vote_ok, vote_no, Pending, NetEvent, NetData, Master}
use pfe_development_of_a_mon.Consensus.Events.{count_vote}

-- The node, and the events that it has put into the channel of `handle_incoming_data`.
pub record Receiver : Type 0 where
  pub node : Master
  pub queue : List NetEvent

abbrev pub enqueue : NetEvent → Receiver → Receiver
enqueue e g = record g { queue = g.queue ++ e ∷ [] }

-- `push((block.hash, TotalVote { ok: 0, no: 0 }, 0))`.
abbrev pub expect : Bytes → Receiver → Receiver
expect hash g = record g {
  node = record g.node {
    pending =
        g.node.pending
        ++ record { hash = hash; votes = record { in_favour = 0; against = 0 }; voters = 0 } ∷ [];
  };
}

-- Only an acceptance counts.
abbrev pub when_accepted : BodyData → Verdict → Option BodyData
when_accepted body (ok none) = some body
when_accepted body _ = none

abbrev pub from_ok : {A B : Type 0} → Fallible A → (A → Option B) → Option B
from_ok (ok a) k = k a
from_ok (err _) k = none

-- `accepts n` is whether gossipsub takes the message of attempt `n`.
module _ (x : External) (net : Codec NetData) (accepts : ℕ → Bool) where
  -- The body of a block that the node agrees with.
  unfoldable pub validate : Database → Block → Option BodyData
  validate db block =
      if verify_hash x block.body block.hash
      then from_ok (x.body_data.from_slice block.body) (λ v.
        from_ok (x.public_key.to_vec v.user_pk) λ pk. from_ok (get_user_with_pubkey x db pk) λ user.
          from_ok (x.permissions.from_slice user.permissions)
            λ perm. when_accepted v (verify_req x db block.body v.req v.user_pk perm v.sign))
      else none

  -- The vote against, which gossipsub may not take, and the end of the wait for votes.
  unfoldable pub vote_against : Bytes → Receiver → Receiver
  vote_against hash g =
      let drop = retain (λ (p : Pending). not (same p.hash hash)) g.node.pending in
      let no = NetData.vote hash vote_no in
      elim (net.to_vec no) [
        | ok _ ↦
            if accepts 0
            then record g {
              node = record g.node { pending = drop; outbox = g.node.outbox ++ no ∷ [] };
            }
            else record g { node = record g.node { pending = drop } }
        | err _ ↦ record g { node = record g.node { pending = drop } }
      ]

  -- The loop `for i in 1..=retry`, from attempt `i` on; what follows it is the vote against.
  unfoldable pub push_vote : ℕ → ℕ → BodyData → Bytes → Receiver → Receiver
  unfolding vote_against
  push_vote zero i body hash g = vote_against hash g
  push_vote (suc left) i body hash g = elim (accepts i) [
    | true ↦ enqueue (NetEvent.new_block body hash) (record g {
      node = record g.node { outbox = g.node.outbox ++ NetData.vote hash vote_ok ∷ [] };
    })
    | false ↦ push_vote left (i + 1) body hash g
  ]

  unfoldable pub vote_for : BodyData → Bytes → Receiver → Receiver
  unfolding push_vote vote_against
  vote_for body hash g =
      let counted = record g {
        node = record g.node { pending = count_vote hash vote_ok 1 g.node.pending };
      } in
      elim (net.to_vec (NetData.vote hash vote_ok)) [
        | ok _ ↦ push_vote g.node.conf.master.vote_push_retries 1 body hash counted
        | err _ ↦ vote_against hash counted
      ]

  -- `NetData::Block`.
  unfoldable pub on_block : Block → Receiver → Receiver
  unfolding validate vote_for vote_against
  on_block block g = elim (validate g.node.db block) [
    | some body ↦ vote_for body block.hash (expect block.hash g)
    | none ↦ vote_against block.hash (expect block.hash g)
  ]

  unfoldable pub on_data : NetData → Receiver → Receiver
  unfolding on_block
  on_data (NetData.vote hash v) g = enqueue (NetEvent.vote hash v 1) g
  on_data (NetData.serial_vote height hash v) g = enqueue (NetEvent.serial_vote height hash v 1) g
  on_data (NetData.archive_block v) g = enqueue (NetEvent.archive_block v) g
  on_data (NetData.block block) g = on_block block g

  -- What is read of a message: nothing, unless a master node of the tables is its source and has
  -- signed it.
  unfoldable pub read_message : Database → Text → Bytes → Bytes → Option NetData
  read_message db peer contents message_id = elim (get_peer_master_node_pk db peer) [
    | ok (some v) ↦ from_ok (x.public_key.from_slice v) λ pk.
        from_ok (x.verify pk contents message_id)
          λ good. if good then from_ok (net.from_slice contents) some else none
    | _ ↦ none
  ]

  unfoldable pub inject_message : Text → Bytes → Bytes → Receiver → Receiver
  unfolding read_message on_data
  inject_message peer contents message_id g =
      elim (read_message g.node.db peer contents message_id) [ some d ↦ on_data d g | none ↦ g ]
