-- ===== src/Tests/Blocks.antt =====
-- The way of a block through the master nodes.
use pfe_development_of_a_mon.Prelude.{
  ◌≡◌, refl, true, false, none, some, [], ◌∷◌, arith, pos, text, same,
}
use pfe_development_of_a_mon.Proto.Types.{RequestStatus, nothing}
use pfe_development_of_a_mon.Database.Chain.{get_last_block, add_new}
use pfe_development_of_a_mon.Database.Nodes.{master_node_count}
use pfe_development_of_a_mon.Interpret.Execute.{interpret_block, interpret_order}
use pfe_development_of_a_mon.Consensus.Publish.{publish, multi_master}
use pfe_development_of_a_mon.Consensus.Submit.{Submitted, submit}
use pfe_development_of_a_mon.Consensus.Rounds.{submit_total}
use pfe_development_of_a_mon.Consensus.Linked.{
  Turn, KeepsRows, submit_all, Extends, submit_all-Extends,
}
use pfe_development_of_a_mon.Consensus.Growth.{Grows, submit-Grows}
use pfe_development_of_a_mon.Tests.Sample.{
  toy, net, net-RoundTrips, alone, alone-KeepsU8, alone-KeepsChain, master, body, db,
}

-- The tables after the block of the sample.
abbrev stored : Submitted
stored = record {
  status = RequestStatus.ok;
  state = record master {
    db = record db {
      chain =
          record { id = pos 0; contents = 1 ∷ []; hash = 5 ∷ [] }
          ∷ record { id = pos 1; contents = 1 ∷ []; hash = 5 ∷ 1 ∷ [] }
          ∷ [];
      nodes =
          record {
            id = 1;
            name = text "controller0";
            public_key = 20 ∷ [];
            master_node = true;
            conf = text "default";
            vote_weight = some 1;
          }
          ∷ record {
            id = 2;
            name = text "sensor";
            public_key = 30 ∷ [];
            master_node = false;
            conf = text "default";
            vote_weight = none;
          }
          ∷ [];
    };
  };
  updates = some (nothing ∷ []);
}

submit-stored : submit toy net alone body master ≡ some stored
unfolding submit get_last_block same publish multi_master master_node_count add_new interpret_block
    interpret_order
submit-stored = refl

submit_total_example : (r : Submitted) × (submit toy net alone body master ≡ some r)
submit_total_example = submit_total toy net alone alone-KeepsU8 body master (omega arith)

submit-Grows_example : Grows toy body db stored
submit-Grows_example =
    submit-Grows toy net alone alone-KeepsChain net-RoundTrips body master stored submit-stored

abbrev turn : Turn
turn = record { body = body; world = alone; meanwhile = λ m. m }

turn-KeepsRows : KeepsRows turn
turn-KeepsRows = record { voting = alone-KeepsChain; later = λ m. refl }

submit_all-stored : submit_all toy net master (turn ∷ []) ≡ some stored.state
unfolding submit_all
submit_all-stored = rw (submit_all, submit-stored) refl

submit_all-Extends_example : Extends toy net 0 (5 ∷ []) (turn ∷ []) master stored.state
unfolding get_last_block
submit_all-Extends_example =
    submit_all-Extends toy net net-RoundTrips (turn ∷ []) master stored.state 0 (5 ∷ [])
      (turn-KeepsRows, tt) refl (omega arith, tt) (omega arith) submit_all-stored
