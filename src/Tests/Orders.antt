-- ===== src/Tests/Orders.antt =====
-- The checks on orders and their execution.
use pfe_development_of_a_mon.Prelude.{
  ◌⊎◌, ◌≡◌, ◌↔◌, refl, true, false, List, [], ◌∷◌, text, length, All, same, ok, err, is_ok,
  row_not_found,
}
use pfe_development_of_a_mon.Proto.Types.{
  root, monitor, add_node, edit_user, remove_config, nothing, Update,
}
use pfe_development_of_a_mon.Database.Users
use pfe_development_of_a_mon.Verify.Check.{accept, verify_order, verify_req}
use pfe_development_of_a_mon.Verify.Authority.{IsOwnEdit, verify_order-IsOwnEdit}
use pfe_development_of_a_mon.Verify.Acceptance.{IsAllowed}
use pfe_development_of_a_mon.Verify.Soundness.{
  verify_order_iff, verify_req_iff, IsAllowedRequest, verify_order-remove_config,
}
use pfe_development_of_a_mon.Interpret.Execute.{interpret_block, interpret_order}
use pfe_development_of_a_mon.Interpret.Registry.{view, apply_all}
use pfe_development_of_a_mon.Interpret.Refinement.{interpret_block-Refines}
use pfe_development_of_a_mon.Interpret.Blocks.{interpret_block_frame}
use pfe_development_of_a_mon.Tests.Sample.{toy, db, admin, sensor, viewer, add_sensor}

verify_order-IsOwnEdit_example :
    IsOwnEdit viewer (monitor ∷ []) (edit_user (text "me") viewer (monitor ∷ []))
unfolding verify_order Users.entity_with_pubkey_exists same
verify_order-IsOwnEdit_example =
    verify_order-IsOwnEdit toy db viewer (monitor ∷ []) refl
      (edit_user (text "me") viewer (monitor ∷ [])) refl

verify_order_iff_example :
    (verify_order toy db (add_node (text "sensor") sensor) admin (root ∷ []) ≡ accept)
    ↔ IsAllowed toy db admin (root ∷ []) (add_node (text "sensor") sensor)
verify_order_iff_example =
    verify_order_iff toy db admin (root ∷ []) (add_node (text "sensor") sensor)

verify_req_iff_example :
    (verify_req toy db (3 ∷ []) add_sensor admin (root ∷ []) (3 ∷ []) ≡ accept) ↔ (
      (toy.verify admin (3 ∷ []) (3 ∷ []) ≡ ok true)
      × All (IsAllowedRequest toy db admin (root ∷ [])) add_sensor)
verify_req_iff_example = verify_req_iff toy db admin (root ∷ []) (3 ∷ []) add_sensor (3 ∷ [])

verify_order-remove_config_example :
    verify_order toy db (remove_config (text "old")) admin (root ∷ []) ≡ err row_not_found
unfolding same
verify_order-remove_config_example =
    verify_order-remove_config toy db (text "old") admin (root ∷ [])

interpret_block-Refines_example :
    view (interpret_block toy db add_sensor).0 ≡ apply_all toy add_sensor (view db)
unfolding interpret_block interpret_order
interpret_block-Refines_example = interpret_block-Refines toy db add_sensor (nothing ∷ []) refl

interpret_block_frame_example :
    let (after, r) = interpret_block toy db add_sensor in
    (after.chain ≡ db.chain)
    × (((updates : List Update) × (r ≡ ok updates) × (length updates ≡ length add_sensor))
        ⊎ ((is_ok r ≡ false) × (after ≡ db)))
interpret_block_frame_example = interpret_block_frame toy db add_sensor
