-- ===== src/Interpret/Shared.antt =====
-- The part of the tables that the chain determines: blocks, users, nodes and configurations, without
-- the peers and the reports of the single node. Verification and execution look at nothing else.
use pfe_development_of_a_mon.Prelude.{
  ◌≡◌, refl, List, [], ◌∷◌, ◌∙◌, ap, sym, Bytes, any, same, inl, inr, Bool-cases, Fallible, ok, err,
  ◌>>=◌, ℕ, eqb_ℤ, as_i64, Failure,
}
use mathlib.Core.Path.{subst}
use pfe_development_of_a_mon.Proto.Types.{
  PublicKey, Permissions, Order, add_user, add_master_node, add_node, edit_user, edit_master_node,
  edit_node, remove_user, remove_master_node, remove_node, change_node_config, update_public_key,
  set_config, remove_config, update_vote_weight, RequestType, order, Update, nothing,
  master_node_list_update, config_update,
}
use pfe_development_of_a_mon.Proto.External.{External}
use pfe_development_of_a_mon.Database.Tables.{ChainRow, Config, Database}
use pfe_development_of_a_mon.Database.Chain.{add_new}
use pfe_development_of_a_mon.Database.Users.{
  get_user_with_pubkey, entity_with_pubkey_exists, config_exists, config_used,
  master_with_pubkey_exists,
}
use pfe_development_of_a_mon.Verify.Check.{
  check_entity, check_authority, verify_order, verify_orders, verify_req, and_then,
}
use pfe_development_of_a_mon.Interpret.Execute.{
  delete_node, upsert_config, interpret_order, interpret_orders, interpret_block,
}

abbrev pub core : Database → Database
core db = record db { peer_ids = []; stats = [] }

-- What an execution leaves, without the peers and the reports.
abbrev core_of {ℓ} : {A : Type ℓ} → Fallible (A × Database) → Fallible (A × Database)
core_of (err e) = err e
core_of (ok (a, db)) = ok (a, core db)

abbrev pub map_core : Fallible Database → Fallible Database
map_core (err e) = err e
map_core (ok db) = ok (core db)

-- Two chains that differ only behind the same call.
core_bind :
    {A B : Type 0} (m : Fallible A) (f g : A → Fallible (B × Database))
    → ((a : A) → core_of (f a) ≡ core_of (g a))
    → core_of (m >>= f) ≡ core_of (m >>= g)
core_bind (err e) f g h = refl
core_bind (ok a) f g h = h a

module _ (x : External) (db : Database) where
  core-delete_node : (pk : Bytes) → core (delete_node x db pk) ≡ core (delete_node x (core db) pk)
  core-delete_node pk = elim (Bool-cases x.foreign_keys) [ inl e ↦ rw e refl | inr e ↦ rw e refl ]

  core-upsert_config :
      (name m n : Bytes)
      → core (upsert_config db name m n) ≡ core (upsert_config (core db) name m n)
  core-upsert_config name m n =
      elim (Bool-cases (any (λ (c : Config). same c.name name) db.configs)) [
        | inl e ↦ rw e refl
        | inr e ↦ rw e refl
      ]

  core-interpret_order :
      (o : Order) → core_of (interpret_order x db o) ≡ core_of (interpret_order x (core db) o)
  unfolding interpret_order
  core-interpret_order (add_user name k perm) =
      core_bind (x.public_key.to_vec k) _ _
        λ pk. core_bind (x.permissions.to_vec perm) _ _ (λ p. refl)
  core-interpret_order (add_master_node name k) = core_bind (x.public_key.to_vec k) _ _ (λ pk. refl)
  core-interpret_order (add_node name k) = core_bind (x.public_key.to_vec k) _ _ (λ pk. refl)
  core-interpret_order (edit_user name k perm) =
      core_bind (x.permissions.to_vec perm) _ _
        λ p. core_bind (x.public_key.to_vec k) _ _ (λ pk. refl)
  core-interpret_order (edit_master_node name k) =
      core_bind (x.public_key.to_vec k) _ _ (λ pk. refl)
  core-interpret_order (edit_node name k) = core_bind (x.public_key.to_vec k) _ _ (λ pk. refl)
  core-interpret_order (remove_user k) = core_bind (x.public_key.to_vec k) _ _ (λ pk. refl)
  core-interpret_order (remove_master_node k) =
      core_bind (x.public_key.to_vec k) _ _
        (λ pk. ap (λ d. ok (master_node_list_update, d)) (core-delete_node pk))
  core-interpret_order (remove_node k) =
      core_bind (x.public_key.to_vec k) _ _ (λ pk. ap (λ d. ok (nothing, d)) (core-delete_node pk))
  core-interpret_order (change_node_config k name) =
      core_bind (x.public_key.to_vec k) _ _ (λ pk. refl)
  core-interpret_order (update_public_key k new) =
      core_bind (x.public_key.to_vec new) _ _
        λ pk. core_bind (x.public_key.to_vec k) _ _ (λ p. refl)
  core-interpret_order (set_config name m n) = core_bind (x.master_config.to_vec m) _ _ λ mb.
      core_bind (x.node_config.to_vec n) _ _
        (λ nb. ap (λ d. ok (config_update name m n, d)) (core-upsert_config name mb nb))
  core-interpret_order (remove_config name) = refl
  core-interpret_order (update_vote_weight k weight) =
      core_bind (x.public_key.to_vec k) _ _ (λ pk. refl)

  verify_order-core :
      (o : Order) (pk : PublicKey) (perms : Permissions)
      → verify_order x (core db) o pk perms ≡ verify_order x db o pk perms
  unfolding verify_order check_entity check_authority entity_with_pubkey_exists config_exists
      config_used master_with_pubkey_exists
  verify_order-core (add_user name k perm) pk perms = refl
  verify_order-core (add_master_node name k) pk perms = refl
  verify_order-core (add_node name k) pk perms = refl
  verify_order-core (edit_user name k perm) pk perms = refl
  verify_order-core (edit_master_node name k) pk perms = refl
  verify_order-core (edit_node name k) pk perms = refl
  verify_order-core (remove_user k) pk perms = refl
  verify_order-core (remove_master_node k) pk perms = refl
  verify_order-core (remove_node k) pk perms = refl
  verify_order-core (change_node_config k name) pk perms = refl
  verify_order-core (update_public_key k new) pk perms = refl
  verify_order-core (set_config name m n) pk perms = refl
  verify_order-core (remove_config name) pk perms = refl
  verify_order-core (update_vote_weight k weight) pk perms = refl

  verify_orders-core :
      (req : List RequestType) (pk : PublicKey) (perms : Permissions)
      → verify_orders x (core db) req pk perms ≡ verify_orders x db req pk perms
  unfolding verify_orders
  verify_orders-core [] pk perms = refl
  verify_orders-core (order o ∷ req) pk perms =
      λ i. and_then (verify_order-core o pk perms i) (verify_orders-core req pk perms i)

  pub verify_req-core :
      (raw : Bytes) (req : List RequestType) (pk : PublicKey) (perms : Permissions) (sig : Bytes)
      → verify_req x (core db) raw req pk perms sig ≡ verify_req x db raw req pk perms sig
  unfolding verify_req
  verify_req-core raw req pk perms sig = rw (verify_orders-core req pk perms) refl

  pub get_user-core :
      (pk : Bytes) → get_user_with_pubkey x (core db) pk ≡ get_user_with_pubkey x db pk
  unfolding get_user_with_pubkey
  get_user-core pk = refl

  pub core-add_new :
      (id : ℕ) (contents hash : Bytes)
      → map_core (add_new db id contents hash) ≡ map_core (add_new (core db) id contents hash)
  unfolding add_new
  core-add_new id contents hash =
      elim (Bool-cases (any (λ (r : ChainRow). eqb_ℤ r.id (as_i64 id)) db.chain)) [
        | inl e ↦ rw e refl
        | inr e ↦ rw e refl
      ]

-- Two executions end alike: with the same failure, or with the same value and tables that have the
-- same core.
pub data Alike {A : Type 0} : Fallible (A × Database) → Fallible (A × Database) → Type 0 where
  both_fail : (f : Failure) → Alike (err f) (err f)
  both_done : (a : A) (d e : Database) → core d ≡ core e → Alike (ok (a, d)) (ok (a, e))

module _ {A : Type 0} where
  of_core : (r s : Fallible (A × Database)) → core_of r ≡ core_of s → Alike r s
  of_core (err f) (err g) h =
      let same : f ≡ g = cc in subst (λ k. Alike {A = A} (err f) (err k)) same (both_fail f)
  of_core (err f) (ok b) h = cc
  of_core (ok a) (err g) h = cc
  of_core (ok (a, d)) (ok (b, e)) h =
      let same : a ≡ b = cc in
      let cores : core d ≡ core e = cc in
      subst (λ k. Alike (ok (a, d)) (ok (k, e))) same (both_done a d e cores)

module _ (x : External) where
  interpret_order-Alike :
      (o : Order) (d e : Database)
      → core d ≡ core e
      → Alike (interpret_order x d o) (interpret_order x e o)
  interpret_order-Alike o d e h = of_core _ _ (
      core-interpret_order x d o
      ∙ ap (λ t. core_of (interpret_order x t o)) h
      ∙ sym (core-interpret_order x e o))

  after_order :
      (reqs : List RequestType) (r s : Fallible (Update × Database))
      → Alike r s
      → ((d e : Database)
          → core d ≡ core e
          → Alike (interpret_orders x d reqs) (interpret_orders x e reqs))
      → Alike
          (r >>= λ (u, tx). interpret_orders x tx reqs >>= λ (us, tx'). ok (u ∷ us, tx'))
          (s >>= λ (u, tx). interpret_orders x tx reqs >>= λ (us, tx'). ok (u ∷ us, tx'))
  after_order reqs r s (both_fail f) rec = both_fail f
  after_order reqs r s (both_done u d e h) rec = listed (rec d e h)
    where
      listed :
          {v w : Fallible (List Update × Database)}
          → Alike v w
          → Alike (v >>= λ (us, tx'). ok (u ∷ us, tx')) (w >>= λ (us, tx'). ok (u ∷ us, tx'))
      listed (both_fail f) = both_fail f
      listed (both_done us d' e' h') = both_done (u ∷ us) d' e' h'

  interpret_orders-Alike :
      (reqs : List RequestType) (d e : Database)
      → core d ≡ core e
      → Alike (interpret_orders x d reqs) (interpret_orders x e reqs)
  unfolding interpret_orders
  interpret_orders-Alike [] d e h = both_done [] d e h
  interpret_orders-Alike (order o ∷ reqs) d e h =
      after_order reqs _ _ (interpret_order-Alike o d e h) (interpret_orders-Alike reqs)

  -- Tables with the same core: an execution has the same result, and leaves the same core.
  pub interpret_block-core :
      (reqs : List RequestType) (d e : Database)
      → core d ≡ core e
      → (core (interpret_block x d reqs).0 ≡ core (interpret_block x e reqs).0)
        × ((interpret_block x d reqs).1 ≡ (interpret_block x e reqs).1)
  unfolding interpret_block
  interpret_block-core reqs d e h = ends (interpret_orders-Alike reqs d e h)
    where
      ended : Database → Fallible (List Update × Database) → Database × Fallible (List Update)
      ended db (ok (us, tx)) = (tx, ok us)
      ended db (err f) = (db, err f)

      ends :
          {r s : Fallible (List Update × Database)}
          → Alike r s
          → (core (ended d r).0 ≡ core (ended e s).0) × ((ended d r).1 ≡ (ended e s).1)
      ends (both_fail f) = (h, refl)
      ends (both_done us d' e' h') = (h', refl)
