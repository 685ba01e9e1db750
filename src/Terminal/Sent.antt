-- ===== src/Terminal/Sent.antt =====
-- What the commands of a session send.
use pfe_development_of_a_mon.Prelude.{
  ℕ, ◌≡◌, ◌∙◌, ◌⊎◌, refl, Bool, true, false, none, some, List, [], ◌∷◌, if◌then◌else◌, Text,
  Fallible, ok, err, ◌>>=◌, OnOk, Fallible-cases, Option-cases, find, same, inl, inr,
}
use pfe_development_of_a_mon.Proto.Types.{PublicKey, Order, order}
use pfe_development_of_a_mon.Proto.External.{External}
use pfe_development_of_a_mon.Database.Tables.{User, Node, Database}
use pfe_development_of_a_mon.Database.Users.{read_i64}
use pfe_development_of_a_mon.Database.Configs.{get_template}
use pfe_development_of_a_mon.Serve.Requests.{Request}
use pfe_development_of_a_mon.Stats.Types.{Oid}
use pfe_development_of_a_mon.Client.Channel.{ClientRequest}
use pfe_development_of_a_mon.Client.Oids.{index, parse_oid}
use pfe_development_of_a_mon.Client.Orders
use pfe_development_of_a_mon.Client.Orders.{Session, Crates, pack_order, parse_perms, pubkey_of}
use pfe_development_of_a_mon.Client.Packing.{IsPacked, pack_order-IsPacked}
use pfe_development_of_a_mon.Proto.Config.{global_default}
use pfe_development_of_a_mon.Client.Plot.{plot_data}
use pfe_development_of_a_mon.Terminal.Commands.{
  draws, UserArgs, NodeArgs, TemplateArgs, Run, or_fail, Outside, execute, list_users, list_nodes,
  user, node, template, Command, on_user, on_node, on_template, session, report_error,
}

-- Nothing is sent, or one request, of one order, that is signed with the keys of the session.
abbrev pub Sends : External → Crates → Session → Run → Type 0
Sends x crates s run =
    (run.sent ≡ [])
    ⊎ ((r : Request) × (ord : Order) × (run.sent ≡ ClientRequest.request r ∷ [])
        × IsPacked x crates s (order ord ∷ []) r)

-- The line is `node get`, and the request asks for the object and the node that it spells.
pub record Asks (x : External) (o : Outside) (crates : Crates) (sessions : List Session)
    (session_id : ℕ) (c : Command) (run : Run) : Type 0 where
  pub publickey : Text
  pub oid_text : Text
  pub pk : PublicKey
  pub oid : Oid
  pub is_get : c ≡ on_node (NodeArgs.get publickey oid_text)
  pub key_read : pubkey_of x crates sessions session_id publickey ≡ ok pk
  pub oid_read : parse_oid o.uppercase oid_text ≡ ok oid
  pub asked : run.sent ≡ ClientRequest.get_stats pk oid ∷ []

module _ (x : External) (crates : Crates) (s : Session) where
  abbrev Packs : Fallible Request → Type 0
  Packs m = OnOk (λ r. (ord : Order) × IsPacked x crates s (order ord ∷ []) r) m

  then-Packs {ℓ} :
      {A : Type ℓ} (m : Fallible A) (f : A → Fallible Request)
      → ((a : A) → Packs (f a))
      → Packs (m >>= f)
  then-Packs (ok a) f h = h a
  then-Packs (err e) f h = tt

  or_fail-Sends {ℓ} :
      {A : Type ℓ} (m : Fallible A) (next : A → Run)
      → ((a : A) → Sends x crates s (next a))
      → Sends x crates s (or_fail m next)
  or_fail-Sends (ok a) next h = h a
  or_fail-Sends (err e) next h = inl refl

  if-Sends :
      (b : Bool) (r other : Run)
      → Sends x crates s r
      → Sends x crates s other
      → Sends x crates s (if b then r else other)
  if-Sends true r other h h' = h
  if-Sends false r other h h' = h'

  execute-Sends : (o : Outside) (m : Fallible Request) → Packs m → Sends x crates s (execute x o m)
  unfolding execute
  execute-Sends o (ok r) (ord, p) = inr (r, ord, refl, p)
  execute-Sends o (err e) p = inl refl

or_fail-sent {ℓ} :
    {A : Type ℓ} (m : Fallible A) (next : A → Run)
    → ((a : A) → (next a).sent ≡ [])
    → (or_fail m next).sent ≡ []
or_fail-sent (ok a) next h = h a
or_fail-sent (err e) next h = refl

if-sent :
    (b : Bool) (r other : Run) → r.sent ≡ [] → other.sent ≡ [] → (if b then r else other).sent ≡ []
if-sent true r other h h' = h
if-sent false r other h h' = h'

module _ (x : External) (o : Outside) where
  list_users-sent : (users : List User) → (list_users x o users).sent ≡ []
  unfolding list_users
  list_users-sent [] = refl
  list_users-sent (v ∷ users) =
      let rest = list_users-sent users in
      elim (Fallible-cases (read_i64 x v.last_access)) [
        | inr (f, e) ↦ rw (list_users, e) refl
        | inl (t, e) ↦
            rw (list_users, e)
              (if-sent v.active _ _
                (or_fail-sent (x.permissions.from_slice v.permissions) _
                  λ p. or_fail-sent (x.public_key.from_slice v.public_key) _ λ k. rest)
                rest)
      ]

  list_nodes-sent : (nodes : List Node) → (list_nodes x o nodes).sent ≡ []
  unfolding list_nodes
  list_nodes-sent [] = refl
  list_nodes-sent (v ∷ nodes) = or_fail-sent _ _ λ k. list_nodes-sent nodes

module _ (x : External) (o : Outside) (crates : Crates) (sessions : List Session) (session_id : ℕ)
    (s : Session) (chosen : index sessions session_id ≡ ok s) (db : Database) where
  pack_order-Packs :
      (ord : Order) → Packs x crates s (pack_order x crates sessions session_id (order ord ∷ []))
  pack_order-Packs ord =
      elim (Fallible-cases (pack_order x crates sessions session_id (order ord ∷ []))) [
        | inr (f, e) ↦ rw e tt
        | inl (r, e) ↦ rw e (ord, pack_order-IsPacked x crates sessions session_id s chosen _ r e)
      ]

  abbrev key : Text → Fallible PublicKey
  key = pubkey_of x crates sessions session_id

  user-Sends : (args : UserArgs) → Sends x crates s (user x o crates sessions session_id db args)
  unfolding user Orders.add_user Orders.update_user Orders.remove_user
  user-Sends UserArgs.list = inl (list_users-sent x o db.users)
  user-Sends (UserArgs.add name permission publickey) = execute-Sends x crates s o _ (
      then-Packs x crates s (key publickey) _
        λ k. then-Packs x crates s (parse_perms permission) _ λ p. pack_order-Packs _)
  user-Sends (UserArgs.edit name none publickey) = inl refl
  user-Sends (UserArgs.edit name (some permission) publickey) = execute-Sends x crates s o _ (
      then-Packs x crates s (key publickey) _
        λ k. then-Packs x crates s (parse_perms permission) _ λ p. pack_order-Packs _)
  user-Sends (UserArgs.remove publickey) =
      execute-Sends x crates s o _ (then-Packs x crates s (key publickey) _ λ k. pack_order-Packs _)
  user-Sends UserArgs.nothing = inl refl

  get-Asks :
      (publickey oid : Text)
      → let run = node x o crates sessions session_id db (NodeArgs.get publickey oid) in
        Sends x crates s run
        ⊎ Asks x o crates sessions session_id (on_node (NodeArgs.get publickey oid)) run
  unfolding node
  get-Asks publickey oid = elim (Fallible-cases (parse_oid o.uppercase oid)) [
    | inr (f, e) ↦ rw (node, e) (inl (inl refl))
    | inl (oid', read) ↦ elim (Fallible-cases (key publickey)) [
      | inr (f, e) ↦ rw (node, read, e) (inl (inl refl))
      | inl (pk, known) ↦ inr (record {
        publickey = publickey;
        oid_text = oid;
        pk = pk;
        oid = oid';
        is_get = refl;
        key_read = known;
        oid_read = read;
        asked = rw (node, read, known) refl;
      })
    ]
  ]

  abbrev IsSent : Command → Run → Type 0
  IsSent c run = Sends x crates s run ⊎ Asks x o crates sessions session_id c run

  node-Sends :
      (args : NodeArgs) → IsSent (on_node args) (node x o crates sessions session_id db args)
  unfolding node Orders.add_node Orders.update_node Orders.remove_node Orders.change_node_config
  node-Sends NodeArgs.list = inl (inl (list_nodes-sent x o db.nodes))
  node-Sends (NodeArgs.add name publickey master) = inl (
      execute-Sends x crates s o _
        (then-Packs x crates s (key publickey) _ λ k. pack_order-Packs _))
  node-Sends (NodeArgs.edit name publickey) = inl (
      execute-Sends x crates s o _ (
        then-Packs x crates s (key publickey) _
          λ k. then-Packs x crates s (x.public_key.to_vec k) _ λ b. pack_order-Packs _))
  node-Sends (NodeArgs.remove publickey) = inl (
      execute-Sends x crates s o _ (
        then-Packs x crates s (key publickey) _
          λ k. then-Packs x crates s (x.public_key.to_vec k) _ λ b. pack_order-Packs _))
  node-Sends (NodeArgs.change_template publickey name) = inl (
      execute-Sends x crates s o _
        (then-Packs x crates s (key publickey) _ λ k. pack_order-Packs _))
  node-Sends (NodeArgs.get publickey oid) = get-Asks publickey oid
  node-Sends (NodeArgs.plot publickey oid_string) = inl (
      or_fail-Sends x crates s (parse_oid o.uppercase oid_string) _ λ oid.
        or_fail-Sends x crates s (key publickey) _ λ pk.
          or_fail-Sends x crates s (plot_data x o.show db pk oid 0) _
            λ r. if-Sends x crates s (draws r) _ _ (inl refl) (inl refl))
  node-Sends NodeArgs.nothing = inl (inl refl)

  template-Sends :
      (args : TemplateArgs) → Sends x crates s (template x o crates sessions session_id db args)
  unfolding template Orders.set_config Orders.remove_config get_template
  template-Sends (TemplateArgs.generate_file output) =
      or_fail-Sends x crates s (global_default x) _
        λ c. or_fail-Sends x crates s (o.write_config output _) _ λ w. inl refl
  template-Sends TemplateArgs.list = inl refl
  template-Sends (TemplateArgs.show name) =
      elim (Option-cases (find (λ c. same c.name name) db.configs)) [
        | inl e ↦ rw (template, e) (inl refl)
        | inr (c, e) ↦
            rw (template, e)
              (or_fail-Sends x crates s (x.master_config.from_slice c.master_conf) _ λ m.
                or_fail-Sends x crates s (x.node_config.from_slice c.node_conf) _ λ n. inl refl)
      ]
  template-Sends (TemplateArgs.set name config_file) =
      or_fail-Sends x crates s (o.read_config config_file) _
        λ c. execute-Sends x crates s o _ (pack_order-Packs _)
  template-Sends (TemplateArgs.remove name) = execute-Sends x crates s o _ (pack_order-Packs _)
  template-Sends TemplateArgs.nothing = inl refl

  report_error-Sends : (r : Run) → Sends x crates s r → Sends x crates s (report_error r)
  report_error-Sends r h = elim (Fallible-cases r.result) [
    | inl (u, e) ↦ rw e h
    | inr (f, e) ↦ rw e h
  ]

  report_error-sent : (r : Run) → (report_error r).sent ≡ r.sent
  report_error-sent r = elim (Fallible-cases r.result) [
    | inl (u, e) ↦ rw e refl
    | inr (f, e) ↦ rw e refl
  ]

  report_error-Asks :
      (c : Command) (r : Run)
      → Asks x o crates sessions session_id c r
      → Asks x o crates sessions session_id c (report_error r)
  report_error-Asks c r h = record {
    publickey = h.publickey;
    oid_text = h.oid_text;
    pk = h.pk;
    oid = h.oid;
    is_get = h.is_get;
    key_read = h.key_read;
    oid_read = h.oid_read;
    asked = report_error-sent r ∙ h.asked;
  }

  report_error-IsSent : (c : Command) (r : Run) → IsSent c r → IsSent c (report_error r)
  report_error-IsSent c r (inl h) = inl (report_error-Sends r h)
  report_error-IsSent c r (inr h) = inr (report_error-Asks c r h)

  -- A line of an open session hands nothing to the connection, or one request, which has one order and is
  -- signed with the keys of the session; or it is `node get`, and hands over the unsigned question for the
  -- object and the node that the line spells.
  pub session-Sends :
      (c : Command)
      → Sends x crates s (session x o crates sessions session_id db c)
        ⊎ Asks x o crates sessions session_id c (session x o crates sessions session_id db c)
  unfolding session
  session-Sends (on_user args) = inl (report_error-Sends _ (user-Sends args))
  session-Sends (on_node args) = report_error-IsSent (on_node args) _ (node-Sends args)
  session-Sends (on_template args) = inl (report_error-Sends _ (template-Sends args))
