-- ===== src/Terminal/Commands.antt =====
-- `user`, `node` and `template` (nyumt-client-cli/src/session.rs): what a line of the user does. The
-- arguments are what `clap` has matched.
use pfe_development_of_a_mon.Prelude.{
  true, false, all, panicked, ℕ, Bool, Option, none, some, List, [], ◌∷◌, ◌++◌, map, if◌then◌else◌,
  Text, Fallible, ok, err, refused, Failure,
}
use pfe_development_of_a_mon.Stats.Types.{VarValue, Oid}
use pfe_development_of_a_mon.Stats.Oids.{generate}
use pfe_development_of_a_mon.Proto.Types.{PublicKey, Permissions, GlobalConfig, RequestStatus}
use pfe_development_of_a_mon.Proto.Config.{global_default}
use pfe_development_of_a_mon.Proto.External.{External}
use pfe_development_of_a_mon.Database.Tables.{User, Node, Database}
use pfe_development_of_a_mon.Database.Users.{read_i64}
use pfe_development_of_a_mon.Database.Configs.{get_template_list, get_template}
use pfe_development_of_a_mon.Serve.Requests.{Request, RequestResp, request_status}
use pfe_development_of_a_mon.Client.Channel.{ClientRequest}
use pfe_development_of_a_mon.Client.Oids.{parse_oid}
use pfe_development_of_a_mon.Client.Orders
use pfe_development_of_a_mon.Client.Orders.{Session, Crates, pubkey_of}
use pfe_development_of_a_mon.Client.Plot.{Point, interpret_stats, plot_data}

-- The permissions of `edit` need not be given.
pub data UserArgs : Type 0 where
  list : UserArgs
  add : Text → List Text → Text → UserArgs
  edit : Text → Option (List Text) → Text → UserArgs
  remove : Text → UserArgs
  nothing : UserArgs

pub data NodeArgs : Type 0 where
  list : NodeArgs
  add : Text → Text → Bool → NodeArgs
  edit : Text → Text → NodeArgs
  remove : Text → NodeArgs
  change_template : Text → Text → NodeArgs
  get : Text → Text → NodeArgs
  plot : Text → Text → NodeArgs
  nothing : NodeArgs

pub data TemplateArgs : Type 0 where
  generate_file : Text → TemplateArgs
  list : TemplateArgs
  show : Text → TemplateArgs
  set : Text → Text → TemplateArgs
  remove : Text → TemplateArgs
  nothing : TemplateArgs

-- A line of the session, by its first word.
pub data Command : Type 0 where
  on_user : UserArgs → Command
  on_node : NodeArgs → Command
  on_template : TemplateArgs → Command

-- What is printed, and the window of a plot.
pub data Line : Type 0 where
  user_row : ℕ → Text → Permissions → PublicKey → Line
  node_row : ℕ → Text → Bool → Text → PublicKey → Line
  template_row : Text × ℕ → Line
  response : RequestResp → Line
  failure : Failure → Line
  value_of : Text × VarValue → Line
  config_of : GlobalConfig → Line
  not_found : Text → Line
  written_to : Text → Line
  plotted : Text → List (ℕ × Point) → Line

-- The lines in their order, the requests that were handed to the connection, and what is returned.
pub record Run : Type 0 where
  pub printed : List Line
  pub sent : List ClientRequest
  pub result : Fallible (Unit {0})

abbrev pub prints : List Line → Run
prints ls = record { printed = ls; sent = []; result = ok tt }

abbrev pub fails : Failure → Run
fails e = record { printed = []; sent = []; result = err e }

abbrev pub after_line : Line → Run → Run
after_line l r = record r { printed = l ∷ r.printed }

-- An error that is returned is printed.
abbrev pub report_error : Run → Run
report_error r = elim r.result [
  | ok _ ↦ r
  | err e ↦ record r { printed = r.printed ++ failure e ∷ []; result = ok tt }
]

-- `?` on a call that sends nothing.
abbrev pub or_fail {ℓ} : {A : Type ℓ} → Fallible A → (A → Run) → Run
or_fail (ok a) next = next a
or_fail (err e) next = fails e

-- What the outside supplies: the answer to a request (`Client::execute`), live measurements
-- (`Client::get_stats`), the files, and the texts that the
-- standard library makes.
pub record Outside : Type 0 where
  pub execute : Request → Fallible RequestResp
  pub get_stats : PublicKey → Oid → Fallible RequestResp
  pub write_config : Text → GlobalConfig → Fallible (Unit {0})
  pub read_config : Text → Fallible GlobalConfig
  pub decimal : ℕ → Text
  pub show : VarValue → Text
  pub uppercase : Text → Text

-- Whether `plot::show` comes to draw the points: `data[0]` and `unwrap` stop the task where there is no
-- point, and where the first one has a name and another one has none.
abbrev pub is_named : ℕ × Point → Bool
is_named (time, (shown, none)) = false
is_named (time, (shown, some name)) = true

unfoldable pub draws : List (ℕ × Point) → Bool
draws [] = false
draws (p ∷ points) = if is_named p then all is_named points else true

module _ (x : External) (o : Outside) where
  -- The `match` on a request that was built.
  unfoldable pub execute : Fallible Request → Run
  execute (ok r) = record {
    printed = elim (o.execute r) [ ok v ↦ response v | err e ↦ failure e ] ∷ [];
    sent = ClientRequest.request r ∷ [];
    result = ok tt;
  }
  execute (err e) = prints (failure e ∷ [])

  -- A row whose time of access cannot be read ends the list.
  unfoldable pub list_users : List User → Run
  list_users [] = prints []
  list_users (v ∷ users) =
      let rest = list_users users in
      elim (read_i64 x v.last_access) [
        | err e ↦ prints (failure e ∷ [])
        | ok _ ↦
            if v.active
            then or_fail (x.permissions.from_slice v.permissions) (λ perms.
              or_fail (x.public_key.from_slice v.public_key)
                (λ pk. after_line (user_row v.id v.name perms pk) rest))
            else rest
      ]

  unfoldable pub list_nodes : List Node → Run
  list_nodes [] = prints []
  list_nodes (v ∷ nodes) =
      let rest = list_nodes nodes in
      or_fail (x.public_key.from_slice v.public_key)
        λ pk. after_line (node_row v.id v.name v.master_node v.conf pk) rest

  module _ (crates : Crates) (sessions : List Session) (session_id : ℕ) (db : Database) where
    unfoldable pub user : UserArgs → Run
    unfolding execute list_users
    user UserArgs.list = list_users db.users
    user (UserArgs.add name permission publickey) =
        execute (Orders.add_user x crates sessions session_id publickey name permission)
    user (UserArgs.edit name none publickey) = fails refused
    user (UserArgs.edit name (some permission) publickey) =
        execute (Orders.update_user x crates sessions session_id publickey name permission)
    user (UserArgs.remove publickey) =
        execute (Orders.remove_user x crates sessions session_id publickey)
    user UserArgs.nothing = prints []

    -- The lines of an answer to `get`.
    abbrev pub stat_lines : Fallible RequestResp → List Line
    stat_lines (ok (request_status (RequestStatus.get_stats rep sig))) =
        map value_of (interpret_stats o.decimal rep)
    stat_lines (ok other) = response other ∷ []
    stat_lines (err e) = failure e ∷ []

    unfoldable pub node : NodeArgs → Run
    unfolding execute list_nodes parse_oid plot_data draws
    node NodeArgs.list = list_nodes db.nodes
    node (NodeArgs.add name publickey master) =
        execute (Orders.add_node x crates sessions session_id publickey name master)
    node (NodeArgs.edit name publickey) =
        execute (Orders.update_node x crates sessions session_id db publickey name)
    node (NodeArgs.remove publickey) =
        execute (Orders.remove_node x crates sessions session_id db publickey)
    node (NodeArgs.change_template publickey name) =
        execute (Orders.change_node_config x crates sessions session_id publickey name)
    node (NodeArgs.get publickey oid) = or_fail (parse_oid o.uppercase oid) λ oid'.
        or_fail (pubkey_of x crates sessions session_id publickey) λ pk. record {
          printed = stat_lines (o.get_stats pk oid');
          sent = ClientRequest.get_stats pk oid' ∷ [];
          result = ok tt;
        }
    node (NodeArgs.plot publickey oid_string) = or_fail (parse_oid o.uppercase oid_string) λ oid.
        or_fail (pubkey_of x crates sessions session_id publickey) λ pk.
          or_fail (plot_data x o.show db pk oid 0)
            λ r. if draws r then prints (plotted oid_string r ∷ []) else fails panicked
    node NodeArgs.nothing = prints []

    unfoldable pub template : TemplateArgs → Run
    unfolding execute global_default get_template_list get_template
    template (TemplateArgs.generate_file output) = or_fail (global_default x) λ config.
        or_fail
          (o.write_config output
            (record config { node = record config.node { db_struct = generate } }))
          λ _. prints (written_to output ∷ [])
    template TemplateArgs.list = prints (map template_row (get_template_list db))
    template (TemplateArgs.show name) = elim (get_template db name) [
      | ok (some (master_conf, node_conf)) ↦
          or_fail (x.master_config.from_slice master_conf) λ master.
            or_fail (x.node_config.from_slice node_conf)
              λ node'. prints (config_of (record { master = master; node = node' }) ∷ [])
      | ok none ↦ prints (not_found name ∷ [])
      | err _ ↦ prints (not_found name ∷ [])
    ]
    template (TemplateArgs.set name config_file) = or_fail (o.read_config config_file) λ config.
        execute (Orders.set_config x crates sessions session_id name config.master config.node)
    template (TemplateArgs.remove name) =
        execute (Orders.remove_config x crates sessions session_id name)
    template TemplateArgs.nothing = prints []

    unfoldable pub session : Command → Run
    unfolding user node template
    session (on_user args) = report_error (user args)
    session (on_node args) = report_error (node args)
    session (on_template args) = report_error (template args)
