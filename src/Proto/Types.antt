-- ===== src/Proto/Types.antt =====
-- nyumt-proto/src/{types,keys,config,db}.rs: blocks, orders, permissions, and the answers to a
-- request.
use pfe_development_of_a_mon.Prelude.{ℕ, Bool, List, Bytes, Text}
use pfe_development_of_a_mon.Stats.Types.{DbStruct, Report}

pub data PublicKey : Type 0 where
  ed25519 : Bytes → PublicKey

pub data Permission : Type 0 where
  root monitor : Permission

abbrev pub Permissions : Type 0
Permissions = List Permission

-- `hash` is not serialised.
pub record MasterConfig : Type 0 where
  pub hash : Bytes
  pub collect_data_from_master : Bool
  pub block_push_retries : ℕ
  pub block_vote_time : ℕ
  pub vote_push_retries : ℕ
  pub poll_timeout : ℕ

-- `hash` is not serialised.
pub record NodeConfig : Type 0 where
  pub hash : Bytes
  pub report_timeframe : ℕ
  pub db_struct : DbStruct

pub record GlobalConfig : Type 0 where
  pub master : MasterConfig
  pub node : NodeConfig

pub data Order : Type 0 where
  add_user : Text → PublicKey → Permissions → Order
  add_master_node : Text → PublicKey → Order
  add_node : Text → PublicKey → Order
  edit_user : Text → PublicKey → Permissions → Order
  edit_master_node : Text → PublicKey → Order
  edit_node : Text → PublicKey → Order
  remove_user : PublicKey → Order
  remove_master_node : PublicKey → Order
  remove_node : PublicKey → Order
  change_node_config : PublicKey → Text → Order
  update_public_key : PublicKey → PublicKey → Order
  set_config : Text → MasterConfig → NodeConfig → Order
  remove_config : Text → Order
  update_vote_weight : PublicKey → ℕ → Order

pub data RequestType : Type 0 where
  order : Order → RequestType

pub record BodyData : Type 0 where
  pub req : List RequestType
  pub sign : Bytes
  pub user_pk : PublicKey
  pub timestamp : ℕ

pub record Block : Type 0 where
  pub hash : Bytes
  pub body : Bytes

pub data RequestError : Type 0 where
  signature_error long_parameter permission_error no_permission invalid_entity duplicate_entity
        config_used invalid_config :
      RequestError

pub data RequestStatus : Type 0 where
  ok not_configured syncing pub_key_error req_error node_error dup_req node_inactive
        request_timeout :
      RequestStatus
  get_stats : Report → Bytes → RequestStatus
  rejected : RequestStatus

-- `db::Update`: what has to be told to other nodes once an order is executed. `nothing` is
-- `Update::None`.
pub data Update : Type 0 where
  config_update : Text → MasterConfig → NodeConfig → Update
  node_config_change : PublicKey → Text → Update
  master_node_list_update : Update
  nothing : Update
