-- ===== src/Client/Start.antt =====
-- `Client::new`, `execute` and `get_stats` (nyumt-client-core/src/client/mod.rs): what a client asks
-- for when it is connected, and how it sends an order.
use pfe_development_of_a_mon.Prelude.{
  ℕ, Option, none, some, List, [], ◌∷◌, ◌++◌, ◌==◌, if◌then◌else◌, Bytes, Text, text, ℤ, negsuc,
  as_i64, Fallible, ok, err, refused, panicked, ◌>>=◌, ◌>>◌,
}
use pfe_development_of_a_mon.Stats.Types.{Oid}
use pfe_development_of_a_mon.Proto.Types.{PublicKey}
use pfe_development_of_a_mon.Proto.External.{Codec, External}
use pfe_development_of_a_mon.Database.Tables.{Database}
use pfe_development_of_a_mon.Database.Chain.{get_last_block_height}
use pfe_development_of_a_mon.Database.Reports.{get_last_stats_timestamp}
use pfe_development_of_a_mon.Serve.Requests.{Request}
use pfe_development_of_a_mon.Client.Sync.{Replica}
use pfe_development_of_a_mon.Client.Channel.{
  ClientRequest, ClientResponse, Link, new_link, Call, make_call,
}

-- -1 is below the first block.
abbrev pub height_or : Option ℕ → ℤ
height_or (some h) = as_i64 h
height_or none = negsuc 0

unfoldable pub last_height : Database → Fallible ℤ
last_height db = do h ← get_last_block_height db; ok (height_or h)

abbrev timestamp_or : Option ℕ → ℕ
timestamp_or (some t) = t
timestamp_or none = 0

unfoldable pub last_timestamp : External → Database → Fallible ℕ
last_timestamp x db = do t ← get_last_stats_timestamp x db; ok (timestamp_or t)

-- `split(":")`.
abbrev prepend : ℕ → List Text → List Text
prepend c [] = (c ∷ []) ∷ []
prepend c (part ∷ parts) = (c ∷ part) ∷ parts

unfoldable pub split : Text → List Text
split [] = [] ∷ []
split (c ∷ s) = let rest = split s in if c == b':' then [] ∷ rest else prepend c rest

-- `[ip|domain]:port`, with exactly one colon.
unfoldable pub address : Text → Fallible Text
unfolding split
address host = elim (split host) [
  | ip ∷ port ∷ [] ↦ ok (text "/ip4/" ++ (ip ++ (text "/tcp/" ++ port)))
  | _ ↦ err refused
]

-- `dial` is the parser of an address and the swarm's call. `peer` is the first peer to which there is
-- a connection.
module _ (x : External) (requests : Codec ClientRequest) (responses : Codec ClientResponse)
    (version : ℕ) (dial : Text → Fallible (Unit {0})) where
  -- `hello`: a greeting that cannot be written is not sent, and the client goes on.
  unfoldable pub greet : ℕ → Text → PublicKey → ℤ → ℕ → Link → Link
  greet id peer pk height timestamp l =
      elim (requests.to_vec (
        ClientRequest.hello version pk
          (record { last_request_height = height; last_timestamp = timestamp }))) [
            | ok v ↦ make_call requests responses id (Call.hello peer v) l
            | err _ ↦ l
          ]

  unfoldable pub new : Database → Text → PublicKey → Text → ℕ → Fallible (Replica × Link)
  unfolding greet
  new db host pk peer id = do
    height ← last_height db
    timestamp ← last_timestamp x db
    m ← address host
    dial m
    ok (
      record { db = db; last = height },
      greet id peer pk height timestamp (record new_link { peer = some peer }),
    )

  -- The one-shot channel on which the answer is awaited, and the connection.
  abbrev pub send_order : Bytes → Text → ℕ → Link → Fallible (ℕ × Link)
  send_order bytes peer id l =
      if l.running
      then ok (l.channels, make_call requests responses id (Call.send_order peer bytes) l)
      else err panicked

  unfoldable pub execute : Request → Text → ℕ → Link → Fallible (ℕ × Link)
  execute req peer id l = do
    bytes ← requests.to_vec (ClientRequest.request req)
    send_order bytes peer id l

  unfoldable pub get_stats : PublicKey → Oid → Text → ℕ → Link → Fallible (ℕ × Link)
  get_stats pk oid peer id l = do
    bytes ← requests.to_vec (ClientRequest.get_stats pk oid)
    send_order bytes peer id l
