-- ===== src/Terminal/Sessions.antt =====
-- `manage` (nyumt-client-cli/src/session.rs): the sessions of the client. The line is read, split and
-- matched by the crates `rustyline`, `shellwords` and `clap`; what they match is the input here.
use pfe_development_of_a_mon.Prelude.{
  ℕ, ◌+◌, Option, none, some, List, [], ◌∷◌, ◌++◌, any, Text, same, if◌then◌else◌, Bytes, Fallible,
  ok, err, Bool,
}
use pfe_development_of_a_mon.Proto.Types.{PublicKey}
use pfe_development_of_a_mon.Client.Orders.{Session, public}

-- `new` with the host, the name, the pair of keys that `KeyPair::generate` draws, and whether the
-- file of the sessions can be written.
pub data Input : Type 0 where
  list : Input
  new : Text → Text → Bytes → Fallible (Unit {0}) → Input
  connect_to : Text → Input

-- What the user sees, or the call of `connect` with the name, the index and the host.
pub data Shown : Type 0 where
  table : List (ℕ × Text × Text × PublicKey) → Shown
  name_exists : Text → Shown
  not_found : Text → Shown
  connected : Text → ℕ → Text → Shown
  saved : Shown

abbrev pub is_named : Text → Session → Bool
is_named name s = same s.name name

unfoldable pub rows : ℕ → List Session → List (ℕ × Text × Text × PublicKey)
rows count [] = []
rows count (s ∷ sessions) = (count, s.name, s.host, public s.keys) ∷ rows (count + 1) sessions

-- The loop of `open`.
unfoldable pub locate : Text → ℕ → List Session → Option (ℕ × Text)
locate name count [] = none
locate name count (s ∷ sessions) =
    let rest = locate name (count + 1) sessions in
    if is_named name s then some (count, s.host) else rest

-- One round of the loop: the sessions after it, and what is shown, or the failure that ends it.
unfoldable pub manage : List Session → Input → List Session × Fallible Shown
unfolding rows locate
manage sessions list = (sessions, ok (table (rows 0 sessions)))
manage sessions (new host name keys save) =
    if any (is_named name) sessions then (sessions, ok (name_exists name)) else (
      sessions ++ record { name = name; host = host; keys = keys } ∷ [],
      elim save [ ok _ ↦ ok saved | err e ↦ err e ],
    )
manage sessions (connect_to name) = (
  sessions,
  ok (elim (locate name 0 sessions) [
    | some (id, host) ↦ connected name id host
    | none ↦ not_found name
  ]),
)

-- The rounds, until one fails.
unfoldable pub manage_all : List Session → List Input → List Session
unfolding manage
manage_all sessions [] = sessions
manage_all sessions (i ∷ inputs) =
    let (after, shown) = manage sessions i in
    elim shown [ ok _ ↦ manage_all after inputs | err _ ↦ after ]
