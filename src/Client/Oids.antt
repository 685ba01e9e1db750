-- ===== src/Client/Oids.antt =====
-- `parse_oid` (nyumt-client-core/src/stats.rs), and the names of the objects, which `IntoStaticStr`
-- derives from the variants.
use pfe_development_of_a_mon.Prelude.{
  ℕ, zero, suc, Bool, Option, none, some, List, [], ◌∷◌, ◌&&◌, ◌==◌, ltb, if◌then◌else◌, length,
  find, Text, text, same, Fallible, ok, err, ◌>>=◌, refused, panicked,
}
use pfe_development_of_a_mon.Stats.Types.{CpuOid, MemoryOid, NetOid, StorageOid, Oid}
use pfe_development_of_a_mon.Stats.Oids.{cpu_oids, memory_oids, net_oids, storage_oids}

abbrev pub cpu_text : CpuOid → Text
cpu_text CpuOid.total = text "TOTAL"
cpu_text CpuOid.user = text "USER"
cpu_text CpuOid.nice = text "NICE"
cpu_text CpuOid.system = text "SYSTEM"
cpu_text CpuOid.int = text "INT"
cpu_text CpuOid.idle = text "IDLE"

abbrev pub memory_text : MemoryOid → Text
memory_text MemoryOid.total = text "TOTAL"
memory_text MemoryOid.used = text "USED"

abbrev pub net_text : NetOid → Text
net_text NetOid.name = text "NAME"
net_text NetOid.mac = text "MAC"
net_text NetOid.ip_address = text "IP_ADDRESS"
net_text NetOid.status = text "STATUS"
net_text NetOid.rx_packets = text "RX_PACKETS"
net_text NetOid.tx_packets = text "TX_PACKETS"
net_text NetOid.rx_bytes = text "RX_BYTES"
net_text NetOid.tx_bytes = text "TX_BYTES"
net_text NetOid.rx_errors = text "RX_ERRORS"
net_text NetOid.tx_errors = text "TX_ERRORS"

abbrev pub storage_text : StorageOid → Text
storage_text StorageOid.name = text "NAME"
storage_text StorageOid.filesystem_type = text "FILESYSTEM_TYPE"
storage_text StorageOid.free = text "FREE"
storage_text StorageOid.total = text "TOTAL"
storage_text StorageOid.total_nodes = text "TOTAL_NODES"
storage_text StorageOid.free_nodes = text "FREE_NODES"

abbrev pub onto_first : ℕ → List Text → List Text
onto_first c [] = (c ∷ []) ∷ []
onto_first c (w ∷ ws) = (c ∷ w) ∷ ws

-- `key.split(".")`: at least one part.
unfoldable pub split : Text → List Text
split [] = [] ∷ []
split (c ∷ s) = let rest = split s in if c == b'.' then [] ∷ rest else onto_first c rest

-- `keys[i]`.
abbrev pub index {ℓ} : {A : Type ℓ} → List A → ℕ → Fallible A
index [] i = err panicked
index (k ∷ ks) zero = ok k
index (k ∷ ks) (suc i) = index ks i

abbrev pub is_star : Text → Bool
is_star k = same k (b'*' ∷ [])

abbrev pub or_refuse {ℓ} : {A : Type ℓ} → Option A → Fallible A
or_refuse none = err refused
or_refuse (some a) = ok a

-- `upper` is `str::to_uppercase`.
module _ (upper : Text → Text) where
  -- The loop over the objects of a class, after the test for all of them.
  abbrev pub object : {A : Type 0} → List A → (A → Text) → Text → Fallible (Option A)
  object oids name k =
      if is_star k then ok none else elim (find (λ o. same (name o) (upper k)) oids) [
        | none ↦ err refused
        | some o ↦ ok (some o)
      ]

  -- The `match` on the class.
  unfoldable pub parse_class : List Text → Text → Fallible Oid
  parse_class keys class =
      if same class (text "CPU")
      then (do k ← index keys 2; o ← object cpu_oids cpu_text k; ok (Oid.cpu o))
      else if same class (text "MEMORY")
      then (do k ← index keys 2; o ← object memory_oids memory_text k; ok (Oid.memory o))
      else if same class (text "NETWORK")
      then (do k ← index keys 2; o ← object net_oids net_text k; ok (Oid.network o))
      else if same class (text "STORAGE")
      then (do k ← index keys 2; o ← object storage_oids storage_text k; ok (Oid.storage o))
      else err refused

  abbrev pub parse_all : List Text → Fallible Oid
  parse_all keys =
      if length keys == 2
      then ok Oid.everything
      else (do k ← index keys 2; if is_star k then ok Oid.everything else err refused)

  unfoldable pub parse_keys : List Text → Fallible Oid
  unfolding parse_class
  parse_keys keys = if ltb (length keys) 2 && ltb 3 (length keys) then err refused else (do
    k0 ← index keys 0
    if same k0 (text "0")
        then (do
          k1 ← index keys 1
          if is_star k1 then parse_all keys else parse_class keys (upper k1))
        else err refused)

  unfoldable pub parse_oid : Text → Fallible Oid
  unfolding split parse_keys
  parse_oid key = parse_keys (split key)
