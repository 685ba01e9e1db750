-- ===== src/Client/Names.antt =====
-- What `parse_oid` reads: the spellings of an object, and the keys that stop the program.
use pfe_development_of_a_mon.Prelude.{
  ◌≡◌, ◌≢◌, refl, ap, ◌∙◌, false, Option, none, some, List, [], ◌∷◌, ◌++◌, All, Text, text, same,
  same_refl, find, ok, err, panicked, arith,
}
use pfe_development_of_a_mon.Stats.Types.{CpuOid, MemoryOid, NetOid, StorageOid, Oid}
use pfe_development_of_a_mon.Stats.Oids.{cpu_oids, memory_oids, net_oids, storage_oids}
use pfe_development_of_a_mon.Client.Oids.{
  cpu_text, memory_text, net_text, storage_text, split, is_star, object, parse_class, parse_keys,
  parse_oid,
}

-- A part of a key that is neither divided nor the star.
abbrev pub IsWord : Text → Type 0
IsWord t = All (λ c. c ≢ b'.') t × (is_star t ≡ false)

split-word : (t rest : Text) → All (λ c. c ≢ b'.') t → split (t ++ b'.' ∷ rest) ≡ t ∷ split rest
unfolding split
split-word [] rest h = refl
split-word (c ∷ t) rest h = ground (arith, split-word t rest h.1)

split-last : (t : Text) → All (λ c. c ≢ b'.') t → split t ≡ t ∷ []
unfolding split
split-last [] h = refl
split-last (c ∷ t) h = ground (arith, split-last t h.1)

-- The key `0.class.object`.
abbrev pub key : Text → Text → Text
key class object = b'0' ∷ b'.' ∷ (class ++ b'.' ∷ object)

split-key :
    (class object : Text)
    → All (λ c. c ≢ b'.') class
    → All (λ c. c ≢ b'.') object
    → split (key class object) ≡ text "0" ∷ class ∷ object ∷ []
split-key class object hc ho =
    split-word (b'0' ∷ []) (class ++ b'.' ∷ object) (omega arith)
    ∙ ap (λ t. (b'0' ∷ []) ∷ t)
        (split-word class object hc ∙ ap (λ t. class ∷ t) (split-last object ho))

-- The class of an object.
abbrev pub class_text : Oid → Text
class_text (Oid.cpu o) = text "CPU"
class_text (Oid.memory o) = text "MEMORY"
class_text (Oid.network o) = text "NETWORK"
class_text (Oid.storage o) = text "STORAGE"
class_text Oid.everything = b'*' ∷ []

-- The text stands for the object, in capitals or not, and the star for a whole class.
abbrev pub SpellsOne : (Text → Text) → Option Text → Text → Type 0
SpellsOne upper none t = t ≡ b'*' ∷ []
SpellsOne upper (some name) t = IsWord t × (upper t ≡ name)

abbrev named : {A : Type 0} → (A → Text) → Option A → Option Text
named name none = none
named name (some o) = some (name o)

abbrev pub object_text : Oid → Option Text
object_text (Oid.cpu o) = named cpu_text o
object_text (Oid.memory o) = named memory_text o
object_text (Oid.network o) = named net_text o
object_text (Oid.storage o) = named storage_text o
object_text Oid.everything = none

-- The two parts stand for the object, or for everything.
abbrev pub Spells : (Text → Text) → Oid → Text → Text → Type 0
Spells upper Oid.everything class object = (class ≡ b'*' ∷ []) × (object ≡ b'*' ∷ [])
Spells upper oid class object =
    IsWord class × (upper class ≡ class_text oid) × SpellsOne upper (object_text oid) object

cpu_found : (o : CpuOid) → find (λ p. same (cpu_text p) (cpu_text o)) cpu_oids ≡ some o
unfolding same
cpu_found o = ground arith

memory_found :
    (o : MemoryOid) → find (λ p. same (memory_text p) (memory_text o)) memory_oids ≡ some o
unfolding same
memory_found o = ground arith

net_found : (o : NetOid) → find (λ p. same (net_text p) (net_text o)) net_oids ≡ some o
unfolding same
net_found o = ground arith

storage_found :
    (o : StorageOid) → find (λ p. same (storage_text p) (storage_text o)) storage_oids ≡ some o
unfolding same
storage_found o = ground arith

module _ (upper : Text → Text) where
  object-spelt :
      {A : Type 0} (oids : List A) (name : A → Text) (o : Option A) (t : Text)
      → ((a : A) → find (λ p. same (name p) (name a)) oids ≡ some a)
      → SpellsOne upper (named name o) t
      → object upper oids name t ≡ ok o
  object-spelt oids name none t found h = rw (h, same_refl (b'*' ∷ []))
  object-spelt oids name (some a) t found ((dots, star), up) =
      let hit : find (λ p. same (name p) (upper t)) oids ≡ some a =
        ap (λ u. find (λ p. same (name p) u) oids) up ∙ found a in
      rw star (rw hit)

  class_parsed :
      (oid : Oid) (k t : Text)
      → oid ≢ Oid.everything
      → SpellsOne upper (object_text oid) t
      → parse_class upper (text "0" ∷ k ∷ t ∷ []) (class_text oid) ≡ ok oid
  unfolding parse_class same
  class_parsed (Oid.cpu o) k t ne h = rw (object-spelt cpu_oids cpu_text o t cpu_found h)
  class_parsed (Oid.memory o) k t ne h =
      rw (object-spelt memory_oids memory_text o t memory_found h)
  class_parsed (Oid.network o) k t ne h = rw (object-spelt net_oids net_text o t net_found h)
  class_parsed (Oid.storage o) k t ne h =
      rw (object-spelt storage_oids storage_text o t storage_found h)
  class_parsed Oid.everything k t ne h = absurd (ne refl)

  key_parsed :
      (oid : Oid) (class object : Text)
      → oid ≢ Oid.everything
      → IsWord class
      → upper class ≡ class_text oid
      → SpellsOne upper (object_text oid) object
      → parse_keys upper (text "0" ∷ class ∷ object ∷ []) ≡ ok oid
  unfolding parse_keys same
  key_parsed oid class object ne word up h = rw (word.1, up) (class_parsed oid class object ne h)

  dotless : (o : Option Text) (t : Text) → SpellsOne upper o t → All (λ c. c ≢ b'.') t
  dotless none t h = rw h (omega arith)
  dotless (some n) t h = h.0.0

  everything_parsed : parse_oid upper (key (b'*' ∷ []) (b'*' ∷ [])) ≡ ok Oid.everything
  unfolding parse_oid same
  everything_parsed = refl

  class_short :
      (oid : Oid) (k : Text)
      → oid ≢ Oid.everything
      → parse_class upper (text "0" ∷ k ∷ []) (class_text oid) ≡ err panicked
  unfolding parse_class same
  class_short (Oid.cpu o) k ne = refl
  class_short (Oid.memory o) k ne = refl
  class_short (Oid.network o) k ne = refl
  class_short (Oid.storage o) k ne = refl
  class_short Oid.everything k ne = absurd (ne refl)

  key_short :
      (oid : Oid) (class : Text)
      → oid ≢ Oid.everything
      → IsWord class
      → upper class ≡ class_text oid
      → parse_keys upper (text "0" ∷ class ∷ []) ≡ err panicked
  unfolding parse_keys same
  key_short oid class ne word up = rw (word.1, up) (class_short oid class ne)

  -- A key of three parts is read as the object that its parts stand for, in capitals or not.
  pub parse_oid-Spells :
      (oid : Oid) (class object : Text)
      → Spells upper oid class object
      → parse_oid upper (key class object) ≡ ok oid
  unfolding parse_oid
  parse_oid-Spells Oid.everything class object (c, o) = rw (c, o) everything_parsed
  parse_oid-Spells (Oid.cpu v) class object (word, up, h) =
      ap (parse_keys upper) (split-key class object word.0 (dotless _ object h))
      ∙ key_parsed (Oid.cpu v) class object (cc) word up h
  parse_oid-Spells (Oid.memory v) class object (word, up, h) =
      ap (parse_keys upper) (split-key class object word.0 (dotless _ object h))
      ∙ key_parsed (Oid.memory v) class object (cc) word up h
  parse_oid-Spells (Oid.network v) class object (word, up, h) =
      ap (parse_keys upper) (split-key class object word.0 (dotless _ object h))
      ∙ key_parsed (Oid.network v) class object (cc) word up h
  parse_oid-Spells (Oid.storage v) class object (word, up, h) =
      ap (parse_keys upper) (split-key class object word.0 (dotless _ object h))
      ∙ key_parsed (Oid.storage v) class object (cc) word up h

  -- A key that names a class and no object is not refused: it stops the program.
  parse_oid-panicked :
      (oid : Oid) (class : Text)
      → oid ≢ Oid.everything
      → IsWord class
      → upper class ≡ class_text oid
      → parse_oid upper (b'0' ∷ b'.' ∷ class) ≡ err panicked
  unfolding parse_oid
  parse_oid-panicked oid class ne word up =
      ap (parse_keys upper) (
        split-word (b'0' ∷ []) class (omega arith)
        ∙ ap (λ t. (b'0' ∷ []) ∷ t) (split-last class word.0))
      ∙ key_short oid class ne word up
