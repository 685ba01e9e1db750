-- ===== src/Proto/Keys.antt =====
-- nyumt-proto/src/keys.rs: the text of a public key, and how it is read. The two functions of the
-- crate `base58` are parameters.
use pfe_development_of_a_mon.Prelude.{
  ◌≡◌, ◌≢◌, refl, Option, Option-cases, inl, inr, none, some, [], ◌∷◌, ◌++◌, ◌==◌, if◌then◌else◌,
  length, All, Bytes, Text, text, Fallible, ok, err, bad_key, arith,
}
use mathlib.Core.List.{append_assoc}
use pfe_development_of_a_mon.Proto.Types.{PublicKey, ed25519}

-- `PublicKey::parse` and `PublicKey::raw`.
unfoldable pub parse : Bytes → Fallible PublicKey
parse pubkey = if length pubkey == 32 then ok (ed25519 pubkey) else err bad_key

unfoldable pub raw : PublicKey → Bytes
raw (ed25519 v) = v

abbrev pub prefix : Text
prefix = text "ed25519("

-- What follows the prefix, if the text begins with it.
unfoldable pub strip : Text → Text → Option Text
strip [] s = some s
strip (c ∷ cs) [] = none
strip (c ∷ cs) (d ∷ s) = let rest = strip cs s in if c == d then rest else none

-- `(.*?)\)`: the text up to the first closing bracket, which a line feed must not precede.
unfoldable pub until_bracket : Text → Option Text
until_bracket [] = none
until_bracket (c ∷ s) =
    if c == b')'
    then some []
    else if c == 10
    then none
    else elim (until_bracket s) [ none ↦ none | some t ↦ some (c ∷ t) ]

abbrev pub capture_at : Option Text → Option Text
capture_at none = none
capture_at (some rest) = until_bracket rest

abbrev pub or_else : Option Text → Option Text → Option Text
or_else none other = other
or_else (some t) other = some t

-- The first capture of `ed25519\((.*?)\)`, the leftmost match.
unfoldable pub captures : Text → Option Text
unfolding strip until_bracket
captures [] = none
captures (c ∷ s) = or_else (capture_at (strip prefix (c ∷ s))) (captures s)

module _ (to_base58 : Bytes → Text) (decode : Text → Option Bytes) where
  unfoldable pub from_base58 : Text → Fallible PublicKey
  from_base58 s = elim (decode s) [
    | some v ↦ if length v == 32 then ok (ed25519 v) else err bad_key
    | none ↦ err bad_key
  ]

  unfoldable pub parse_str : Text → Fallible PublicKey
  unfolding captures from_base58
  parse_str pubkey = elim (captures pubkey) [ some key ↦ from_base58 key | none ↦ err bad_key ]

  -- `export`, which `fmt` writes.
  unfoldable pub export : PublicKey → Text
  export (ed25519 v) = prefix ++ (to_base58 v ++ b')' ∷ [])

-- No bracket closes in the text, and no line ends.
abbrev pub IsInline : Text → Type 0
IsInline t = All (λ c. (c ≢ b')') × (c ≢ 10)) t

until_bracket-inline : (t rest : Text) → IsInline t → until_bracket (t ++ b')' ∷ rest) ≡ some t
unfolding until_bracket
until_bracket-inline [] rest h = refl
until_bracket-inline (c ∷ t) rest h = ground (arith, until_bracket-inline t rest h.1)

captures-prefix : (t rest : Text) → IsInline t → captures (prefix ++ (t ++ b')' ∷ rest)) ≡ some t
unfolding captures
captures-prefix t rest h = rw (captures, until_bracket-inline t rest h) refl

module _ (to_base58 : Bytes → Text) (decode : Text → Option Bytes) where
  from_base58-eq :
      (t : Text) (v : Bytes)
      → decode t ≡ some v
      → length v ≡ 32
      → from_base58 to_base58 decode t ≡ ok (ed25519 v)
  unfolding from_base58
  from_base58-eq t v e len = rw (from_base58, e) (ground arith)

  -- If the crate decodes what it encodes, and writes neither a closing bracket nor a line feed, then a
  -- key of 32 bytes is read back from its text, whatever follows it.
  pub parse_str-export :
      ((v : Bytes) → decode (to_base58 v) ≡ some v)
      → ((v : Bytes) → IsInline (to_base58 v))
      → (v : Bytes) (rest : Text) → length v ≡ 32
      → parse_str to_base58 decode (export to_base58 decode (ed25519 v) ++ rest) ≡ ok (ed25519 v)
  unfolding parse_str export
  parse_str-export decodes inline v rest len =
      rw
        (
          append_assoc (to_base58 v) (b')' ∷ []) rest,
          parse_str,
          captures-prefix (to_base58 v) rest (inline v),
        )
        (from_base58-eq (to_base58 v) v (decodes v) len)

from_base58-parse :
    (to_base58 : Bytes → Text) (decode : Text → Option Bytes) (t : Text) (k : PublicKey)
    → from_base58 to_base58 decode t ≡ ok k
    → parse (raw k) ≡ ok k
unfolding from_base58 parse raw
from_base58-parse to_base58 decode t k h = elim (Option-cases (decode t)) [
  | inl e ↦ absurd (ground arith)
  | inr (v, e) ↦
      let is : ok (ed25519 v) ≡ ok k = ground arith in
      let same : ed25519 v ≡ k = cc in rw (← same) (ground arith)
]

-- Whatever is read as a key has 32 bytes, so that the binary form reads it back.
parse_str-parse :
    (to_base58 : Bytes → Text) (decode : Text → Option Bytes) (s : Text) (k : PublicKey)
    → parse_str to_base58 decode s ≡ ok k
    → parse (raw k) ≡ ok k
unfolding parse_str parse raw
parse_str-parse to_base58 decode s k h = elim (Option-cases (captures s)) [
  | inl e ↦ absurd (ground arith)
  | inr (t, e) ↦ from_base58-parse to_base58 decode t k (rw (parse_str, e) at h)
]
