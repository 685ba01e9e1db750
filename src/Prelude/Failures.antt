-- ===== src/Prelude/Failures.antt =====
-- `Result` and `?`: what an operation returns when it can fail, with the failures told apart.
use mathlib.Core.Path.{◌≡◌, refl}
use mathlib.Core.Logic.{◌⊎◌, inl, inr}
use mathlib.Core.Bool.{Bool, true, false}

-- What stands for a boxed error in the source.
--   row_not_found: `fetch_one` met no row;
--   constraint: a primary key was taken, or a foreign key had no row;
--   no_such_column: a statement names a column that the table lacks;
--   codec: a value was not written or read by borsh;
--   bad_key: a public key or a private key was refused;
--   refused: an error that the program makes itself;
--   panicked: an index out of range stops the program;
--   device: a system call of the monitoring library failed.
pub data Failure : Type 0 where
  row_not_found constraint no_such_column codec bad_key refused device panicked : Failure

pub data Fallible {ℓ} (A : Type ℓ) : Type ℓ where
  ok : A → Fallible A
  err : Failure → Fallible A

module _ {ℓ} {A : Type ℓ} where
  infixl 5 ◌>>=◌ ◌>>◌
  -- What `?` passes on: the first failure ends the chain.
  abbrev pub ◌>>=◌ {κ} : {B : Type κ} → Fallible A → (A → Fallible B) → Fallible B
  err failed >>= next = err failed
  ok value >>= next = next value

  abbrev pub ◌>>◌ {κ} : {B : Type κ} → Fallible A → Fallible B → Fallible B
  first >> next = first >>= λ _. next

  -- `.is_ok()`.
  abbrev pub is_ok : Fallible A → Bool
  is_ok (err _) = false
  is_ok (ok _) = true

  pub Fallible-cases : (m : Fallible A) → ((a : A) × (m ≡ ok a)) ⊎ ((e : Failure) × (m ≡ err e))
  Fallible-cases (err failed) = inr (failed, refl)
  Fallible-cases (ok value) = inl (value, refl)

  -- A chain that succeeds has a first call that succeeds.
  pub >>=-eq-ok {κ} :
      {B : Type κ} (m : Fallible A) (next : A → Fallible B) {b : B}
      → (m >>= next) ≡ ok b
      → (a : A) × (m ≡ ok a) × (next a ≡ ok b)
  >>=-eq-ok (err failed) next h = cc
  >>=-eq-ok (ok value) next h = (value, refl, h)

-- What a call that succeeds returns has the property.
abbrev pub OnOk {ℓ κ} : {A : Type ℓ} → (A → Type κ) → Fallible A → Type κ
OnOk P (ok a) = P a
OnOk P (err e) = Unit

pub OnOk_elim {ℓ κ} :
    {A : Type ℓ} (P : A → Type κ) (m : Fallible A) {a : A} → OnOk P m → m ≡ ok a → P a
OnOk_elim P m h e = rw e at h
