-- ===== src/Serve/Sessions.antt =====
-- The start of `event_handler` (nyumt-node/src/master_serve/activity.rs): the session that a peer gets
-- for the key it has named.
use pfe_development_of_a_mon.Prelude.{
  ◌≡◌, ◌⊎◌, refl, Bool, true, false, not, Bool-cases, some, List, [], ◌∷◌, retain, find, Text, same,
  same_iff, Exists, Bytes, Option-cases, Fallible, ok, err, ◌>>=◌, >>=-eq-ok, Fallible-cases, inl,
  inr, arith,
}
use pfe_development_of_a_mon.Proto.Types.{PublicKey}
use pfe_development_of_a_mon.Proto.External.{External}
use pfe_development_of_a_mon.Database.Tables.{User, Database}
use pfe_development_of_a_mon.Database.Users.{UserDetails, is_user, read_i64, get_user_with_pubkey}
use pfe_development_of_a_mon.Serve.Requests.{SessionUser, session_of}

-- `insert` into the map of the sessions.
unfoldable pub insert_session : SessionUser → List SessionUser → List SessionUser
insert_session user auth = user ∷ retain (λ u. not (same u.peer user.peer)) auth

-- The user of a session, by the row of the key.
unfoldable pub session_user : External → Database → Text → PublicKey → Fallible SessionUser
session_user x db peer pk = do
  bytes ← x.public_key.to_vec pk
  db_user ← get_user_with_pubkey x db bytes
  permissions ← x.permissions.from_slice db_user.permissions
  ok (record { peer = peer; pubkey = pk; permissions = permissions })

-- The sessions after the start, and whether the peer is disconnected.
unfoldable pub open_session :
    External → Database → Text → PublicKey → List SessionUser → List SessionUser × Bool
open_session x db peer pk auth = elim (session_user x db peer pk) [
  | ok user ↦ (insert_session user auth, false)
  | err _ ↦ (auth, true)
]

pub find-retain :
    (peer other : Text) (auth : List SessionUser)
    → same peer other ≡ false
    → session_of (retain (λ u. not (same u.peer peer)) auth) other ≡ session_of auth other
find-retain peer other [] h = refl
find-retain peer other (u ∷ auth) h = ground (
  arith,
  find-retain peer other auth,
  same_iff u.peer peer,
  same_iff u.peer other,
  same_iff peer other,
)

found :
    {A : Type 0} (p : A → Bool) (xs : List A) (a : A)
    → find p xs ≡ some a
    → (p a ≡ true) × Exists (λ v. v ≡ a) xs
found p [] a h = cc
found p (y ∷ xs) a h = elim (Bool-cases (p y)) [
  | inl hit ↦ let e : y ≡ a = ground arith in (rw (← e) hit, inl e)
  | inr miss ↦ let (hit, there) = found p xs a (ground arith) in (hit, inr there)
]

-- The session bears the key, and the permissions of a row of an active user that has the key.
pub record IsSession (x : External) (db : Database) (pk : PublicKey) (user : SessionUser)
    : Type 0 where
  pub row : User
  pub bytes : Bytes
  pub written : x.public_key.to_vec pk ≡ ok bytes
  pub there : Exists (λ (u : User). u ≡ row) db.users
  pub of_key : row.public_key ≡ bytes
  pub active : row.active ≡ true
  pub allowed : x.permissions.from_slice row.permissions ≡ ok user.permissions
  pub own : user.pubkey ≡ pk

user_row :
    (x : External) (db : Database) (bytes : Bytes) (details : UserDetails)
    → get_user_with_pubkey x db bytes ≡ ok details
    → (row : User) × Exists (λ (u : User). u ≡ row) db.users
      × (is_user bytes row ≡ true)
      × (details.permissions ≡ row.permissions)
unfolding get_user_with_pubkey
user_row x db bytes details h = elim (Option-cases (find (is_user bytes) db.users)) [
  | inl e ↦ absurd (let h' = rw e at h in cc)
  | inr (row, e) ↦ elim (Fallible-cases (read_i64 x row.last_access)) [
    | inr (f, e') ↦ absurd (let h' = rw (e, e') at h in cc)
    | inl (t, e') ↦
        let h' = rw (e, e') at h in
        let (hit, there) = found (is_user bytes) db.users row e in
        let is : record { name = row.name; permissions = row.permissions; last_access = t }
            ≡ details =
          cc in
        (row, there, hit, rw (← is) refl)
  ]
]

module _ (x : External) (db : Database) (peer : Text) (pk : PublicKey) where
  session_user-IsSession :
      (user : SessionUser)
      → session_user x db peer pk ≡ ok user
      → IsSession x db pk user × (user.peer ≡ peer)
  unfolding session_user
  session_user-IsSession user h =
      let (bytes, written, h1) = >>=-eq-ok (x.public_key.to_vec pk) _ h in
      let (details, read, h2) = >>=-eq-ok (get_user_with_pubkey x db bytes) _ h1 in
      let (perms, allowed, h3) = >>=-eq-ok (x.permissions.from_slice details.permissions) _ h2 in
      let (row, there, hit, same_perms) = user_row x db bytes details read in
      let is : record { peer = peer; pubkey = pk; permissions = perms } ≡ user = cc in
      (
        record {
          row = row;
          bytes = bytes;
          written = written;
          there = there;
          of_key = ground (arith, same_iff row.public_key bytes);
          active = ground arith;
          allowed = rw (← is) (rw same_perms at allowed);
          own = rw (← is) refl;
        },
        rw (← is) refl,
      )

  -- A peer that names a key is disconnected and no session changes, or it has the session of an active
  -- user with the key, and the permissions that the row of that user lists. The sessions of the other
  -- peers stay as they are.
  pub open_session-IsSession :
      (auth : List SessionUser) (other : Text)
      → same peer other ≡ false
      → let (after, disconnected) = open_session x db peer pk auth in
        (((disconnected ≡ true) × (after ≡ auth))
          ⊎ ((user : SessionUser) × (session_of after peer ≡ some user) × IsSession x db pk user))
        × (session_of after other ≡ session_of auth other)
  unfolding open_session insert_session
  open_session-IsSession auth other differs = elim (Fallible-cases (session_user x db peer pk)) [
    | inr (f, e) ↦ rw (open_session, e) (inl (refl, refl), refl)
    | inl (user, e) ↦
        let (is, own_peer) = session_user-IsSession user e in
        rw (open_session, e)
          (
            inr (user, ground (arith, same_iff user.peer peer), is),
            ground (arith, find-retain user.peer other auth),
          )
  ]
