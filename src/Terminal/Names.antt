-- ===== src/Terminal/Names.antt =====
-- The names of the sessions, and what a name opens.
use pfe_development_of_a_mon.Prelude.{
  ℕ, ◌+◌, ◌≡◌, refl, true, false, some, List, [], ◌∷◌, ◌++◌, any, any-append, length, Text, same,
  same_refl, same_iff, Bytes, ok, Bool-cases, Fallible-cases, inl, inr, ◌∙◌, sym, arith,
}
use mathlib.Core.List.{append_assoc, append-nil}
use pfe_development_of_a_mon.Client.Oids.{index}
use pfe_development_of_a_mon.Client.Orders.{Session}
use pfe_development_of_a_mon.Terminal.Sessions.{
  Input, list, new, connect_to, connected, is_named, locate, manage, manage_all,
}

abbrev pub IsDistinct : List Session → Type 0
IsDistinct [] = Unit
IsDistinct (s ∷ sessions) = (any (is_named s.name) sessions ≡ false) × IsDistinct sessions

same_comm : (a b : Text) → same a b ≡ false → same b a ≡ false
same_comm a b h = elim (Bool-cases (same b a)) [
  | inl e ↦ absurd (ground (arith, same_iff a b, same_iff b a))
  | inr e ↦ e
]

IsDistinct-append :
    (sessions : List Session) (s : Session)
    → IsDistinct sessions
    → any (is_named s.name) sessions ≡ false
    → IsDistinct (sessions ++ s ∷ [])
IsDistinct-append [] s d fresh = (refl, tt)
IsDistinct-append (y ∷ sessions) s d fresh = ground (
  arith,
  IsDistinct-append sessions s,
  any-append (is_named y.name) sessions (s ∷ []),
  same_comm y.name s.name,
)

-- Nothing takes a session away or moves it.
abbrev Extends : List Session → List Session → Type 0
Extends xs ys = (more : List Session) × (ys ≡ xs ++ more)

manage-Extends : (sessions : List Session) (i : Input) → Extends sessions (manage sessions i).0
unfolding manage
manage-Extends sessions list = ([], sym (append-nil sessions))
manage-Extends sessions (connect_to name) = ([], sym (append-nil sessions))
manage-Extends sessions (new host name keys save) =
    elim (Bool-cases (any (is_named name) sessions)) [
      | inl e ↦ rw e ([], sym (append-nil sessions))
      | inr e ↦ rw e (_, refl)
    ]

Extends-trans : (xs ys zs : List Session) → Extends xs ys → Extends ys zs → Extends xs zs
Extends-trans xs ys zs (m, e) (m', e') = (m ++ m', rw (e', e) (append_assoc xs m m'))

manage_all-Extends :
    (inputs : List Input) (sessions : List Session) → Extends sessions (manage_all sessions inputs)
unfolding manage_all
manage_all-Extends [] sessions = ([], sym (append-nil sessions))
manage_all-Extends (i ∷ inputs) sessions =
    let after = (manage sessions i).0 in
    elim (Fallible-cases (manage sessions i).1) [
      | inr (f, e) ↦ rw (manage_all, e) (manage-Extends sessions i)
      | inl (shown, e) ↦
          rw (manage_all, e)
            (Extends-trans sessions after _ (manage-Extends sessions i)
              (manage_all-Extends inputs after))
    ]

manage-IsDistinct :
    (sessions : List Session) (i : Input) → IsDistinct sessions → IsDistinct (manage sessions i).0
unfolding manage
manage-IsDistinct sessions list d = d
manage-IsDistinct sessions (connect_to name) d = d
manage-IsDistinct sessions (new host name keys save) d =
    elim (Bool-cases (any (is_named name) sessions)) [
      | inl e ↦ rw e d
      | inr e ↦ rw e (IsDistinct-append sessions _ d e)
    ]

-- The names of the sessions stay different from each other, whatever is entered.
pub manage_all-IsDistinct :
    (inputs : List Input) (sessions : List Session)
    → IsDistinct sessions
    → IsDistinct (manage_all sessions inputs)
unfolding manage_all
manage_all-IsDistinct [] sessions d = d
manage_all-IsDistinct (i ∷ inputs) sessions d =
    let d' = manage-IsDistinct sessions i d in
    elim (Fallible-cases (manage sessions i).1) [
      | inr (f, e) ↦ rw (manage_all, e) d'
      | inl (shown, e) ↦ rw (manage_all, e) (manage_all-IsDistinct inputs (manage sessions i).0 d')
    ]

locate-append :
    (name : Text) (count : ℕ) (xs ys : List Session) (s : Session)
    → any (is_named name) xs ≡ false
    → is_named name s ≡ true
    → locate name count (xs ++ s ∷ ys) ≡ some (count + length xs, s.host)
unfolding locate
locate-append name count [] ys s fresh hit = ground arith
locate-append name count (x ∷ xs) ys s fresh hit =
    ground (arith, locate-append name (count + 1) xs ys s)

index-append : (xs ys : List Session) (s : Session) → index (xs ++ s ∷ ys) (length xs) ≡ ok s
index-append [] ys s = refl
index-append (x ∷ xs) ys s = index-append xs ys s

-- A session that was made under a new name is the one that its name opens from then on, whatever else
-- is entered: with its host, and under an index at which its keys stand.
pub manage-new :
    (sessions : List Session) (host name : Text) (keys : Bytes) (inputs : List Input)
    → any (is_named name) sessions ≡ false
    → let after = manage_all (manage sessions (new host name keys (ok tt))).0 inputs in
      let made : Session = record { name = name; host = host; keys = keys } in
      (manage after (connect_to name) ≡ (after, ok (connected name (length sessions) host)))
      × (index after (length sessions) ≡ ok made)
unfolding manage
manage-new sessions host name keys inputs fresh =
    let made : Session = record { name = name; host = host; keys = keys } in
    let made_last = sessions ++ made ∷ [] in
    let (more, e) = manage_all-Extends inputs made_last in
    let e' : manage_all made_last inputs ≡ sessions ++ made ∷ more =
      e ∙ append_assoc sessions (made ∷ []) more in
    let z : 0 + length sessions ≡ length sessions = omega arith in
    rw (fresh, e', locate-append name 0 sessions more made fresh (same_refl name), z)
      (refl, index-append sessions more made)
