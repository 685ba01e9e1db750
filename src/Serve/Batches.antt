-- ===== src/Serve/Batches.antt =====
-- What a client gets of the rows that are read for it.
use pfe_development_of_a_mon.Prelude.{
  ℕ, zero, suc, ◌<◌, ◌≤◌, ◌≡◌, refl, ◌∙◌, ap, true, false, ==_iff, List, [], ◌∷◌, ◌++◌, ◌||◌, ◌==◌,
  leb, length, length-append, map, All, Bytes, ℤ, suc_ℤ, arith, Fallible, is_ok, Bool-cases,
  Fallible-cases, inl, inr,
}
use mathlib.Core.List.{append_assoc, append-nil}
use mathlib.Core.Path.{sym}
use pfe_development_of_a_mon.Client.Sync.{RequestBlock}
use pfe_development_of_a_mon.Serve.Stream.{Session, request_block, read_blocks}

-- The messages, one after the other.
abbrev pub joined : List (List RequestBlock) → List RequestBlock
joined [] = []
joined (m ∷ ms) = m ++ joined ms

-- `n` steps up.
abbrev pub advance : ℕ → ℤ → ℤ
advance zero z = z
advance (suc n) z = advance n (suc_ℤ z)

-- The last row has this id.
abbrev pub EndsWith : ℕ → List (ℕ × Bytes) → Type 0
EndsWith last [] = ⊥
EndsWith last (v ∷ []) = v.0 ≡ last
EndsWith last (v ∷ w ∷ rows) = EndsWith last (w ∷ rows)

abbrev pub IsMessage : List RequestBlock → Type 0
IsMessage m = (1 ≤ length m) × (length m ≤ 9)

-- The messages are those of the session and further ones, of one to nine blocks each, that hold the
-- pending blocks and the rows in their order, and the height has been counted up once for each row. Where
-- the last row does not have the id `last`, at most eight at the end are in no message.
pub record Delivers (last : ℕ) (s : Session) (blocks : List RequestBlock) (rows : List (ℕ × Bytes))
    (s' : Session) : Type 0 where
  pub messages : List (List RequestBlock)
  pub unsent : List RequestBlock
  pub sent : s'.sent ≡ s.sent ++ messages
  pub small : All IsMessage messages
  pub whole : joined messages ++ unsent ≡ blocks ++ map request_block rows
  pub few : length unsent < 9
  pub complete : EndsWith last rows → unsent ≡ []
  pub height : s'.height ≡ advance (length rows) s.height

empty_right : {A : Type 0} (xs ys : List A) → xs ++ ys ≡ [] → ys ≡ []
empty_right [] ys e = e
empty_right (x ∷ xs) ys e = absurd cc

module _ (ser : List RequestBlock → Fallible Bytes)
    (total : (m : List RequestBlock) → is_ok (ser m) ≡ true) where
  -- A message that is sent at this row, then the rest.
  sent-Delivers :
      (last : ℕ) (v : ℕ × Bytes) (rows : List (ℕ × Bytes)) (blocks : List RequestBlock)
      (s s' : Session)
      → length blocks < 9
      → let full = blocks ++ request_block v ∷ [] in
        Delivers last (record { height = suc_ℤ s.height; sent = s.sent ++ full ∷ [] }) [] rows s'
        → Delivers last s blocks (v ∷ rows) s'
  sent-Delivers last v rows blocks s s' few d =
      let full = blocks ++ request_block v ∷ [] in
      let size = length-append blocks (request_block v ∷ []) in
      record {
        messages = full ∷ d.messages;
        unsent = d.unsent;
        sent = d.sent ∙ append_assoc s.sent (full ∷ []) d.messages;
        small = ((omega (arith, size), omega (arith, size)), d.small);
        whole =
            append_assoc full (joined d.messages) d.unsent
            ∙ ap (λ t. full ++ t) d.whole
            ∙ append_assoc blocks (request_block v ∷ []) (map request_block rows);
        few = d.few;
        complete = none_left rows d.messages d.unsent d.whole d.complete;
        height = d.height;
      }
    where
      none_left :
          (rows : List (ℕ × Bytes)) (messages : List (List RequestBlock))
          (unsent : List RequestBlock)
          → joined messages ++ unsent ≡ map request_block rows
          → (EndsWith last rows → unsent ≡ [])
          → EndsWith last (v ∷ rows)
          → unsent ≡ []
      none_left [] messages unsent whole h e = empty_right (joined messages) unsent whole
      none_left (w ∷ rows) messages unsent whole h e = h e

  -- A row that only fills the message, then the rest.
  kept-Delivers :
      (last : ℕ) (v : ℕ × Bytes) (rows : List (ℕ × Bytes)) (blocks : List RequestBlock)
      (s s' : Session)
      → (last == v.0) ≡ false
      → Delivers last
          (record s { height = suc_ℤ s.height })
          (blocks ++ request_block v ∷ [])
          rows
          s'
      → Delivers last s blocks (v ∷ rows) s'
  kept-Delivers last v rows blocks s s' other d = record {
    messages = d.messages;
    unsent = d.unsent;
    sent = d.sent;
    small = d.small;
    whole = d.whole ∙ append_assoc blocks (request_block v ∷ []) (map request_block rows);
    few = d.few;
    complete = none_left rows d.complete;
    height = d.height;
  }
    where
      none_left :
          (rows : List (ℕ × Bytes))
          → (EndsWith last rows → d.unsent ≡ [])
          → EndsWith last (v ∷ rows)
          → d.unsent ≡ []
      none_left [] h e = absurd (let p = (==_iff last v.0).1 (sym e) in cc)
      none_left (w ∷ rows) h e = h e

  pub read_blocks-Delivers :
      (last : ℕ) (rows : List (ℕ × Bytes)) (blocks : List RequestBlock) (s : Session)
      → length blocks < 9
      → Delivers last s blocks rows (read_blocks ser last rows blocks s)
  unfolding read_blocks
  read_blocks-Delivers last [] blocks s few = record {
    messages = [];
    unsent = blocks;
    sent = sym (append-nil s.sent);
    small = tt;
    whole = sym (append-nil blocks);
    few = few;
    complete = λ e. absurd e;
    height = refl;
  }
  read_blocks-Delivers last (v ∷ rows) blocks s few =
      let full = blocks ++ request_block v ∷ [] in
      elim (Bool-cases ((last == v.0) || leb 9 (length full))) [
        | inl e ↦ elim (Fallible-cases (ser full)) [
          | inl (b, good) ↦
              rw (read_blocks, e, good)
                (sent-Delivers last v rows blocks s _ few
                  (read_blocks-Delivers last rows [] _ (omega arith)))
          | inr (f, bad) ↦ absurd (ground (arith, total full))
        ]
        | inr e ↦
            rw (read_blocks, e)
              (kept-Delivers last v rows blocks s _ (ground arith) (
                read_blocks-Delivers last rows full _
                  (ground (arith, length-append blocks (request_block v ∷ [])))))
      ]
