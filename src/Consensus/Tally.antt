-- ===== src/Consensus/Tally.antt =====
-- The order in which votes arrive.
use pfe_development_of_a_mon.Prelude.{
  ℕ, ◌≡◌, refl, List, [], ◌∷◌, ◌∙◌, ap, Bytes, same, arith, ◌==◌, add_u32, ◌&&◌, Bool-cases, inl,
  inr,
}
use mathlib.Core.List.{Permᴰ}
use mathlib.Core.Path.{subst}
use pfe_development_of_a_mon.Proto.External.{Codec, External}
use pfe_development_of_a_mon.Consensus.Types.{
  Vote, vote_ok, vote_no, TotalVote, Pending, Approved, NetEvent, NetData, Master,
}
use pfe_development_of_a_mon.Consensus.Events.{
  add_vote, count_vote, count_serial_vote, handle_event, handle_incoming_data,
}

-- The event carries a vote.
pub data IsVote : NetEvent → Type 0 where
  validity : (hash : Bytes) (v : Vote) (weight : ℕ) → IsVote (NetEvent.vote hash v weight)
  placing :
      (id : ℕ) (hash : Bytes) (v : Vote) (weight : ℕ)
      → IsVote (NetEvent.serial_vote id hash v weight)

-- Every event of the list carries a vote.
abbrev pub AreVotes : List NetEvent → Type 0
AreVotes [] = Unit
AreVotes (e ∷ es) = IsVote e × AreVotes es

add_u32_swap : (t a b : ℕ) → add_u32 (add_u32 t a) b ≡ add_u32 (add_u32 t b) a
add_u32_swap t a b = omega arith

add_vote_swap :
    (v w : Vote) (a b : ℕ) (t : TotalVote)
    → add_vote w b (add_vote v a t) ≡ add_vote v a (add_vote w b t)
add_vote_swap vote_ok vote_ok a b t = rw (add_u32_swap t.in_favour a b) refl
add_vote_swap vote_ok vote_no a b t = refl
add_vote_swap vote_no vote_ok a b t = refl
add_vote_swap vote_no vote_no a b t = rw (add_u32_swap t.against a b) refl

module _ (h k : Bytes) (v w : Vote) (a b : ℕ) where
  count_vote_swap :
      (ps : List Pending)
      → count_vote k w b (count_vote h v a ps) ≡ count_vote h v a (count_vote k w b ps)
  unfolding count_vote
  count_vote_swap [] = refl
  count_vote_swap (p ∷ ps) = elim (Bool-cases (same p.hash h)) [
    | inl e ↦ elim (Bool-cases (same p.hash k)) [
      | inl f ↦ rw (e, f, e, add_vote_swap v w a b p.votes, count_vote_swap ps) refl
      | inr f ↦ rw (e, f, e, count_vote_swap ps) refl
    ]
    | inr e ↦ elim (Bool-cases (same p.hash k)) [
      | inl f ↦ rw (e, f, e, count_vote_swap ps) refl
      | inr f ↦ rw (e, f, e, count_vote_swap ps) refl
    ]
  ]

  count_serial_vote_swap :
      (i j : ℕ) (as' : List Approved)
      → count_serial_vote j k w b (count_serial_vote i h v a as')
        ≡ count_serial_vote i h v a (count_serial_vote j k w b as')
  unfolding count_serial_vote
  count_serial_vote_swap i j [] = refl
  count_serial_vote_swap i j (p ∷ ps) = elim (Bool-cases ((p.height == i) && same p.hash h)) [
    | inl e ↦ elim (Bool-cases ((p.height == j) && same p.hash k)) [
      | inl f ↦ rw (e, f, e, add_vote_swap v w a b p.votes, count_serial_vote_swap i j ps) refl
      | inr f ↦ rw (e, f, e, count_serial_vote_swap i j ps) refl
    ]
    | inr e ↦ elim (Bool-cases ((p.height == j) && same p.hash k)) [
      | inl f ↦ rw (e, f, e, count_serial_vote_swap i j ps) refl
      | inr f ↦ rw (e, f, e, count_serial_vote_swap i j ps) refl
    ]
  ]

module _ (x : External) (net : Codec NetData) where
  handle_event_swap :
      (m : Master) (e f : NetEvent)
      → IsVote e
      → IsVote f
      → handle_event x net (handle_event x net m e) f
        ≡ handle_event x net (handle_event x net m f) e
  unfolding handle_event
  handle_event_swap m _ _ (validity h v a) (validity k w b) =
      ground (arith, count_vote_swap h k v w a b m.pending)
  handle_event_swap m _ _ (validity h v a) (placing j k w b) = ground arith
  handle_event_swap m _ _ (placing i h v a) (validity k w b) = ground arith
  handle_event_swap m _ _ (placing i h v a) (placing j k w b) =
      ground (arith, count_serial_vote_swap h k v w a b i j m.approved)

  AreVotes-Perm : {es fs : List NetEvent} → Permᴰ es fs → AreVotes es → AreVotes fs
  AreVotes-Perm Permᴰ.nil v = v
  AreVotes-Perm (Permᴰ.cons e p) v = (subst IsVote e v.0, AreVotes-Perm p v.1)
  AreVotes-Perm (Permᴰ.swap e f) v = (subst IsVote f v.1.0, (subst IsVote e v.0, v.1.1))
  AreVotes-Perm (Permᴰ.trans p q) v = AreVotes-Perm q (AreVotes-Perm p v)

  -- The tallies, and the whole state, do not depend on the order in which a list of votes arrives.
  pub handle_incoming_data-votes :
      (m : Master) (es fs : List NetEvent)
      → AreVotes es
      → Permᴰ es fs
      → handle_incoming_data x net m es ≡ handle_incoming_data x net m fs
  unfolding handle_incoming_data
  handle_incoming_data-votes m _ _ v Permᴰ.nil = refl
  handle_incoming_data-votes m _ _ v (Permᴰ.cons {a} {b} {l₁ = as'} {l₂ = bs} e p) =
      handle_incoming_data-votes (handle_event x net m a) as' bs v.1 p
      ∙ ap (λ c. handle_incoming_data x net (handle_event x net m c) bs) e
  handle_incoming_data-votes m _ _ v (Permᴰ.swap {a} {b} {l = l} e f) =
      ap (λ s. handle_incoming_data x net s l)
        (handle_event_swap m a b v.0 v.1.0 ∙ λ i.
          handle_event x net (handle_event x net m (f i)) (e i))
  handle_incoming_data-votes m _ _ v (Permᴰ.trans {l₁ = es} {l₂ = fs} {l₃ = gs} p q) =
      handle_incoming_data-votes m es fs v p
      ∙ handle_incoming_data-votes m fs gs (AreVotes-Perm p v) q
