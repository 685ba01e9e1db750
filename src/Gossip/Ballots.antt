-- ===== src/Gossip/Ballots.antt =====
-- Which blocks a master node votes for.
use pfe_development_of_a_mon.Prelude.{
  ℕ, zero, suc, ◌+◌, ◌≡◌, refl, ◌⊎◌, inl, inr, Bool, true, false, not, Option, none, some,
  Option-cases, [], ◌∷◌, ◌++◌, Bytes, same, same→eq, ap, ◌∙◌, retain, any, any-retain_not, Fallible,
  ok, err, Fallible-cases, Bool-cases, arith,
}
use mathlib.Core.Path.{sym}
use pfe_development_of_a_mon.Proto.Types.{BodyData, Block, Permissions}
use pfe_development_of_a_mon.Proto.External.{Codec, External}
use pfe_development_of_a_mon.Database.Tables.{Database}
use pfe_development_of_a_mon.Database.Users.{UserDetails, get_user_with_pubkey}
use pfe_development_of_a_mon.Verify.Check.{Verdict, accept, verify_hash, verify_req}
use pfe_development_of_a_mon.Consensus.Types.{vote_ok, vote_no, Pending, NetEvent, NetData}
use pfe_development_of_a_mon.Gossip.Receive.{
  Receiver, from_ok, when_accepted, validate, vote_against, push_vote, vote_for, on_block,
}

-- The hash is that of the body, and an active user of the tables, whose permissions there allow the
-- requests, has signed the body.
pub record IsValid (x : External) (db : Database) (block : Block) (body : BodyData) : Type 0 where
  pub digest : x.sha256 block.body ≡ block.hash
  pub read : x.body_data.from_slice block.body ≡ ok body
  pub key : Bytes
  pub written : x.public_key.to_vec body.user_pk ≡ ok key
  pub user : UserDetails
  pub known : get_user_with_pubkey x db key ≡ ok user
  pub perms : Permissions
  pub held : x.permissions.from_slice user.permissions ≡ ok perms
  pub accepted : verify_req x db block.body body.req body.user_pk perms body.sign ≡ accept

-- The vote in favour is out, and the block goes on to `handle_incoming_data`.
pub record VotedFor (x : External) (g : Receiver) (block : Block) (g' : Receiver) : Type 0 where
  pub body : BodyData
  pub valid : IsValid x g.node.db block body
  pub told : g'.node.outbox ≡ g.node.outbox ++ NetData.vote block.hash vote_ok ∷ []
  pub passed_on : g'.queue ≡ g.queue ++ NetEvent.new_block body block.hash ∷ []

-- At most a vote against is out, and the block is forgotten.
pub record VotedAgainst (g : Receiver) (block : Block) (g' : Receiver) : Type 0 where
  pub told :
      (g'.node.outbox ≡ g.node.outbox)
      ⊎ (g'.node.outbox ≡ g.node.outbox ++ NetData.vote block.hash vote_no ∷ [])
  pub kept : g'.queue ≡ g.queue
  pub forgotten : any (λ (p : Pending). same p.hash block.hash) g'.node.pending ≡ false

from_ok-some :
    {A B : Type 0} (m : Fallible A) (k : A → Option B) {b : B}
    → from_ok m k ≡ some b
    → (a : A) × (m ≡ ok a) × (k a ≡ some b)
from_ok-some (ok a) k h = (a, refl, h)
from_ok-some (err e) k h = cc

when_accepted-some :
    (v : BodyData) (verdict : Verdict) {body : BodyData}
    → when_accepted v verdict ≡ some body
    → (v ≡ body) × (verdict ≡ accept)
when_accepted-some v (ok none) h = (cc, refl)
when_accepted-some v (ok (some e)) h = cc
when_accepted-some v (err e) h = cc

module _ (x : External) (net : Codec NetData) (accepts : ℕ → Bool) where
  verify_hash-eq :
      (block : Block)
      → verify_hash x block.body block.hash ≡ true
      → x.sha256 block.body ≡ block.hash
  unfolding verify_hash
  verify_hash-eq block e = same→eq (x.sha256 block.body) block.hash e

  validate-IsValid :
      (db : Database) (block : Block) (body : BodyData)
      → validate x net accepts db block ≡ some body
      → IsValid x db block body
  unfolding validate
  validate-IsValid db block body h = elim (Bool-cases (verify_hash x block.body block.hash)) [
    | inr e ↦ absurd (ground arith)
    | inl e ↦ checked (verify_hash-eq block e) (ground arith)
  ]
    where
      checked :
          x.sha256 block.body ≡ block.hash
          → from_ok (x.body_data.from_slice block.body) (λ v.
            from_ok (x.public_key.to_vec v.user_pk) λ pk.
              from_ok (get_user_with_pubkey x db pk) λ user.
                from_ok
                  (x.permissions.from_slice user.permissions)
                  λ perm. when_accepted v (verify_req x db block.body v.req v.user_pk perm v.sign))
            ≡ some body
          → IsValid x db block body
      checked digest h0 =
          let (v, read, h1) = from_ok-some (x.body_data.from_slice block.body) _ h0 in
          let (pk, written, h2) = from_ok-some (x.public_key.to_vec v.user_pk) _ h1 in
          let (user, known, h3) = from_ok-some (get_user_with_pubkey x db pk) _ h2 in
          let (perms, held, h4) = from_ok-some (x.permissions.from_slice user.permissions) _ h3 in
          let (same_body, accepted) = when_accepted-some v _ h4 in
          let to_body : v ≡ body = same_body in
          record {
            digest = digest;
            read = read ∙ ap ok to_body;
            key = pk;
            written = ap (λ (b : BodyData). x.public_key.to_vec b.user_pk) (sym to_body) ∙ written;
            user = user;
            known = known;
            perms = perms;
            held = held;
            accepted =
                ap (λ (b : BodyData). verify_req x db block.body b.req b.user_pk perms b.sign)
                  (sym to_body)
                ∙ accepted;
          }

  vote_against-VotedAgainst :
      (g s : Receiver) (block : Block)
      → s.node.outbox ≡ g.node.outbox
      → s.queue ≡ g.queue
      → VotedAgainst g block (vote_against x net accepts block.hash s)
  unfolding vote_against
  vote_against-VotedAgainst g s block out kept =
      elim (Fallible-cases (net.to_vec (NetData.vote block.hash vote_no))) [
        | inr (f, e) ↦
            rw (vote_against, e) (record { told = inl out; kept = kept; forgotten = gone })
        | inl (b, e) ↦ elim (Bool-cases (accepts 0)) [
          | inl t ↦
              rw (vote_against, e, t)
                (record {
                  told = inr (ap (λ o. o ++ NetData.vote block.hash vote_no ∷ []) out);
                  kept = kept;
                  forgotten = gone;
                })
          | inr t ↦
              rw (vote_against, e, t) (record { told = inl out; kept = kept; forgotten = gone })
        ]
      ]
    where
      gone :
          any
            (λ (p : Pending). same p.hash block.hash)
            (retain (λ (p : Pending). not (same p.hash block.hash)) s.node.pending)
          ≡ false
      gone =
          any-retain_not (λ (p : Pending). same p.hash block.hash) _ s.node.pending
            λ p h. ground arith

  -- How the receipt of a block ends.
  abbrev pub Ends : Receiver → Block → Receiver → Type 0
  Ends g block g' = VotedFor x g block g' ⊎ VotedAgainst g block g'

  push_vote-Ends :
      (g s : Receiver) (block : Block) (body : BodyData) (left i : ℕ)
      → IsValid x g.node.db block body
      → s.node.outbox ≡ g.node.outbox
      → s.queue ≡ g.queue
      → Ends g block (push_vote x net accepts left i body block.hash s)
  unfolding push_vote
  push_vote-Ends g s block body zero i valid out kept =
      inr (vote_against-VotedAgainst g s block out kept)
  push_vote-Ends g s block body (suc left) i valid out kept = elim (Bool-cases (accepts i)) [
    | inl t ↦
        rw (push_vote, t)
          (inl (record {
            body = body;
            valid = valid;
            told = ap (λ o. o ++ NetData.vote block.hash vote_ok ∷ []) out;
            passed_on = ap (λ q. q ++ NetEvent.new_block body block.hash ∷ []) kept;
          }))
    | inr t ↦ rw (push_vote, t) (push_vote-Ends g s block body left (i + 1) valid out kept)
  ]

  vote_for-Ends :
      (g s : Receiver) (block : Block) (body : BodyData)
      → IsValid x g.node.db block body
      → s.node.outbox ≡ g.node.outbox
      → s.queue ≡ g.queue
      → Ends g block (vote_for x net accepts body block.hash s)
  unfolding vote_for
  vote_for-Ends g s block body valid out kept =
      elim (Fallible-cases (net.to_vec (NetData.vote block.hash vote_ok))) [
        | inl (b, e) ↦ rw (vote_for, e) (push_vote-Ends g _ block body _ 1 valid out kept)
        | inr (f, e) ↦ rw (vote_for, e) (inr (vote_against-VotedAgainst g _ block out kept))
      ]

  -- A master node that receives a block votes for it and passes it on, and then the block is valid by
  -- the node's own tables; or it passes nothing on, votes at most against the block, and keeps no
  -- pending entry of its hash.
  pub on_block-Ends : (g : Receiver) (block : Block) → Ends g block (on_block x net accepts block g)
  unfolding on_block
  on_block-Ends g block = elim (Option-cases (validate x net accepts g.node.db block)) [
    | inl e ↦ rw (on_block, e) (inr (vote_against-VotedAgainst g _ block refl refl))
    | inr (body, e) ↦
        rw (on_block, e)
          (vote_for-Ends g _ block body (validate-IsValid g.node.db block body e) refl refl)
  ]
