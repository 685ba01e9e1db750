-- ===== src/Serve/Delivery.antt =====
-- Which reports a client gets.
use pfe_development_of_a_mon.Prelude.{
  Failure, err, ◌⊎◌, Bool, false, count, retain, ltb_ℤ, as_i64, ℕ, ◌≤◌, ◌≡◌, refl, ◌∙◌, ap, true,
  List, [], ◌∷◌, ◌++◌, leb, length, length-append, map, All, Bytes, arith, Fallible, ok, is_ok,
  Bool-cases, Fallible-cases, inl, inr,
}
use mathlib.Core.List.{append_assoc}
use pfe_development_of_a_mon.Client.Sync.{Stat}
use pfe_development_of_a_mon.Database.Tables.{StatRow, Database}
use pfe_development_of_a_mon.Database.Reports.{poll_stats_ready, stats_after}
use pfe_development_of_a_mon.Serve.Reports.{send_stats, read_row, Feed, push_message, read_stats}

abbrev pub joined_stats : List (List Stat) → List Stat
joined_stats [] = []
joined_stats (m ∷ ms) = m ++ joined_stats ms

abbrev pub stat_of : Stat × ℕ → Stat
stat_of (stat, time) = stat

-- The time of the last row, or the one that is given where there is none.
abbrev pub last_time : ℕ → List (Stat × ℕ) → ℕ
last_time t [] = t
last_time t ((stat, time) ∷ rows) = last_time time rows

-- The messages are those of the feed and further ones, each of one to nine reports, that hold the
-- pending reports and the rows in their order, all of them, and the feed stands at the time of the last.
pub record DeliversAll (s : Feed) (stats : List Stat) (last : ℕ) (rows : List (Stat × ℕ))
    (s' : Feed) : Type 0 where
  pub messages : List (List Stat)
  pub sent : s'.sent ≡ s.sent ++ messages
  pub sized : All (λ m. (1 ≤ length m) × (length m ≤ 9)) messages
  pub whole : joined_stats messages ≡ stats ++ map stat_of rows
  pub time : s'.last_timestamp ≡ last_time last rows

module _ (ser : List Stat → Fallible Bytes) (total : (m : List Stat) → is_ok (ser m) ≡ true) where
  -- A message that is sent, then the rest.
  pushed-DeliversAll :
      (stat : Stat) (time last : ℕ) (rows : List (Stat × ℕ)) (stats : List Stat) (s s' : Feed)
      → length stats ≡ 9
      → DeliversAll (push_message ser stats last s) (stat ∷ []) time rows s'
      → DeliversAll s stats last ((stat, time) ∷ rows) s'
  pushed-DeliversAll stat time last rows stats s s' full d = record {
    messages = stats ∷ d.messages;
    sent = d.sent ∙ append_assoc s.sent (stats ∷ []) d.messages;
    sized = (omega arith, d.sized);
    whole = ap (λ t. stats ++ t) d.whole;
    time = d.time;
  }

  kept-DeliversAll :
      (stat : Stat) (time last : ℕ) (rows : List (Stat × ℕ)) (stats : List Stat) (s s' : Feed)
      → DeliversAll s (stats ++ stat ∷ []) time rows s'
      → DeliversAll s stats last ((stat, time) ∷ rows) s'
  kept-DeliversAll stat time last rows stats s s' d = record {
    messages = d.messages;
    sent = d.sent;
    sized = d.sized;
    whole = d.whole ∙ append_assoc stats (stat ∷ []) (map stat_of rows);
    time = d.time;
  }

  read_stats-DeliversAll :
      (rows : List (Stat × ℕ)) (stats : List Stat) (last : ℕ) (s : Feed)
      → 1 ≤ length stats
      → length stats ≤ 9
      → DeliversAll s stats last rows (read_stats ser (map (λ r. ok r) rows) stats last s)
  unfolding read_stats
  read_stats-DeliversAll [] stats last s some_stats few = elim (Fallible-cases (ser stats)) [
    | inr (f, bad) ↦ absurd (ground (arith, total stats))
    | inl (b, good) ↦
        let e : leb 1 (length stats) ≡ true = ground arith in
        rw (read_stats, e, good)
          (record {
            messages = stats ∷ [];
            sent = refl;
            sized = ((some_stats, few), tt);
            whole = refl;
            time = refl;
          })
  ]
  read_stats-DeliversAll ((stat, time) ∷ rows) stats last s some_stats few =
      elim (Bool-cases (leb 9 (length stats))) [
        | inr e ↦
            rw (read_stats, e)
              (kept-DeliversAll stat time last rows stats s _ (
                read_stats-DeliversAll rows (stats ++ stat ∷ []) time s
                  (omega (arith, length-append stats (stat ∷ [])))
                  (ground (arith, length-append stats (stat ∷ [])))))
        | inl e ↦ elim (Fallible-cases (ser stats)) [
          | inr (f, bad) ↦ absurd (ground (arith, total stats))
          | inl (b, good) ↦
              rw (read_stats, e, good)
                (pushed-DeliversAll stat time last rows stats s _ (ground arith)
                  (read_stats-DeliversAll rows (stat ∷ []) time _ (omega arith) (omega arith)))
        ]
      ]

  first-DeliversAll :
      (stat : Stat) (time : ℕ) (rows : List (Stat × ℕ)) (s : Feed)
      → DeliversAll s [] 0
          ((stat, time) ∷ rows)
          (read_stats ser (map (λ r. ok r) ((stat, time) ∷ rows)) [] 0 s)
  unfolding read_stats
  first-DeliversAll stat time rows s =
      kept-DeliversAll stat time 0 rows [] s _
        (read_stats-DeliversAll rows (stat ∷ []) time s (omega arith) (omega arith))

  delivered :
      (rows : List (Stat × ℕ)) (s : Feed)
      → ((rows ≡ []) × (read_stats ser (map (λ r. ok r) rows) [] 0 s ≡ s))
        ⊎ DeliversAll s [] 0 rows (read_stats ser (map (λ r. ok r) rows) [] 0 s)
  unfolding read_stats
  delivered [] s = inl (refl, refl)
  delivered ((stat, time) ∷ rows) s = inr (first-DeliversAll stat time rows s)

  count-retain : (p : StatRow → Bool) (xs : List StatRow) → count p xs ≡ length (retain p xs)
  count-retain p [] = refl
  count-retain p (y ∷ xs) = ground (arith, count-retain p xs)

  not_ready :
      (db : Database) (time : ℕ) → poll_stats_ready db time ≡ ok false → stats_after db time ≡ []
  unfolding poll_stats_ready stats_after
  not_ready db time e =
      let p : StatRow → Bool = λ r. ltb_ℤ (as_i64 time) r.timestamp in
      let few : leb 1 (count p db.stats) ≡ false = cc in
      no_length (retain p db.stats) (ground (arith, count-retain p db.stats))
    where
      no_length : (xs : List StatRow) → length xs ≡ 0 → xs ≡ []
      no_length [] h = refl
      no_length (y ∷ xs) h = absurd (omega arith)

  polled : (db : Database) (time : ℕ) (f : Failure) → ¬ (poll_stats_ready db time ≡ err f)
  unfolding poll_stats_ready
  polled db time f e = cc

  -- If messages can be serialised and the rows after the session's time can be read, a client for which
  -- there are none is sent nothing; else it is sent all of them, in the order in which they were read, in messages of one to
  -- nine reports, and the session then stands at the time of the last one.
  pub send_stats-DeliversAll :
      (null_u32 : Fallible ℕ) (db : Database) (s : Feed) (rows : List (Stat × ℕ))
      → map (read_row null_u32) (stats_after db s.last_timestamp) ≡ map (λ r. ok r) rows
      → ((rows ≡ []) × (send_stats ser null_u32 db s ≡ s))
        ⊎ DeliversAll s [] 0 rows (send_stats ser null_u32 db s)
  unfolding send_stats
  send_stats-DeliversAll null_u32 db s rows readable =
      elim (Fallible-cases (poll_stats_ready db s.last_timestamp)) [
        | inr (f, e) ↦ absurd (polled db s.last_timestamp f e)
        | inl (true, e) ↦ rw (send_stats, e, readable) (delivered rows s)
        | inl (false, e) ↦
            inl (
              none_read rows (rw (not_ready db s.last_timestamp e) at readable),
              rw (send_stats, e),
            )
      ]
    where
      none_read : (rs : List (Stat × ℕ)) → [] ≡ map (λ r. ok r) rs → rs ≡ []
      none_read [] h = refl
      none_read (r ∷ rs) h = cc
