-- ===== src/Transport/Loop/Streak.antt =====
-- ws_json_client.py: a streak of failed attempts.
use indigo_matter.Prelude.{
  ℕ, suc, ◌+◌, ◌^◌, Bool, true, false, ◌||◌, List, [], ◌∷◌, ◌++◌, ◌≡◌, refl, arith, All, length,
  ltb, ap, sym, ◌∙◌, ◌⊎◌, inl, inr, Bool-cases, if◌then◌else◌,
}
use indigo_matter.Transport.Loop.{
  Ending, listened, cancelled, client_halted, handshake_failed, timed_out, connection_lost,
  unexpected, Round, Loop, begun, max_backoff, min, maybe_report_repeated_failure, caught,
  backed_off, continued, connected_once, rearmed_by, round, run_loop,
}

abbrev pub is_retryable : Ending → Bool
is_retryable handshake_failed = true
is_retryable timed_out = true
is_retryable connection_lost = true
is_retryable unexpected = true
is_retryable _ = false

-- The round ends in a failure, with no close, no wake-up and no re-arming of the diagnostic.
abbrev pub IsAlone : Round → Type 0
IsAlone r =
    (is_retryable r.ending ≡ true)
    × (r.rearms ≡ false)
    × (r.rearmed ≡ false)
    × (r.closed ≡ false)
    × (r.woken ≡ false)

-- A failing attempt that does not connect.
abbrev pub IsFailing : Round → Type 0
IsFailing r = (r.connects ≡ false) × IsAlone r

abbrev pub IsOn : Loop → Type 0
IsOn l = (l.halted ≡ false) × (l.closing ≡ false) × (l.finished ≡ false)

-- The state in a streak of n failures, after those reports.
record IsStreak (past : List ℕ) (n : ℕ) (l : Loop) : Type 0 where
  attempts : l.attempt ≡ n
  fired : l.diag_fired ≡ ltb 1 n
  reported : l.reports ≡ (if ltb 1 n then 2 ∷ past else past)
  on : IsOn l

caught_retryable :
    (e : Ending) (rearms : Bool) (l : Loop)
    → is_retryable e ≡ true
    → caught e rearms l ≡ maybe_report_repeated_failure rearms l
unfolding caught
caught_retryable listened rearms l h = cc
caught_retryable cancelled rearms l h = cc
caught_retryable (client_halted reason) rearms l h = cc
caught_retryable handshake_failed rearms l h = refl
caught_retryable timed_out rearms l h = refl
caught_retryable connection_lost rearms l h = refl
caught_retryable unexpected rearms l h = refl

-- A round that fails, from the state in which it begins.
alone :
    (r : Round) (l : Loop)
    → IsAlone r
    → round r l ≡ (
        let met = maybe_report_repeated_failure false (connected_once r.connects l) in
        continued false (record met { closing = l.closing || false }))
unfolding round rearmed_by
alone r l (ends, quiet, still, unclosed, asleep) =
    rw
      (
        quiet,
        still,
        unclosed,
        asleep,
        caught_retryable r.ending false (connected_once r.connects l) ends,
      )
      refl

round-IsStreak :
    (r : Round) (past : List ℕ) (n : ℕ) (l : Loop)
    → IsFailing r
    → IsStreak past (suc n) l
    → IsStreak past (suc (suc n)) (round r l)
      × ((round r l).delays ≡ min (2 ^ suc n) max_backoff ∷ l.delays)
unfolding continued backed_off maybe_report_repeated_failure connected_once
round-IsStreak r past n l f k = rw (alone r l f.1) (ground arith)

-- The first failure of a streak.
first-IsStreak :
    (c : Round) (l : Loop)
    → IsOn l
    → IsAlone c
    → (c.connects ≡ true) ⊎ ((l.attempt ≡ 0) × (l.diag_fired ≡ false))
    → IsStreak l.reports 1 (round c l)
unfolding continued backed_off maybe_report_repeated_failure connected_once
first-IsStreak c l on f anew = rw (alone c l f) (ground arith)

run_loop-IsStreak :
    (rounds : List Round) (past : List ℕ) (n m : ℕ) (l : Loop)
    → m ≡ length rounds + n
    → All IsFailing rounds
    → IsStreak past (suc n) l
    → IsStreak past (suc m) (run_loop rounds l)
unfolding run_loop
run_loop-IsStreak [] past n m l e f k = let same : m ≡ n = omega arith in rw same k
run_loop-IsStreak (r ∷ rest) past n m l e f k =
    let going : (l.finished || l.closing) ≡ false = ground arith in
    rw going (
      run_loop-IsStreak rest past (suc n) m (round r l) (omega arith) f.1
        (round-IsStreak r past n l f.0 k).0)

-- A loop that is over stays as it is.
run_loop_over :
    (rounds : List Round) (l : Loop) → (l.finished || l.closing) ≡ true → run_loop rounds l ≡ l
unfolding run_loop
run_loop_over [] l h = refl
run_loop_over (r ∷ rest) l h = rw h refl

run_loop-append :
    (xs ys : List Round) (l : Loop) → run_loop (xs ++ ys) l ≡ run_loop ys (run_loop xs l)
unfolding run_loop
run_loop-append [] ys l = refl
run_loop-append (x ∷ xs) ys l = elim (Bool-cases (l.finished || l.closing)) [
  | inl e ↦ rw e (sym (run_loop_over ys l e))
  | inr e ↦ rw e (run_loop-append xs ys (round x l))
]

module _ (l : Loop) (c : Round) (rounds : List Round) (r : Round) where
  -- The streak in a loop that is on.
  streak_lem :
      IsOn l
      → IsAlone c
      → (c.connects ≡ true) ⊎ ((l.attempt ≡ 0) × (l.diag_fired ≡ false))
      → All IsFailing rounds
      → IsFailing r
      → ((run_loop (c ∷ rounds ++ r ∷ []) l).delays
          ≡ min (2 ^ suc (length rounds)) max_backoff ∷ (run_loop (c ∷ rounds) l).delays)
        × ((run_loop (c ∷ rounds ++ r ∷ []) l).reports ≡ 2 ∷ l.reports)
  unfolding run_loop
  streak_lem on first anew f g =
      let k =
        run_loop-IsStreak rounds l.reports 0 (length rounds) (round c l) (omega arith) f
          (first-IsStreak c l on first anew) in
      let further = round-IsStreak r l.reports (length rounds) (run_loop rounds (round c l)) g k in
      let begins : (l.finished || l.closing) ≡ false = ground arith in
      let goes_on : ((run_loop rounds (round c l)).finished
            || (run_loop rounds (round c l)).closing)
          ≡ false =
        ground arith in
      rw (begins, run_loop-append rounds (r ∷ []) (round c l), goes_on)
        (further.1, further.0.reported ∙ ground arith)

-- The backoff doubles up to its limit and the diagnostic fires once in a streak: after any past of a
-- loop that is still on, let a round fail that had connected, or with which the count and the
-- diagnostic begin anew; after n more attempts that fail without connecting, the wait that follows a
-- next one is min(2 ^ (n + 1), 30) seconds, and the streak was reported once, at its second failure.
-- In the streak there is no wake-up, no close and no re-arming of the diagnostic.
pub run_loop_streak :
    (past : List Round) (c : Round) (rounds : List Round) (r : Round)
    → IsOn (run_loop past begun)
    → IsAlone c
    → (c.connects ≡ true)
      ⊎ (((run_loop past begun).attempt ≡ 0) × ((run_loop past begun).diag_fired ≡ false))
    → All IsFailing rounds
    → IsFailing r
    → ((run_loop (past ++ (c ∷ rounds ++ r ∷ [])) begun).delays
        ≡ min (2 ^ suc (length rounds)) max_backoff ∷ (run_loop (past ++ c ∷ rounds) begun).delays)
      × ((run_loop (past ++ (c ∷ rounds ++ r ∷ [])) begun).reports
          ≡ 2 ∷ (run_loop past begun).reports)
run_loop_streak past c rounds r on first anew f g =
    let all = run_loop-append past (c ∷ rounds ++ r ∷ []) begun in
    let but_last = run_loop-append past (c ∷ rounds) begun in
    let (waits, reported) = streak_lem (run_loop past begun) c rounds r on first anew f g in
    (
      ap (λ (l : Loop). l.delays) all
          ∙ waits
          ∙ sym (ap (λ (l : Loop). min (2 ^ suc (length rounds)) max_backoff ∷ l.delays) but_last),
      ap (λ (l : Loop). l.reports) all ∙ reported,
    )
