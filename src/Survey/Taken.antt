-- ===== src/Survey/Taken.antt =====
-- The calls of a `SurveyManager` (main/survey.cpp) in any order: which results are taken, and how often.
use gps_base_station.Prelude.{
  ℕ, suc, ◌+◌, ◌≤◌, ◌≡◌, inl, inr, ap, List, [], ◌∷◌, Option, none, some, Bool, true, false, ◌&&◌,
  ◌||◌, ◌==◌, ltb, if◌then◌else◌, length, codes, starts_with, arith, Bool-cases, if_cases,
}
use gps_base_station.Survey.Position.{
  Reals, k_idle, is_collecting, SurveyResult, Live, Fix, start_fix, reset_fix,
  take_completed_result,
}
use gps_base_station.Survey.Sampling.{parse_best_position}
use gps_base_station.Survey.{
  Survey, no_sky, parse_line, add_char, feed_char, feed, start, reset, take_result, k_max_line,
}
use gps_base_station.Survey.Completed.{Steady, Holds, parse_best_position-Holds}

-- A survey may still give a result.
abbrev pub owed : Bool → Bool → ℕ
owed collecting waits = if collecting || waits then 1 else 0

owed_bound : (p q : Bool) → owed p q ≤ 1
owed_bound true q = omega arith
owed_bound false true = omega arith
owed_bound false false = omega arith

module _ (reals : Reals) where
  pub data Call : Type 0 where
    starts : ℕ → Call
    resets takes : Call
    feeds : ℕ → List ℕ → Call

  -- The manager, how many surveys were started, and the results that were taken, each with what was shown
  -- of its survey then.
  pub record Used : Type 0 where
    pub survey : Survey reals
    pub started : ℕ
    pub taken : List (Live reals × SurveyResult reals)

  unfoldable pub boot : Survey reals
  unfolding start_fix
  boot = record { line = []; sky = no_sky; fix = record (start_fix reals 0) { state = k_idle } }

  abbrev pub fresh : Used
  fresh = record { survey = boot; started = 0; taken = [] }

  abbrev pub with_taken :
      Live reals
      → List (Live reals × SurveyResult reals)
      → Option (SurveyResult reals)
      → List (Live reals × SurveyResult reals)
  with_taken live taken none = taken
  with_taken live taken (some result) = (live, result) ∷ taken

  unfoldable pub used : Used → Call → Used
  unfolding start reset take_result feed
  used u (starts now) = record u { survey = start reals now; started = u.started + 1 }
  used u resets = record u { survey = reset reals u.survey }
  used u takes = record u {
    survey = (take_result reals u.survey).0;
    taken = with_taken u.survey.fix.live u.taken (take_result reals u.survey).1;
  }
  used u (feeds now bytes) = record u { survey = feed reals u.survey now bytes }

  unfoldable pub used_all : Used → List Call → Used
  unfolding used
  used_all u [] = u
  used_all u (c ∷ calls) = used_all (used u c) calls

  abbrev pub owes : Fix reals → ℕ
  owes x = owed (is_collecting x.state) x.completion_pending

  abbrev pub AllSteady : List (Live reals × SurveyResult reals) → Type 0
  AllSteady [] = Unit {0}
  AllSteady ((live, result) ∷ taken) = Steady reals live result × AllSteady taken

  -- A step of the fix that gives no result away.
  abbrev pub Grows : Fix reals → Fix reals → Type 0
  Grows x y = Holds reals y × (owes y ≤ owes x)

  best-Grows :
      (x : Fix reals) (now : ℕ) (line : List ℕ)
      → is_collecting x.state ≡ true
      → Holds reals x
      → Grows x (parse_best_position reals x now line)
  unfolding is_collecting
  best-Grows x now line c h =
      let y = parse_best_position reals x now line in
      (
        parse_best_position-Holds reals x now line c h,
        rw c (owed_bound (is_collecting y.state) y.completion_pending),
      )

  parse_line-Grows :
      (s : Survey reals) (now : ℕ) (line : List ℕ)
      → Holds reals s.fix
      → Grows s.fix (parse_line reals s now line).fix
  unfolding parse_line
  parse_line-Grows s now line h =
      let G = λ (t : Survey reals). Grows s.fix t.fix in
      if_cases G (starts_with line (codes "$GNGSA")) _ _ (λ e. (h, omega arith))
        (λ e.
          if_cases G (starts_with line (codes "$GPGSV")) _ _ (λ e. (h, omega arith))
            (λ e.
              if_cases G (starts_with line (codes "$GLGSV")) _ _ (λ e. (h, omega arith))
                (λ e.
                  if_cases G (starts_with line (codes "$GAGSV")) _ _ (λ e. (h, omega arith))
                    (λ e.
                      if_cases G (starts_with line (codes "$GBGSV")) _ _ (λ e. (h, omega arith))
                        (λ e.
                          if_cases G
                            (is_collecting s.fix.state && starts_with line (codes "#BESTPOSA")) _ _
                            (λ e. best-Grows s.fix now line (ground (arith, e)) h)
                            (λ e. (h, omega arith)))))))

  feed_char-Grows :
      (s : Survey reals) (now byte : ℕ)
      → Holds reals s.fix
      → Grows s.fix (feed_char reals s now byte).fix
  unfolding feed_char add_char
  feed_char-Grows s now byte h =
      let G = λ (t : Survey reals). Grows s.fix t.fix in
      if_cases G (byte == 10) _ _ (λ e. parse_line-Grows s now s.line h)
        (λ e.
          if_cases G (byte == 13) _ _ (λ e. (h, omega arith))
            (λ e.
              if_cases G (ltb (length s.line) k_max_line) _ _ (λ e. (h, omega arith))
                (λ e. (h, omega arith))))

  feed-Grows :
      (s : Survey reals) (now : ℕ) (bytes : List ℕ)
      → Holds reals s.fix
      → Grows s.fix (feed reals s now bytes).fix
  unfolding feed
  feed-Grows s now [] h = (h, omega arith)
  feed-Grows s now (byte ∷ bytes) h =
      let first = feed_char-Grows s now byte h in
      let rest = feed-Grows (feed_char reals s now byte) now bytes first.0 in
      (rest.0, omega (arith, first.1, rest.1))

  pub record IsFair (u : Used) : Type 0 where
    pub holds : Holds reals u.survey.fix
    pub counted : length u.taken + owes u.survey.fix ≤ u.started
    pub steady : AllSteady u.taken

  owed_once :
      (taken started : ℕ) (x : Fix reals)
      → is_collecting x.state ≡ false
      → x.completion_pending ≡ true
      → taken + owes x ≤ started
      → suc taken + owed (is_collecting x.state) false ≤ started
  owed_once taken started x c waits bound = rw c (omega (arith, rw (c, waits) at bound))

  takes-IsFair : (u : Used) → IsFair u → IsFair (used u takes)
  unfolding used take_result take_completed_result is_collecting
  takes-IsFair u f = elim (Bool-cases u.survey.fix.completion_pending) [
    | inl waits ↦
        let done = f.holds.pending waits in
        rw waits (record {
          holds = record {
            pending = λ e. absurd (ground arith);
            steady = f.holds.steady;
            counted = f.holds.counted;
          };
          counted =
              owed_once (length u.taken) u.started u.survey.fix (ap is_collecting done) waits
                f.counted;
          steady = (f.holds.steady done, f.steady);
        })
    | inr free ↦ rw free (record {
      holds = record {
        pending = λ e. absurd (ground arith);
        steady = f.holds.steady;
        counted = f.holds.counted;
      };
      counted = rw free at f.counted;
      steady = f.steady;
    })
  ]

  used-IsFair : (u : Used) (c : Call) → IsFair u → IsFair (used u c)
  unfolding used start reset start_fix reset_fix is_collecting
  used-IsFair u (starts now) f = record {
    holds = record {
      pending = λ e. absurd (ground arith);
      steady = λ e. absurd (ground arith);
      counted = omega arith;
    };
    counted = omega (arith, f.counted);
    steady = f.steady;
  }
  used-IsFair u resets f = record {
    holds = record {
      pending = λ e. absurd (ground arith);
      steady = λ e. absurd (ground arith);
      counted = f.holds.counted;
    };
    counted = omega (arith, f.counted);
    steady = f.steady;
  }
  used-IsFair u takes f = takes-IsFair u f
  used-IsFair u (feeds now bytes) f =
      let g = feed-Grows u.survey now bytes f.holds in
      record { holds = g.0; counted = omega (arith, f.counted, g.1); steady = f.steady }

  used_all-IsFair : (u : Used) (calls : List Call) → IsFair u → IsFair (used_all u calls)
  unfolding used_all
  used_all-IsFair u [] f = f
  used_all-IsFair u (c ∷ calls) f = used_all-IsFair (used u c) calls (used-IsFair u c f)

  -- From a new manager, whatever is called in whatever order, and whatever bytes arrive: results are taken
  -- at most as often as surveys were started, and each of them is the position that its survey showed, after
  -- at least five minutes and five blocks, over more samples than blocks, with a stability of half a metre.
  pub used_all-fresh :
      (calls : List Call)
      → (length (used_all fresh calls).taken ≤ (used_all fresh calls).started)
        × AllSteady (used_all fresh calls).taken
  unfolding boot start_fix is_collecting
  used_all-fresh calls =
      let f = used_all-IsFair fresh calls (record {
        holds = record {
          pending = λ e. absurd (ground arith);
          steady = λ e. absurd (ground arith);
          counted = omega arith;
        };
        counted = omega arith;
        steady = tt;
      }) in
      (omega (arith, f.counted), f.steady)
