-- ===== src/Survey/Completed.antt =====
-- When a survey is done, and how often its result is taken (main/survey.cpp).
use gps_base_station.Prelude.{
  ℕ, ◌+◌, ◌/◌, ◌≤◌, ◌<◌, ◌≡◌, inl, inr, refl, sym, ◌∙◌, List, Option, none, some, true, false, ◌&&◌,
  leb, arith, Bool-cases, Option-cases, if_cases,
}
use gps_base_station.Survey.Text.{csv_field, without_checksum}
use gps_base_station.Survey.Position.{
  Reals, k_collecting, k_done, is_collecting, SurveyResult, Live, Fix, commit_block, Place,
  read_place,
}
use gps_base_station.Survey.Sampling.{
  k_survey_max_stability_m, mean_place, enter_block, count_sample, in_block, add_sample,
  complete_if, result_of, sampled, sampled_if, take_payload, behind_header, behind_semicolon,
  parse_best_position, live_of, spread, is_computed, elapsed_of,
}

module _ (reals : Reals) where
  open reals use {F, at_most}

  -- A survey of five minutes and five blocks whose stability is half a metre, and its result.
  pub record Steady (live : Live reals) (result : SurveyResult reals) : Type 0 where
    pub long : 300 ≤ live.elapsed_sec
    pub blocks : 5 ≤ live.blocks
    pub samples : live.blocks < live.samples
    pub stable : at_most live.stability (k_survey_max_stability_m reals) ≡ true
    pub place : result.place ≡ live.place
    pub elapsed : result.elapsed_sec ≡ live.elapsed_sec

  pub record Holds (x : Fix reals) : Type 0 where
    pub pending : x.completion_pending ≡ true → x.state ≡ k_done
    pub steady : x.state ≡ k_done → Steady x.live x.result
    pub counted : x.block_count + x.block_samples ≤ x.samples

  not_done : (x : Fix reals) → is_collecting x.state ≡ true → x.state ≡ k_collecting
  unfolding is_collecting
  not_done x c = ground arith

  pub not_pending :
      (x : Fix reals) → Holds x → is_collecting x.state ≡ true → x.completion_pending ≡ false
  unfolding is_collecting
  not_pending x h c = elim (Bool-cases x.completion_pending) [
    | inl waits ↦ absurd (ground (arith, h.pending waits))
    | inr free ↦ free
  ]

  commit_block-counted :
      (x : Fix reals)
      → (commit_block reals x).block_count + (commit_block reals x).block_samples
        ≤ x.block_count + x.block_samples
  unfolding commit_block
  commit_block-counted x = ground arith

  -- What a new sample leaves of the state.
  pub record Sampled (x y : Fix reals) : Type 0 where
    pub state : y.state ≡ x.state
    pub pending : y.completion_pending ≡ x.completion_pending
    pub counted : y.block_count + y.block_samples ≤ y.samples
    pub fewer : y.block_count < y.samples

  enter_block-counted :
      (x : Fix reals) (next : ℕ) (index : Option ℕ)
      → let y = enter_block reals x next index in
        (y.state ≡ x.state)
        × (y.completion_pending ≡ x.completion_pending)
        × (y.samples ≡ x.samples)
        × (y.block_count + y.block_samples ≤ x.block_count + x.block_samples)
  unfolding enter_block commit_block
  enter_block-counted x next none = (refl, refl, refl, omega arith)
  enter_block-counted x next (some index) = ground arith

  add_sample-Sampled :
      (x : Fix reals) (p : Place reals) (elapsed : ℕ)
      → x.block_count + x.block_samples ≤ x.samples
      → Sampled x (add_sample reals x p elapsed)
  unfolding add_sample count_sample in_block
  add_sample-Sampled x p elapsed counted =
      let e = enter_block-counted (count_sample reals x p) (elapsed / 60) x.block_index in
      record {
        state = e.0;
        pending = e.1;
        counted = omega (arith, e.2, e.3, counted);
        fewer = omega (arith, e.2, e.3, counted);
      }

  -- A survey that goes on, as a sample leaves it.
  pub record Ready (x : Fix reals) (stability : F) (elapsed : ℕ) : Type 0 where
    pub collecting : x.state ≡ k_collecting
    pub waits : x.completion_pending ≡ false
    pub counted : x.block_count + x.block_samples ≤ x.samples
    pub fewer : x.live.blocks < x.live.samples
    pub elapsed_ : x.live.elapsed_sec ≡ elapsed
    pub blocks : x.live.blocks ≡ x.block_count
    pub stability_ : x.live.stability ≡ stability
    pub place : x.live.place ≡ mean_place reals x

  done-Steady :
      (x : Fix reals) (la lo he stability : F) (elapsed : ℕ)
      → Ready x stability elapsed
      → (leb 300 elapsed
          && leb 5 x.block_count
          && at_most stability (k_survey_max_stability_m reals))
        ≡ true
      → Steady x.live (result_of reals x (la, lo, he, stability) elapsed)
  unfolding result_of
  done-Steady x la lo he stability elapsed r done = record {
    long = ground (arith, r.elapsed_);
    blocks = ground (arith, r.blocks);
    samples = r.fewer;
    stable = ground (arith, r.stability_);
    place = sym r.place;
    elapsed = sym r.elapsed_;
  }

  complete_if-Holds :
      (x : Fix reals) (s : F × F × F × F) (elapsed : ℕ)
      → Ready x s.3 elapsed
      → Holds (complete_if reals x s elapsed)
  unfolding complete_if result_of
  complete_if-Holds x (la, lo, he, stability) elapsed r =
      elim (Bool-cases (
        leb 300 elapsed
        && leb 5 x.block_count
        && at_most stability (k_survey_max_stability_m reals))) [
          | inl done ↦ rw done (record {
            pending = λ p. refl;
            steady = λ p. done-Steady x la lo he stability elapsed r done;
            counted = r.counted;
          })
          | inr more ↦ rw more (record {
            pending = λ p. absurd (ground (arith, r.waits, p));
            steady = λ p. absurd (ground (arith, r.collecting, p));
            counted = r.counted;
          })
        ]

  sampled-Holds :
      (x : Fix reals) (payload : List ℕ) (elapsed : ℕ) (p sigma : Place reals)
      → is_collecting x.state ≡ true
      → Holds x
      → Holds (sampled reals x payload elapsed p sigma)
  unfolding sampled live_of
  sampled-Holds x payload elapsed p sigma c h =
      let a = add_sample-Sampled x p elapsed h.counted in
      let x1 = add_sample reals x p elapsed in
      let s = spread reals x1 p in
      complete_if-Holds (record x1 { live = live_of reals x1 payload sigma s.3 elapsed }) s elapsed
        (record {
          collecting = a.state ∙ not_done x c;
          waits = a.pending ∙ not_pending x h c;
          counted = a.counted;
          fewer = a.fewer;
          elapsed_ = refl;
          blocks = refl;
          stability_ = refl;
          place = refl;
        })

  sampled_if-Holds :
      (x : Fix reals) (payload : List ℕ) (elapsed : ℕ) (read : Option (Place reals × Place reals))
      → is_collecting x.state ≡ true
      → Holds x
      → Holds (sampled_if reals x payload elapsed read)
  unfolding sampled_if
  sampled_if-Holds x payload elapsed none c h = h
  sampled_if-Holds x payload elapsed (some (p, sigma)) c h =
      sampled-Holds x payload elapsed p sigma c h

  pub parse_best_position-Holds :
      (x : Fix reals) (now : ℕ) (line : List ℕ)
      → is_collecting x.state ≡ true
      → Holds x
      → Holds (parse_best_position reals x now line)
  unfolding parse_best_position behind_header take_payload
  parse_best_position-Holds x now line c h = elim (Option-cases (behind_semicolon line)) [
    | inl gone ↦ rw gone h
    | inr (rest, found) ↦ rw found (
        if_cases (λ t. Holds t) (is_computed (csv_field (without_checksum rest) 0)) _ _
          (λ e.
            sampled_if-Holds x (without_checksum rest) (elapsed_of reals x now)
              (read_place reals (without_checksum rest)) c h)
          (λ e. h))
  ]
