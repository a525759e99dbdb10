-- ===== src/Ntrip/Backoff.antt =====
-- `retry_delay_ms`: how long to wait after so many failures in a row. `random` is what `esp_random`
-- returns.
mod Tests
use gps_base_station.Prelude.{
  ℕ, ◌+◌, ◌-◌, ◌*◌, ◌%◌, ◌^◌, ◌≤◌, ◌<◌, min, ◌≡◌, ltb, leb, if◌then◌else◌, arith, inl, inr, ◌⊎◌,
  refl, ap, zero, suc,
}

abbrev pub k_base_retry_ms : ℕ
k_base_retry_ms = 10000

abbrev pub k_max_retry_ms : ℕ
k_max_retry_ms = 120000

abbrev pub k_long_backoff_threshold : ℕ
k_long_backoff_threshold = 8

abbrev pub k_long_backoff_ms : ℕ
k_long_backoff_ms = 600000

abbrev pub k_long_backoff_jitter_ms : ℕ
k_long_backoff_jitter_ms = 120000

-- `std::clamp`.
abbrev pub clamp : ℕ → ℕ → ℕ → ℕ
clamp x lo hi = if ltb x lo then lo else if ltb hi x then hi else x

-- `1 << (capped - 1)`, where `capped` is 1 to 4.
abbrev step_factor : ℕ → ℕ
step_factor capped = 2 ^ (capped - 1)

unfoldable pub base_delay : ℕ → ℕ
base_delay failures = min (k_base_retry_ms * step_factor (clamp failures 1 4)) k_max_retry_ms

unfoldable pub retry_delay_ms : ℕ → ℕ → ℕ
retry_delay_ms failures random =
    if leb k_long_backoff_threshold failures
    then k_long_backoff_ms + random % k_long_backoff_jitter_ms
    else min (base_delay failures + random % 5000) k_max_retry_ms

-- The four steps of the wait.
base_delay_steps :
    (failures : ℕ)
    → ((failures ≤ 1) × (base_delay failures ≡ 10000))
      ⊎ ((failures ≡ 2) × (base_delay failures ≡ 20000))
      ⊎ ((failures ≡ 3) × (base_delay failures ≡ 40000))
      ⊎ ((4 ≤ failures) × (base_delay failures ≡ 80000))
unfolding base_delay
base_delay_steps zero = inl (omega arith, refl)
base_delay_steps (suc zero) = inl (omega arith, refl)
base_delay_steps (suc (suc zero)) = inr (inl (refl, refl))
base_delay_steps (suc (suc (suc zero))) = inr (inr (inl (refl, refl)))
base_delay_steps (suc (suc (suc (suc n)))) =
    let top : clamp (suc (suc (suc (suc n)))) 1 4 ≡ 4 = ground arith in
    inr
      (inr (inr (omega arith, ap (λ k. min (k_base_retry_ms * step_factor k) k_max_retry_ms) top)))

-- Up to seven failures in a row the wait is 10 to 85 seconds; from the eighth on it is 10 to 12 minutes.
pub retry_delay_ms_bounds :
    (failures random : ℕ)
    → ((failures < 8)
        × (10000 ≤ retry_delay_ms failures random)
        × (retry_delay_ms failures random < 85000))
      ⊎ ((8 ≤ failures)
          × (600000 ≤ retry_delay_ms failures random)
          × (retry_delay_ms failures random < 720000))
unfolding retry_delay_ms
retry_delay_ms_bounds failures random = ground (arith, base_delay_steps failures)

-- One more failure never shortens the wait.
pub retry_delay_ms_mono :
    (failures more random : ℕ)
    → failures ≤ more
    → retry_delay_ms failures random ≤ retry_delay_ms more random
unfolding retry_delay_ms
retry_delay_ms_mono failures more random le =
    ground (arith, base_delay_steps failures, base_delay_steps more)
