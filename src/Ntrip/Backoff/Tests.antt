-- ===== src/Ntrip/Backoff/Tests.antt =====
-- Waits of the push client.
use gps_base_station.Prelude.{◌≡◌, refl}
use gps_base_station.Ntrip.Backoff.{base_delay, retry_delay_ms}

third : retry_delay_ms 3 4999 ≡ 44999
unfolding retry_delay_ms base_delay
third = refl

tenth : retry_delay_ms 10 250000 ≡ 610000
unfolding retry_delay_ms base_delay
tenth = refl
