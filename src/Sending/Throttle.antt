-- ===== src/Sending/Throttle.antt =====
-- When a stream that is held to a rate may send.
use iperf.Base.{ℕ, ◌*◌, ◌<◌, ◌≡◌, false, ◌||◌, ◌&&◌, ltb, u64, arith}
use iperf.Time.{IperfTime}
use iperf.Sending.{Sender, StreamIo, check_throttle, throttle, wait_for_light, time_to_green_light}

module _ {W : Type 0} (io : StreamIo W) where
  -- The average rate of the stream at a time.
  abbrev pub average_rate : Sender → IperfTime → ℕ
  average_rate s seconds = io.bits_per_second (u64 (s.stream_bytes_sent * 8)) seconds

  -- `iperf_check_throttle` on a test that is not done and has a rate, for rates below 2^63: a stream below
  -- the rate gets the green light, one at the rate does not, and one above it gets it exactly if there is
  -- a time to wait for and the sleep comes to its end; the counters stay.
  pub check_throttle_light :
      (s : Sender) (w : W)
      → s.done ≡ false
      → 0 < s.rate
      → s.rate < 9223372036854775808
      → average_rate s (io.elapsed w).0 < 9223372036854775808
      → let seconds = (io.elapsed w).0 in
        let ns = time_to_green_light io (u64 (s.stream_bytes_sent * 8)) seconds s.rate in
        (check_throttle io (s, w)).0 ≡ record s {
          green_light =
              ltb (average_rate s seconds) s.rate
              || (ltb s.rate (average_rate s seconds)
                  && (ltb ns 9223372036854775808 && (io.sleep ns (io.elapsed w).1).0));
        }
  unfolding check_throttle throttle wait_for_light
  check_throttle_light s w d p small small' = ground arith
