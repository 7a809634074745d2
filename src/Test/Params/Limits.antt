-- ===== src/Test/Params/Limits.antt =====
-- src/iperf_api.c: the server's limit on the duration of a test, at the end of `get_parameters`.
use iperf.Base.{ℕ, suc, ◌+◌, ◌<◌, ◌≤◌, ◌≡◌, ◌↔◌, ◌⊎◌, false, some, ltb, ◌==◌, ◌||◌, arith}
use iperf.Base.Int.{pos, to_int, ◌+ℤ◌}
use iperf.Json.{Object}
use iperf.Test.{Test, Build}
use iperf.Test.Params.{max_server_duration_exceeded, exceeds_max_duration, get_parameters}

-- The test by the numbers.
exceeds_lem :
    (t : Test) (limit d o : ℕ)
    → t.max_server_duration ≡ pos (suc limit)
    → t.duration ≡ pos d
    → t.omit ≡ pos o
    → d + o < 2147483648
    → exceeds_max_duration t ≡ (ltb (suc limit) (d + o) || d == 0)
unfolding exceeds_max_duration to_int ◌+ℤ◌
exceeds_lem t limit d o l e f h = ground arith

-- Under a limit, and where the two times add up to an int, the parameters are refused for their duration
-- exactly if the test is to last longer than the limit or for ever.
pub get_parameters_refuses :
    (b : Build) (j : Object) (s : Test) (limit d o : ℕ)
    → (get_parameters b (some j) s).0.max_server_duration ≡ pos (suc limit)
    → (get_parameters b (some j) s).0.duration ≡ pos d
    → (get_parameters b (some j) s).0.omit ≡ pos o
    → d + o < 2147483648
    → ((get_parameters b (some j) s).1 ≡ some max_server_duration_exceeded)
      ↔ ((suc limit < d + o) ⊎ (d ≡ 0))
unfolding get_parameters
get_parameters_refuses b j s limit d o l e f h =
    ground (arith, exceeds_lem (get_parameters b (some j) s).0 limit d o l e f h)

-- Where the sum of a positive duration and the omitted time leaves the range of an int, the limit does
-- not refuse it, whatever the limit is.
pub exceeds_max_duration_wraps :
    (t : Test) (limit d o : ℕ)
    → t.max_server_duration ≡ pos limit
    → t.duration ≡ pos d
    → t.omit ≡ pos o
    → 0 < d
    → 2147483648 ≤ d + o
    → d + o < 4294967296
    → exceeds_max_duration t ≡ false
unfolding exceeds_max_duration to_int ◌+ℤ◌
exceeds_max_duration_wraps t limit d o l e f p h k = ground arith
