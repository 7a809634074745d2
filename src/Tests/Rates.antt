-- ===== src/Tests/Rates.antt =====
-- The check of the total rate, src/iperf_api.c, on concrete intervals.
use iperf.Base.{ℕ, ◌≡◌, false, some, List, [], ◌∷◌, ◌/◌, arith}
use iperf.RateLimit.{RateLimit}
use iperf.RateLimit.Average.{fresh, ever_too_fast, check_all, check_all_exceeded}

-- Five intervals of a second, and a limit over the average of three.
abbrev per_three_seconds : ℕ → ℕ
per_three_seconds bits = bits / 3

abbrev traffic_bytes : List ℕ
traffic_bytes = 100 ∷ 200 ∷ 300 ∷ 5000 ∷ 100 ∷ []

check_all_exceeded_example :
    (r : RateLimit) × (check_all per_three_seconds traffic_bytes (fresh 8000 3) ≡ some r)
    × (r.exceeded ≡ ever_too_fast per_three_seconds 8000 3 traffic_bytes [] false)
check_all_exceeded_example =
    check_all_exceeded per_three_seconds 8000 3 traffic_bytes (omega arith) (omega arith)
      (omega arith) (omega arith)

-- The last entry of the array has been written, and a hundred intervals are to be averaged.
abbrev at_the_end : RateLimit
at_the_end = record (fresh 8000 100) { last_interval_index = 59; stats_count = 59 }
