-- ===== src/Time/Order.antt =====
-- `iperf_time_compare` against the order of the microseconds.
use iperf.Base.{ℕ, ◌<◌, ◌≡◌, arith}
use iperf.Time.{IperfTime, IsNormal, Comparison, before, same, after, in_usecs, compare_time}

-- What a comparison says of two numbers.
abbrev pub Orders : Comparison → ℕ → ℕ → Type 0
Orders before a b = a < b
Orders same a b = a ≡ b
Orders after a b = b < a

-- On normal times the comparison is that of the microseconds they stand for.
pub compare_time-in_usecs :
    (t1 t2 : IperfTime)
    → IsNormal t1
    → IsNormal t2
    → Orders (compare_time t1 t2) (in_usecs t1) (in_usecs t2)
unfolding compare_time in_usecs
compare_time-in_usecs t1 t2 n1 n2 = ground arith
