-- ===== src/Time/Arithmetic.antt =====
-- Sums and differences of times against the arithmetic of microseconds.
use iperf.Base.{ℕ, ◌+◌, ◌-◌, ◌*◌, ◌<◌, ◌≤◌, ◌≡◌, true, false, ◌⊎◌, arith}
use iperf.Time.{IperfTime, IsNormal, add_usecs, in_usecs, time_diff}

-- Adding microseconds to a normal time adds them to what it stands for and leaves it normal, as long
-- as the sum's seconds fit in 32 bits.
pub in_usecs-add_usecs :
    (t : IperfTime) (us : ℕ)
    → IsNormal t
    → t.secs * 1000000 + t.usecs + us < 4294967296 * 1000000
    → (in_usecs (add_usecs t us) ≡ in_usecs t + us) × IsNormal (add_usecs t us)
unfolding in_usecs add_usecs
in_usecs-add_usecs t us n fits = ground arith

-- The difference of two normal times is normal and stands for the distance between them, and the flag
-- says that the first is not after the second.
pub time_diff_distance :
    (t1 t2 : IperfTime)
    → IsNormal t1
    → IsNormal t2
    → (in_usecs (time_diff t1 t2).0 ≡ (in_usecs t1 - in_usecs t2) + (in_usecs t2 - in_usecs t1))
      × IsNormal (time_diff t1 t2).0
      × (((time_diff t1 t2).1 ≡ true) ⊎ (in_usecs t2 < in_usecs t1))
      × (((time_diff t1 t2).1 ≡ false) ⊎ (in_usecs t1 ≤ in_usecs t2))
unfolding time_diff in_usecs
time_diff_distance t1 t2 n1 n2 = ground arith
