-- ===== src/Time.antt =====
-- src/iperf_time.c, the arithmetic of `struct iperf_time`: seconds and microseconds, uint32_t each.
use iperf.Base.{
  ℕ, ◌+◌, ◌-◌, ◌*◌, ◌/◌, ◌%◌, ◌<◌, Bool, true, false, ◌&&◌, ltb, ◌==◌, if◌then◌else◌, u32, u64,
  sub32,
}
pub mod Order
pub mod Arithmetic

pub record IperfTime : Type 0 where
  pub secs : ℕ
  pub usecs : ℕ

-- What `iperf_time_compare` returns: -1, 0 or 1.
pub data Comparison : Type 0 where
  before same after : Comparison

-- `total_usecs` is a uint64_t, and `secs` a uint32_t.
unfoldable pub add_usecs : IperfTime → ℕ → IperfTime
add_usecs t us =
    let total = u64 (t.usecs + us) in
    record { secs = u32 (t.secs + total / 1000000); usecs = total % 1000000 }

unfoldable pub in_usecs : IperfTime → ℕ
in_usecs t = u64 (t.secs * 1000000 + t.usecs)

unfoldable pub compare_time : IperfTime → IperfTime → Comparison
compare_time t1 t2 =
    if ltb t1.secs t2.secs
    then before
    else if ltb t2.secs t1.secs
    then after
    else if ltb t1.usecs t2.usecs
    then before
    else if ltb t2.usecs t1.usecs
    then after
    else same

-- The subtraction of one branch of `iperf_time_diff`: `late` is not before `early`.
borrow : IperfTime → IperfTime → IperfTime
borrow late early =
    if ltb late.usecs early.usecs
    then record {
      secs = sub32 (sub32 late.secs early.secs) 1;
      usecs = sub32 (u32 (late.usecs + 1000000)) early.usecs;
    }
    else record { secs = sub32 late.secs early.secs; usecs = sub32 late.usecs early.usecs }

-- The result is `*diff` and the flag `past`.
unfoldable pub diff_by : Comparison → IperfTime → IperfTime → IperfTime × Bool
unfolding borrow
diff_by same t1 t2 = (record { secs = 0; usecs = 0 }, true)
diff_by after t1 t2 = (borrow t1 t2, false)
diff_by before t1 t2 = (borrow t2 t1, true)

unfoldable pub time_diff : IperfTime → IperfTime → IperfTime × Bool
unfolding compare_time diff_by
time_diff t1 t2 = diff_by (compare_time t1 t2) t1 t2

-- A time as the clock gives it: fewer than a million microseconds, seconds within a word.
pub record IsNormal (t : IperfTime) : Type 0 where
  pub secs_fit : t.secs < 4294967296
  pub usecs_fit : t.usecs < 1000000
