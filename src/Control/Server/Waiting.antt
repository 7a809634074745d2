-- ===== src/Control/Server/Waiting.antt =====
-- src/iperf_server_api.c, `iperf_run_server`: how long a round of the main loop waits in select(2), and what
-- it makes of a wait that ended with nothing to read.
use iperf.Base.{
  ℕ, ◌+◌, ◌-◌, ◌*◌, ◌≤◌, ◌<◌, ◌≡◌, ◌↔◌, Bool, true, false, ◌&&◌, not, Option, none, some,
  if◌then◌else◌, ltb, leb, ◌==◌, arith,
}
use iperf.State.{State, iperf_start}
use iperf.Test.{Mode, sender}
use iperf.Time.Arithmetic.{time_diff_distance}
use iperf.Time.{IperfTime, IsNormal, time_diff, in_usecs}

-- The settings of the server's timeouts; `idle_timeout` is in seconds, 0 for none.
pub record Timeouts : Type 0 where
  pub idle_timeout : ℕ
  pub rcv_timeout : IperfTime

abbrev pub is_idle : State → Bool
is_idle iperf_start = true
is_idle _ = false

abbrev pub is_sender : Mode → Bool
is_sender sender = true
is_sender _ = false

-- `rcv_timeout_us`, an int64_t.
abbrev pub rcv_timeout_us : Timeouts → ℕ
rcv_timeout_us t = t.rcv_timeout.secs * 1000000 + t.rcv_timeout.usecs

-- A timeval in microseconds.
abbrev pub tv_usecs : ℕ × ℕ → ℕ
tv_usecs (s, u) = s * 1000000 + u

abbrev pub rcv_timeval : Timeouts → ℕ × ℕ
rcv_timeval t = (t.rcv_timeout.secs, t.rcv_timeout.usecs)

-- `timeout_us` after it is capped at a second.
abbrev pub capped : ℕ → ℕ
capped us = if ltb 1000000 us then 1000000 else us

-- The wait of a test that receives: `used_timeout` is what the timers gave, or the receive timeout.
pub active_timeout : Timeouts → Option (ℕ × ℕ) → ℕ × ℕ
active_timeout t none = rcv_timeval t
active_timeout t (some tv) =
    if ltb (rcv_timeout_us t) (capped (tv_usecs tv)) then rcv_timeval t else tv

-- The timeout of the select; `none` waits for ever. `timers` is what `tmr_timeout` gives.
unfoldable pub select_timeout : State → Mode → Timeouts → Option (ℕ × ℕ) → Option (ℕ × ℕ)
unfolding active_timeout
select_timeout state mode t timers =
    if is_idle state
    then elim timers [
      | some tv ↦ some tv
      | none ↦ if ltb 0 t.idle_timeout then some (t.idle_timeout, 0) else none
    ]
    else if is_sender mode
    then timers
    else some (active_timeout t timers)

-- What a round does when the select timed out: a restart of an idle server returns 2, a test that receives
-- nothing fails with IENOMSG.
pub data Verdict : Type 0 where
  go_on idle_restart no_message : Verdict

-- `last` is the time of the last receive, `blocks` and `last_blocks` the blocks received now and then.
unfoldable pub check_progress : State → Mode → Timeouts → IperfTime → IperfTime → ℕ → ℕ → Verdict
check_progress state mode t now last blocks last_blocks =
    let (d, past) = time_diff now last in
    let t_usecs = in_usecs d in
    if past
    then go_on
    else if is_idle state
    then if ltb 0 t.idle_timeout && leb (t.idle_timeout * 1000000) t_usecs
      then idle_restart
      else go_on
    else if not (is_sender mode) && ltb (rcv_timeout_us t) t_usecs && blocks == last_blocks
    then no_message
    else go_on

ltb-capped : (r us : ℕ) → ltb r (capped us) ≡ (ltb r 1000000 && ltb r us)
ltb-capped r us = ground arith

-- The wait of a running test that receives is the time to the next timer, however long; only a receive
-- timeout below a second shortens it, and without timers the wait is the receive timeout.
pub select_timeout_active :
    (state : State) (mode : Mode) (t : Timeouts) (timers : Option (ℕ × ℕ))
    → is_idle state ≡ false
    → is_sender mode ≡ false
    → select_timeout state mode t timers
      ≡ some (elim timers [
        | none ↦ rcv_timeval t
        | some tv ↦
            if ltb (rcv_timeout_us t) 1000000 && ltb (rcv_timeout_us t) (tv_usecs tv)
            then rcv_timeval t
            else tv
      ])
unfolding select_timeout active_timeout
select_timeout_active state mode t none i m = rw (i, m)
select_timeout_active state mode t (some tv) i m =
    rw (i, m, ltb-capped (rcv_timeout_us t) (tv_usecs tv))

-- After a wait in vain at normal times, an idle server restarts exactly if it has an idle timeout and that has
-- passed since the last receive, and a running test fails exactly if it receives, the receive timeout has
-- passed and no block has come.
pub check_progress_lem :
    (state : State) (mode : Mode) (t : Timeouts) (now last : IperfTime) (blocks last_blocks : ℕ)
    → IsNormal now
    → IsNormal last
    → let elapsed = in_usecs now - in_usecs last in
      let verdict = check_progress state mode t now last blocks last_blocks in
      ((verdict ≡ idle_restart)
        ↔ ((is_idle state ≡ true) × (0 < t.idle_timeout) × (t.idle_timeout * 1000000 ≤ elapsed)))
      × ((verdict ≡ no_message) ↔ (
          (is_idle state ≡ false)
          × (is_sender mode ≡ false)
          × (rcv_timeout_us t < elapsed)
          × (blocks ≡ last_blocks)))
unfolding check_progress
check_progress_lem state mode t now last blocks last_blocks n m =
    ground (arith, time_diff_distance now last n m)
