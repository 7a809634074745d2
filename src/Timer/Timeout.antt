-- ===== src/Timer/Timeout.antt =====
-- src/timer.c: `tmr_timeout` asks the schedule for its earliest expiry, though it looks at one timer only.
use mathlib.Core.Option
use iperf.Base.{ℕ, ◌≤◌, ◌-◌, ◌/◌, ◌%◌, ◌≡◌, refl, ap, ◌∙◌, sym, some, List, [], ◌∷◌, All, arith}
use iperf.Time.{IperfTime, IsNormal, in_usecs}
use iperf.Timer.{Timer, tmr_timeout, timeout_usecs}
use iperf.Timer.Sorted.{NotLater, IsSorted}
use iperf.Time.Arithmetic.{time_diff_distance}
use iperf.Timer.Schedule.{of_list, earliest, soonest, sooner, sooner_comm}

timeout_usecs_lem :
    (now : IperfTime) (t : Timer)
    → IsNormal now
    → IsNormal t.time
    → timeout_usecs now t ≡ in_usecs t.time - in_usecs now
unfolding timeout_usecs
timeout_usecs_lem now t n m = ground (arith, time_diff_distance t.time now m n)

NotLater-in_usecs :
    (a b : IperfTime) → IsNormal a → IsNormal b → NotLater a b → in_usecs a ≤ in_usecs b
unfolding in_usecs
NotLater-in_usecs a b n m h = ground arith

-- The timeval from `now` to a time in microseconds, 0 if that is past.
abbrev pub wait_until : IperfTime → ℕ → ℕ × ℕ
wait_until now usecs = ((usecs - in_usecs now) / 1000000, (usecs - in_usecs now) % 1000000)

sooner-soonest :
    (u : ℕ) (l : List Timer)
    → All (λ (y : Timer). u ≤ in_usecs y.time) l
    → sooner u (soonest l) ≡ some u
sooner-soonest u [] h = refl
sooner-soonest u (x ∷ xs) h =
    sooner_comm u (in_usecs x.time) (soonest xs)
    ∙ ap (sooner (in_usecs x.time)) (sooner-soonest u xs h.1)
    ∙ (ground (arith, h.0))

All-in_usecs :
    (a : IperfTime) (l : List Timer)
    → IsNormal a
    → All (λ (y : Timer). IsNormal y.time) l
    → All (λ (y : Timer). NotLater a y.time) l
    → All (λ (y : Timer). in_usecs a ≤ in_usecs y.time) l
All-in_usecs a [] n m h = tt
All-in_usecs a (x ∷ xs) n m h = (NotLater-in_usecs a x.time n m.0 h.0, All-in_usecs a xs n m.1 h.1)

-- On an ordered list of timers with normal times, `tmr_timeout` is the time from now to the earliest expiry of
-- the schedule, 0 if that is past, and NULL if there is no timer: whatever the order of timers of the same time.
pub tmr_timeout-earliest :
    (now : IperfTime) (l : List Timer)
    → IsNormal now
    → All (λ (x : Timer). IsNormal x.time) l
    → IsSorted l
    → tmr_timeout now l ≡ Option.map (wait_until now) (earliest (of_list l))
unfolding tmr_timeout earliest
tmr_timeout-earliest now [] n m s = refl
tmr_timeout-earliest now (t ∷ l) n m s =
    ap (λ usecs. some (usecs / 1000000, usecs % 1000000)) (timeout_usecs_lem now t n m.0)
    ∙ sym (
        ap (Option.map (wait_until now))
          (sooner-soonest (in_usecs t.time) l (All-in_usecs t.time l m.0 m.1 s.0)))
