-- ===== src/Tests/Timers.antt =====
-- src/timer.c with two timers, of which one is due.
use iperf.Base.{ℕ, ◌+◌, ◌∷◌, [], ◌++◌, ◌≡◌, refl, All, List, some, true, false, inl, arith}
use iperf.Time.{IperfTime, IsNormal, in_usecs, add_usecs}
use iperf.Timer.{Timer, Timers, list_add, tmr_create, tmr_timeout, tmr_run, find}
use iperf.Timer.Sorted.{IsSorted}
use iperf.Timer.Content.{upto, beyond, list_add_lem}
use iperf.Timer.Run.{quiet, expected, tmr_run_one_shot}
use iperf.Timer.Timeout.{tmr_timeout-earliest}
use iperf.Timer.Schedule.{earliest}
use iperf.Timer.Refinement.{reset, perform, Promises, schedule_of, perform-Promises}

abbrev timer_at : ℕ → ℕ → Timer
timer_at a s = record {
  id = a;
  timer_proc = a + 10;
  client_data = a + 20;
  usecs = 1000000;
  periodic = false;
  time = record { secs = s; usecs = 0 };
}

abbrev two : List Timer
two = timer_at 1 5 ∷ timer_at 2 8 ∷ []

abbrev two_timers : Timers
two_timers = record { timers = two; free_timers = 3 ∷ [] }

abbrev now : IperfTime
now = record { secs = 6; usecs = 500000 }

two-IsSorted : IsSorted two
two-IsSorted = ((inl (omega arith), tt), (tt, tt))

now-IsNormal : IsNormal now
now-IsNormal = record { secs_fit = omega arith; usecs_fit = omega arith }

-- A world that lists the callbacks.
abbrev logged : ℕ → ℕ → IperfTime → List ℕ → List ℕ
logged proc client at log = proc ∷ log

tmr_run_one_shot_example :
    tmr_run (quiet logged) 3 now two_timers [] ≡ expected logged now two (3 ∷ []) []
tmr_run_one_shot_example =
    tmr_run_one_shot logged 3 now two_timers [] (omega arith) two-IsSorted (refl, (refl, tt))

list_add_lem_example :
    list_add (timer_at 4 6) two
    ≡ upto (timer_at 4 6) two ++ (timer_at 4 6 ∷ beyond (timer_at 4 6) two)
list_add_lem_example = list_add_lem (timer_at 4 6) two two-IsSorted

two-IsNormal : All (λ (x : Timer). IsNormal x.time) two
two-IsNormal = (
  record { secs_fit = omega arith; usecs_fit = omega arith },
  (record { secs_fit = omega arith; usecs_fit = omega arith }, tt),
)

tmr_timeout-earliest_example : tmr_timeout now two ≡ some (0, 0)
unfolding earliest in_usecs
tmr_timeout-earliest_example = tmr_timeout-earliest now two now-IsNormal two-IsNormal two-IsSorted

perform-Promises_example :
    Promises
      (reset now (timer_at 1 5))
      (schedule_of two_timers)
      (schedule_of (perform (reset now (timer_at 1 5)) two_timers))
perform-Promises_example =
    perform-Promises (reset now (timer_at 1 5)) two_timers (unfold find in refl)

-- The timer that the next call of `tmr_create` makes: it takes the freed node.
abbrev created : Timer
created = record {
  id = 3;
  timer_proc = 7;
  client_data = 8;
  usecs = 600000;
  periodic = true;
  time = add_usecs now 600000;
}

abbrev with_created : Timers
with_created = record { timers = list_add created two; free_timers = [] }

creates : tmr_create (some 9) now 7 8 600000 true two_timers ≡ some (created, with_created)
unfolding tmr_create list_add
creates = refl
