-- ===== src/Timer/Schedule.antt =====
-- What src/timer.c promises, without its lists: a schedule is a collection of timers in no order, from
-- which the earliest expiry can be asked.
use mathlib.Core.Quot
use mathlib.Core.Quot.{Quot, Quot-set}
use mathlib.Core.List.{Perm, foldr}
use mathlib.Core.List.Perm
use iperf.Base.{ℕ, ◌≡◌, Option, none, some, List, [], ◌∷◌, ltb, if◌then◌else◌, arith}
use iperf.Time.{in_usecs}
use iperf.Timer.{Timer}

abbrev pub Schedule : Type 0
Schedule = Quot (λ (l l' : List Timer). Perm l l')

abbrev pub of_list : List Timer → Schedule
of_list l = Quot.mk l

abbrev pub empty : Schedule
empty = of_list []

unfoldable pub put : Timer → Schedule → Schedule
put t = Quot.lift Quot-set (λ l. of_list (t ∷ l)) (λ l l' h. Quot.sound (Perm.cons t h))

-- In a schedule the order of two timers is an equation.
pub put_comm : (t u : Timer) (b : Schedule) → put t (put u b) ≡ put u (put t b)
unfolding put
put_comm t u = Quot.ind (λ b. Quot-set _ _) (λ l. Quot.sound (Perm.swap u t l))

abbrev pub sooner : ℕ → Option ℕ → Option ℕ
sooner u none = some u
sooner u (some v) = if ltb v u then some v else some u

abbrev pub soonest : List Timer → Option ℕ
soonest l = foldr (λ (t : Timer) o. sooner (in_usecs t.time) o) none l

pub sooner_comm : (u v : ℕ) (o : Option ℕ) → sooner u (sooner v o) ≡ sooner v (sooner u o)
sooner_comm u v none = ground arith
sooner_comm u v (some w) = ground arith

-- The earliest expiry, in microseconds; `none` of an empty schedule.
unfoldable pub earliest : Schedule → Option ℕ
earliest = Quot.lift (hlevel) soonest (λ l l' h.
    Perm.foldr-eq (hlevel) (λ (t : Timer) o. sooner (in_usecs t.time) o)
      (λ a b o. sooner_comm _ _ o) h none)
