-- ===== src/Timer/Run.antt =====
-- src/timer.c: what one call of `tmr_run` does to one-shot timers.
use iperf.Base.{
  ℕ, zero, suc, ◌<◌, some, Bool, true, false, ◌≡◌, refl, inl, inr, List, [], ◌∷◌, All, length,
  if◌then◌else◌, arith, Bool-cases,
}
use iperf.Time.{IperfTime, compare_time}
use iperf.Timer.{
  Timer, Timers, list_remove, tmr_cancel, expire, find, next_id, head_id, is_after, round, run_from,
  tmr_run, Outcome, finished, halt, more,
}
use iperf.Timer.Sorted.{NotLater, IsSorted}

-- Has the timer's time come, and what is left of a list, in its order.
abbrev pub is_due : IperfTime → Timer → Bool
is_due now t = if is_after (compare_time t.time now) then false else true

pub due : IperfTime → List Timer → List Timer
due now [] = []
due now (x ∷ xs) = if is_due now x then x ∷ due now xs else due now xs

pub pending : IperfTime → List Timer → List Timer
pending now [] = []
pending now (x ∷ xs) = if is_due now x then pending now xs else x ∷ pending now xs

-- In an ordered list nothing behind a timer that is not due is due.
after-due :
    (now a : IperfTime) (l : List Timer)
    → is_after (compare_time a now) ≡ true
    → All (λ (y : Timer). NotLater a y.time) l
    → (due now l ≡ []) × (pending now l ≡ l)
unfolding due pending compare_time
after-due now a [] h all = (refl, refl)
after-due now a (x ∷ xs) h all = ground (arith, after-due now a xs h all.1)

-- The nodes of a list put on the free list one by one, and their callbacks made in turn.
pub freed : List Timer → List ℕ → List ℕ
freed [] free = free
freed (x ∷ xs) free = freed xs (x.id ∷ free)

module _ {W : Type 0} (act : ℕ → ℕ → IperfTime → W → W) where
  -- A callback that leaves the timers alone.
  abbrev pub quiet : ℕ → ℕ → IperfTime → Timers → W → Timers × W
  quiet proc client now s w = (s, act proc client now w)

  pub run_all : IperfTime → List Timer → W → W
  run_all now [] w = w
  run_all now (x ∷ xs) w = run_all now xs (act x.timer_proc x.client_data now w)

  abbrev pub expected : IperfTime → List Timer → List ℕ → W → Outcome (Timers × W)
  expected now l free w = finished (
    record { timers = pending now l; free_timers = freed (due now l) free },
    run_all now (due now l) w,
  )

  -- One round at the head of the list.
  round_due :
      (now : IperfTime) (x : Timer) (xs : List Timer) (free : List ℕ) (w : W)
      → x.periodic ≡ false
      → is_after (compare_time x.time now) ≡ false
      → round quiet now (some x.id) (record { timers = x ∷ xs; free_timers = free }) w
        ≡ more
            (head_id xs)
            (record { timers = xs; free_timers = x.id ∷ free })
            (act x.timer_proc x.client_data now w)
  unfolding round find next_id expire tmr_cancel list_remove
  round_due now x xs free w p h = ground arith

  round_not_due :
      (now : IperfTime) (x : Timer) (xs : List Timer) (free : List ℕ) (w : W)
      → is_after (compare_time x.time now) ≡ true
      → round quiet now (some x.id) (record { timers = x ∷ xs; free_timers = free }) w
        ≡ halt (finished (record { timers = x ∷ xs; free_timers = free }, w))
  unfolding round find next_id
  round_not_due now x xs free w h = ground arith

  run_from_one_shot :
      (fuel : ℕ) (now : IperfTime) (l : List Timer) (free : List ℕ) (w : W)
      → length l < fuel
      → IsSorted l
      → All (λ (t : Timer). t.periodic ≡ false) l
      → run_from quiet fuel now (head_id l) (record { timers = l; free_timers = free }) w
        ≡ expected now l free w
  unfolding run_from due pending freed run_all
  run_from_one_shot zero now l free w e s one = absurd (omega arith)
  run_from_one_shot (suc fuel) now [] free w e s one = unfold round in refl
  run_from_one_shot (suc fuel) now (x ∷ xs) free w e s one =
      elim (Bool-cases (is_after (compare_time x.time now))) [
        | inl h ↦
            rw (round_not_due now x xs free w h, run_from)
              (ground (arith, after-due now x.time xs h s.0))
        | inr h ↦
            rw (round_due now x xs free w one.0 h, run_from)
              (rw h (run_from_one_shot fuel now xs (x.id ∷ free) _ (omega arith) s.1 one.1))
      ]

  -- `tmr_run` on an ordered list of one-shot timers whose callbacks leave the timers alone ends
  -- within a round for each timer and one more, calls back the due ones in order, frees exactly
  -- those, and leaves exactly the ones that are not due.
  pub tmr_run_one_shot :
      (fuel : ℕ) (now : IperfTime) (s : Timers) (w : W)
      → length s.timers < fuel
      → IsSorted s.timers
      → All (λ (t : Timer). t.periodic ≡ false) s.timers
      → tmr_run quiet fuel now s w ≡ expected now s.timers s.free_timers w
  unfolding tmr_run
  tmr_run_one_shot fuel now s w e o one =
      run_from_one_shot fuel now s.timers s.free_timers w e o one
