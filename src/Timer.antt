-- ===== src/Timer.antt =====
-- src/timer.c and src/timer.h: the active list in order of expiry and the free list. A list stands for
-- the doubly linked one, from its head, and `id` for a node's address. `hash` has no use in the source.
use iperf.Base.{
  ℕ, zero, suc, ◌+◌, ◌/◌, ◌%◌, ◌==◌, Bool, true, false, Option, none, some, List, [], ◌∷◌,
  if◌then◌else◌,
}
use iperf.Time.{
  IperfTime, Comparison, before, after, same, compare_time, add_usecs, in_usecs, time_diff,
}
pub mod Sorted
pub mod Content
pub mod Run
pub mod Timeout
pub mod Cancel
pub mod Schedule
pub mod Refinement

-- `timer_proc` and `client_data` are names: what they do is an argument of `tmr_run`.
pub record Timer : Type 0 where
  pub id : ℕ
  pub timer_proc : ℕ
  pub client_data : ℕ
  pub usecs : ℕ
  pub periodic : Bool
  pub time : IperfTime

-- The two global lists.
pub record Timers : Type 0 where
  pub timers : List Timer
  pub free_timers : List ℕ

abbrev pub is_before : Comparison → Bool
is_before before = true
is_before _ = false

abbrev pub is_after : Comparison → Bool
is_after after = true
is_after _ = false

-- The walk from the second node on: in front of the first timer that expires later.
pub walk : Timer → List Timer → List Timer
walk t [] = t ∷ []
walk t (x ∷ xs) = if is_before (compare_time t.time x.time) then t ∷ x ∷ xs else x ∷ walk t xs

unfoldable pub list_add : Timer → List Timer → List Timer
unfolding walk
list_add t [] = t ∷ []
list_add t (x ∷ xs) = if is_before (compare_time t.time x.time) then t ∷ x ∷ xs else x ∷ walk t xs

pub list_remove : ℕ → List Timer → List Timer
list_remove a [] = []
list_remove a (x ∷ xs) = if x.id == a then xs else x ∷ list_remove a xs

-- `t` is the node with its new contents; the old one leaves the list.
pub list_resort : Timer → List Timer → List Timer
list_resort t l = list_add t (list_remove t.id l)

-- `fresh` is what malloc returns, and is looked at only if the free list is empty.
unfoldable pub new_node : Option ℕ → List ℕ → Option (ℕ × List ℕ)
new_node none [] = none
new_node (some a) [] = some (a, [])
new_node _ (a ∷ rest) = some (a, rest)

schedule : ℕ → IperfTime → ℕ → ℕ → ℕ → Bool → Timer
schedule a now proc client usecs periodic = record {
  id = a;
  timer_proc = proc;
  client_data = client;
  usecs = usecs;
  periodic = periodic;
  time = add_usecs now usecs;
}

-- `none` is the NULL that a failed malloc gives.
unfoldable pub tmr_create :
    Option ℕ → IperfTime → ℕ → ℕ → ℕ → Bool → Timers → Option (Timer × Timers)
unfolding new_node schedule
tmr_create fresh now proc client usecs periodic s = elim (new_node fresh s.free_timers) [
  | none ↦ none
  | some (a, rest) ↦
      let t = schedule a now proc client usecs periodic in
      some (t, record { timers = list_add t s.timers; free_timers = rest })
]

-- The wait in microseconds before it is split into a timeval.
pub timeout_usecs : IperfTime → Timer → ℕ
timeout_usecs now t = let (d, past) = time_diff t.time now in if past then 0 else in_usecs d

-- `none` is NULL; otherwise `tv_sec` and `tv_usec`.
pub tmr_timeout : IperfTime → List Timer → Option (ℕ × ℕ)
unfolding timeout_usecs
tmr_timeout now [] = none
tmr_timeout now (t ∷ _) = let usecs = timeout_usecs now t in some (usecs / 1000000, usecs % 1000000)

unfoldable pub tmr_cancel : Timer → Timers → Timers
tmr_cancel t s = record { timers = list_remove t.id s.timers; free_timers = t.id ∷ s.free_timers }

pub tmr_reset : IperfTime → Timer → Timers → Timers
unfolding list_resort
tmr_reset now t s = record s {
  timers = list_resort (record t { time = add_usecs now t.usecs }) s.timers;
}

unfoldable pub find : ℕ → List Timer → Option Timer
find a [] = none
find a (x ∷ xs) = if x.id == a then some x else find a xs

-- The address in the node's `next`.
abbrev pub head_id : List Timer → Option ℕ
head_id [] = none
head_id (x ∷ _) = some x.id

pub next_id : ℕ → List Timer → Option ℕ
next_id a [] = none
next_id a (x ∷ xs) = if x.id == a then head_id xs else next_id a xs

pub tmr_cleanup : Timers → Timers
tmr_cleanup s = record s { free_timers = [] }

-- `while ( timers != NULL ) tmr_cancel( timers );`, the list counting the rounds.
pub cancel_all : List Timer → List ℕ → Timers
cancel_all [] free = record { timers = []; free_timers = free }
cancel_all (t ∷ ts) free = cancel_all ts (t.id ∷ free)

pub tmr_destroy : Timers → Timers
unfolding cancel_all tmr_cleanup
tmr_destroy s = tmr_cleanup (cancel_all s.timers s.free_timers)

-- A run of `tmr_run`: `stale` is a node that a callback took off the list under the loop's
-- feet. Each carries the state that the run has come to.
pub data Outcome (A : Type 0) : Type 0 where
  finished : A → Outcome A
  stale : A → Outcome A
  out_of_fuel : A → Outcome A

-- After the callback of a due timer: a new term or the free list. `t` is the node as the callback left
-- it.
pub expire : Timer → Timers → Timers
unfolding list_resort tmr_cancel
expire t s =
    if t.periodic
    then record s { timers = list_resort (record t { time = add_usecs t.time t.usecs }) s.timers }
    else tmr_cancel t s

-- A round of the loop of `tmr_run` ends it or leaves the saved `next` for the next round.
pub data Round (W : Type 0) : Type 0 where
  halt : Outcome (Timers × W) → Round W
  more : Option ℕ → Timers → W → Round W

-- `call` is what the callbacks do, to the timers and to the rest `W` of the program's state.
module _ {W : Type 0} (call : ℕ → ℕ → IperfTime → Timers → W → Timers × W) where
  resume : Option ℕ → Option Timer → Timers → W → Round W
  unfolding expire
  resume next none s w = halt (stale (s, w))
  resume next (some t) s w = more next (expire t s) w

  visit : IperfTime → Option ℕ → Option Timer → Timers → W → Round W
  unfolding resume
  visit now next none s w = halt (stale (s, w))
  visit now next (some t) s w =
      if is_after (compare_time t.time now)
      then halt (finished (s, w))
      else let (s', w') = call t.timer_proc t.client_data now s w in
        resume next (find t.id s'.timers) s' w'

  pub round : IperfTime → Option ℕ → Timers → W → Round W
  unfolding visit
  round now none s w = halt (finished (s, w))
  round now (some a) s w = visit now (next_id a s.timers) (find a s.timers) s w

  pub run_from : ℕ → IperfTime → Option ℕ → Timers → W → Outcome (Timers × W)
  run_from zero now p s w = out_of_fuel (s, w)
  run_from (suc fuel) now p s w = elim (round now p s w) [
    | halt o ↦ o
    | more next s' w' ↦ run_from fuel now next s' w'
  ]

  pub tmr_run : ℕ → IperfTime → Timers → W → Outcome (Timers × W)
  unfolding run_from round
  tmr_run fuel now s w = run_from fuel now (head_id s.timers) s w
