-- ===== src/Timer/Sorted.antt =====
-- src/timer.c: the active list is in order of expiry.
use iperf.Base.{ℕ, ◌<◌, ◌≤◌, Bool, ◌≡◌, ◌⊎◌, Option, some, List, [], ◌∷◌, All, arith}
use iperf.Time.{IperfTime, compare_time}
use iperf.Timer.{
  Timer, Timers, walk, list_add, list_remove, list_resort, tmr_create, tmr_cancel, tmr_reset,
  Outcome, finished, stale, out_of_fuel, Round, halt, more,
}

-- `a` is not later than `b`.
abbrev pub NotLater : IperfTime → IperfTime → Type 0
NotLater a b = (a.secs < b.secs) ⊎ ((a.secs ≡ b.secs) × (a.usecs ≤ b.usecs))

abbrev pub IsSorted : List Timer → Type 0
IsSorted [] = Unit {0}
IsSorted (x ∷ xs) = All (λ (y : Timer). NotLater x.time y.time) xs × IsSorted xs

-- A bound carries over to what is bounded by it.
All-NotLater-trans :
    (a b : IperfTime) (l : List Timer)
    → NotLater a b
    → All (λ (y : Timer). NotLater b y.time) l
    → All (λ (y : Timer). NotLater a y.time) l
All-NotLater-trans a b [] h all = tt
All-NotLater-trans a b (x ∷ xs) h all = (ground arith, All-NotLater-trans a b xs h all.1)

All-walk : (P : Timer → Type 0) (t : Timer) (l : List Timer) → P t → All P l → All P (walk t l)
unfolding walk
All-walk P t [] p all = (p, tt)
All-walk P t (x ∷ xs) p all = ground (arith, All-walk P t xs p all.1)

walk-IsSorted : (t : Timer) (l : List Timer) → IsSorted l → IsSorted (walk t l)
unfolding walk compare_time
walk-IsSorted t [] s = (tt, tt)
walk-IsSorted t (x ∷ xs) s = ground (
  arith,
  All-NotLater-trans t.time x.time xs,
  All-walk (λ (y : Timer). NotLater x.time y.time) t xs,
  walk-IsSorted t xs s.1,
)

pub list_add-IsSorted : (t : Timer) (l : List Timer) → IsSorted l → IsSorted (list_add t l)
unfolding list_add walk compare_time
list_add-IsSorted t [] s = (tt, tt)
list_add-IsSorted t (x ∷ xs) s = walk-IsSorted t (x ∷ xs) s

All-list_remove : (P : Timer → Type 0) (a : ℕ) (l : List Timer) → All P l → All P (list_remove a l)
unfolding list_remove
All-list_remove P a [] all = tt
All-list_remove P a (x ∷ xs) all = ground (arith, All-list_remove P a xs all.1)

pub list_remove-IsSorted : (a : ℕ) (l : List Timer) → IsSorted l → IsSorted (list_remove a l)
unfolding list_remove
list_remove-IsSorted a [] s = tt
list_remove-IsSorted a (x ∷ xs) s = ground (
  arith,
  All-list_remove (λ (y : Timer). NotLater x.time y.time) a xs s.0,
  list_remove-IsSorted a xs s.1,
)

pub list_resort-IsSorted : (t : Timer) (l : List Timer) → IsSorted l → IsSorted (list_resort t l)
unfolding list_resort
list_resort-IsSorted t l s =
    list_add-IsSorted t (list_remove t.id l) (list_remove-IsSorted t.id l s)

-- A new timer keeps the list in order, whatever malloc gives.
pub tmr_create-IsSorted :
    (fresh : Option ℕ) (now : IperfTime) (proc client usecs : ℕ) (periodic : Bool) (s : Timers)
    (t : Timer) (s' : Timers)
    → IsSorted s.timers
    → tmr_create fresh now proc client usecs periodic s ≡ some (t, s')
    → IsSorted s'.timers
unfolding tmr_create
tmr_create-IsSorted fresh now proc client usecs periodic s t s' h e =
    ground (arith, list_add-IsSorted t s.timers h)

pub tmr_reset-IsSorted :
    (now : IperfTime) (t : Timer) (s : Timers)
    → IsSorted s.timers
    → IsSorted (tmr_reset now t s).timers
unfolding tmr_reset
tmr_reset-IsSorted now t s h = list_resort-IsSorted _ s.timers h

pub tmr_cancel-IsSorted :
    (t : Timer) (s : Timers) → IsSorted s.timers → IsSorted (tmr_cancel t s).timers
unfolding tmr_cancel
tmr_cancel-IsSorted t s h = list_remove-IsSorted t.id s.timers h

-- What a callback may do to the timers: any operation of the timer module keeps the list in order.
abbrev pub KeepsSorted : {W : Type 0} → (ℕ → ℕ → IperfTime → Timers → W → Timers × W) → Type 0
KeepsSorted {W} call =
    (proc client : ℕ) (now : IperfTime) (s : Timers) (w : W)
    → IsSorted s.timers
    → IsSorted (call proc client now s w).0.timers

-- The state that a run has come to satisfies `P`, also where it meets a node off the list or is still going on.
abbrev pub Ensures : {W : Type 0} → (Timers → Type 0) → Outcome (Timers × W) → Type 0
Ensures P (finished (s, w)) = P s
Ensures P (stale (s, w)) = P s
Ensures P (out_of_fuel (s, w)) = P s

abbrev Leaves : {W : Type 0} → (Timers → Type 0) → Round W → Type 0
Leaves P (halt o) = Ensures P o
Leaves P (more p s w) = P s

abbrev pub Ordered : Timers → Type 0
Ordered s = IsSorted s.timers
