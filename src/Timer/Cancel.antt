-- ===== src/Timer/Cancel.antt =====
-- src/timer.c: `tmr_cancel` undoes `tmr_create`.
use iperf.Base.{ℕ, ◌≡◌, ◌≢◌, Bool, Option, some, List, [], ◌∷◌, All, arith}
use iperf.Time.{IperfTime}
use iperf.Timer.{Timer, Timers, walk, list_add, list_remove, tmr_create, tmr_cancel, new_node}

abbrev pub Absent : ℕ → List Timer → Type 0
Absent a = All λ (x : Timer). x.id ≢ a

list_remove-walk : (t : Timer) (l : List Timer) → Absent t.id l → list_remove t.id (walk t l) ≡ l
unfolding list_remove walk
list_remove-walk t [] h = ground arith
list_remove-walk t (x ∷ xs) h = ground (arith, list_remove-walk t xs h.1)

list_remove-list_add :
    (t : Timer) (l : List Timer) → Absent t.id l → list_remove t.id (list_add t l) ≡ l
unfolding list_add
list_remove-list_add t [] h = list_remove-walk t [] h
list_remove-list_add t (x ∷ xs) h = list_remove-walk t (x ∷ xs) h

-- Creating a timer, on a node that is not on the list, and cancelling it leaves the active list as
-- it was, and the node that was used, an old one where there is any and else the one from malloc,
-- on top of the free list.
pub tmr_cancel-tmr_create :
    (fresh : Option ℕ) (now : IperfTime) (proc client usecs : ℕ) (periodic : Bool) (s : Timers)
    (t : Timer) (s' : Timers)
    → tmr_create fresh now proc client usecs periodic s ≡ some (t, s')
    → Absent t.id s.timers
    → ((tmr_cancel t s').timers ≡ s.timers)
      × ((tmr_cancel t s').free_timers ≡ t.id ∷ s'.free_timers)
      × (new_node fresh s.free_timers ≡ some (t.id, s'.free_timers))
unfolding tmr_create tmr_cancel
tmr_cancel-tmr_create fresh now proc client usecs periodic s t s' e h =
    ground (arith, list_remove-list_add t s.timers h)
