-- ===== src/Timer/Refinement.antt =====
-- src/timer.c against the schedule of Timer/Schedule.antt: what each function does to it.
use mathlib.Core.Quot
use mathlib.Core.Quot.{Quot}
use mathlib.Core.List.Perm
use iperf.Base.{
  ℕ, ◌≡◌, refl, ap, ◌∙◌, ◌⊎◌, inl, inr, Bool, true, false, Option, none, some, List, [], ◌∷◌,
  if◌then◌else◌, Option-cases,
}
use iperf.Time.{IperfTime, add_usecs}
use iperf.Timer.{
  Timer, Timers, list_add, list_remove, list_resort, new_node, tmr_create, tmr_cancel, tmr_reset,
  tmr_cleanup, tmr_destroy, cancel_all, expire, find,
}
use iperf.Timer.Content.{list_add-perm, list_remove-perm}
use iperf.Timer.Schedule.{Schedule, of_list, empty, put}

-- The calls that change the timers; `expired` is what tmr_run does to a timer after its callback.
pub data Op : Type 0 where
  create : Option ℕ → IperfTime → ℕ → ℕ → ℕ → Bool → Op
  cancel : Timer → Op
  reset : IperfTime → Timer → Op
  expired : Timer → Op
  cleanup destroy : Op

abbrev created : Option (Timer × Timers) → Timers → Timers
created none s = s
created (some (t, s')) s = s'

pub perform : Op → Timers → Timers
perform (create fresh now proc client usecs periodic) s =
    created (tmr_create fresh now proc client usecs periodic s) s
perform (cancel t) s = tmr_cancel t s
perform (reset now t) s = tmr_reset now t s
perform (expired t) s = expire t s
perform cleanup s = tmr_cleanup s
perform destroy s = tmr_destroy s

-- A call on a timer is for one that is on the list.
abbrev pub IsValid : Op → Timers → Type 0
IsValid (cancel t) s = find t.id s.timers ≡ some t
IsValid (reset now t) s = find t.id s.timers ≡ some t
IsValid (expired t) s = find t.id s.timers ≡ some t
IsValid _ s = Unit {0}

-- `t` is replaced by a timer of the same kind with another time.
abbrev Moves : Timer → IperfTime → Schedule → Schedule → Type 0
Moves t time b b' =
    (rest : Schedule) × (b ≡ put t rest) × (b' ≡ put (record t { time = time }) rest)

abbrev pub Adds : IperfTime → ℕ → ℕ → ℕ → Bool → Schedule → Schedule → Type 0
Adds now proc client usecs periodic b b' =
    (a : ℕ) × (b'
      ≡ put
          (record {
            id = a;
            timer_proc = proc;
            client_data = client;
            usecs = usecs;
            periodic = periodic;
            time = add_usecs now usecs;
          })
          b)

-- What the call promises of the schedule before and after it.
abbrev pub Promises : Op → Schedule → Schedule → Type 0
Promises (create fresh now proc client usecs periodic) b b' =
    ((fresh ≡ none) × (b' ≡ b)) ⊎ Adds now proc client usecs periodic b b'
Promises (cancel t) b b' = b ≡ put t b'
Promises (reset now t) b b' = Moves t (add_usecs now t.usecs) b b'
Promises (expired t) b b' =
    if t.periodic then Moves t (add_usecs t.time t.usecs) b b' else (b ≡ put t b')
Promises cleanup b b' = b' ≡ b
Promises destroy b b' = b' ≡ empty

abbrev pub schedule_of : Timers → Schedule
schedule_of s = of_list s.timers

list_add-put : (t : Timer) (l : List Timer) → of_list (list_add t l) ≡ put t (of_list l)
unfolding put
list_add-put t l = Quot.sound (list_add-perm t l)

list_remove-put :
    (t : Timer) (l : List Timer)
    → find t.id l ≡ some t
    → of_list l ≡ put t (of_list (list_remove t.id l))
unfolding put
list_remove-put t l h = Quot.sound (Perm.symm (list_remove-perm t.id l t h))

list_resort-Moves :
    (t : Timer) (time : IperfTime) (l : List Timer)
    → find t.id l ≡ some t
    → Moves t time (of_list l) (of_list (list_resort (record t { time = time }) l))
unfolding list_resort
list_resort-Moves t time l h =
    (of_list (list_remove t.id l), list_remove-put t l h, list_add-put _ (list_remove t.id l))

expire_by :
    (p : Bool) (t : Timer) (s : Timers)
    → find t.id s.timers ≡ some t
    → let s' : Timers =
        (if p
          then record s {
            timers = list_resort (record t { time = add_usecs t.time t.usecs }) s.timers;
          }
          else tmr_cancel t s) in
      if p
      then Moves t (add_usecs t.time t.usecs) (schedule_of s) (schedule_of s')
      else (schedule_of s ≡ put t (schedule_of s'))
unfolding tmr_cancel
expire_by true t s h = list_resort-Moves t (add_usecs t.time t.usecs) s.timers h
expire_by false t s h = list_remove-put t s.timers h

expire-Promises :
    (t : Timer) (s : Timers)
    → find t.id s.timers ≡ some t
    → Promises (expired t) (schedule_of s) (schedule_of (expire t s))
unfolding expire
expire-Promises t s h = expire_by t.periodic t s h

cancel_all-timers : (l : List Timer) (free : List ℕ) → (cancel_all l free).timers ≡ []
unfolding cancel_all
cancel_all-timers [] free = refl
cancel_all-timers (t ∷ ts) free = cancel_all-timers ts _

new_node-none : (fresh : Option ℕ) (free : List ℕ) → new_node fresh free ≡ none → fresh ≡ none
unfolding new_node
new_node-none none free e = refl
new_node-none (some a) [] e = absurd cc
new_node-none (some a) (b ∷ free) e = absurd cc

tmr_create-Promises :
    (fresh : Option ℕ) (now : IperfTime) (proc client usecs : ℕ) (periodic : Bool) (s : Timers)
    → Promises
        (create fresh now proc client usecs periodic)
        (schedule_of s)
        (schedule_of (created (tmr_create fresh now proc client usecs periodic s) s))
unfolding tmr_create
tmr_create-Promises fresh now proc client usecs periodic s =
    elim (Option-cases (new_node fresh s.free_timers)) [
      | inl e ↦
          let same : tmr_create fresh now proc client usecs periodic s ≡ none =
            rw (tmr_create, e) in
          inl (new_node-none fresh s.free_timers e, ap (λ o. schedule_of (created o s)) same)
      | inr ((a, rest), e) ↦
          let t : Timer = record {
            id = a;
            timer_proc = proc;
            client_data = client;
            usecs = usecs;
            periodic = periodic;
            time = add_usecs now usecs;
          } in
          let same : tmr_create fresh now proc client usecs periodic s
              ≡ some (t, record { timers = list_add t s.timers; free_timers = rest }) =
            rw (tmr_create, e) in
          inr (a, ap (λ o. schedule_of (created o s)) same ∙ list_add-put t s.timers)
    ]

-- Each function of the module does to the schedule what it promises: a new timer of the given values is
-- put into it, unless malloc fails; a timer on the list is taken out, or gets a new time, and all others stay;
-- cleanup leaves all, and destroy none.
pub perform-Promises :
    (op : Op) (s : Timers) → IsValid op s → Promises op (schedule_of s) (schedule_of (perform op s))
unfolding perform
perform-Promises (create fresh now proc client usecs periodic) s h =
    tmr_create-Promises fresh now proc client usecs periodic s
perform-Promises (cancel t) s h = unfold tmr_cancel in list_remove-put t s.timers h
perform-Promises (reset now t) s h =
    unfold tmr_reset in list_resort-Moves t (add_usecs now t.usecs) s.timers h
perform-Promises (expired t) s h = expire-Promises t s h
perform-Promises cleanup s h = unfold tmr_cleanup in refl
perform-Promises destroy s h =
    unfold tmr_destroy tmr_cleanup in ap of_list (cancel_all-timers s.timers s.free_timers)
