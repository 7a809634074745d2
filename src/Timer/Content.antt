-- ===== src/Timer/Content.antt =====
-- src/timer.c: which timers are on the list, and where a new one goes.
use mathlib.Core.List.{Perm}
use mathlib.Core.List.Perm
use iperf.Base.{
  ℕ, true, ◌≡◌, refl, inl, inr, some, List, [], ◌∷◌, ◌++◌, All, if◌then◌else◌, arith, Bool-cases,
  ◌==◌,
}
use iperf.Time.{IperfTime, compare_time}
use iperf.Timer.{Timer, walk, list_add, list_remove, is_before, find}
use iperf.Timer.Sorted.{NotLater, IsSorted}

-- The timers of a list that expire no later than `t`, and those that expire later, in their order.
pub upto : Timer → List Timer → List Timer
upto t [] = []
upto t (x ∷ xs) = if is_before (compare_time t.time x.time) then upto t xs else x ∷ upto t xs

pub beyond : Timer → List Timer → List Timer
beyond t [] = []
beyond t (x ∷ xs) = if is_before (compare_time t.time x.time) then x ∷ beyond t xs else beyond t xs

later-beyond :
    (t : Timer) (a : IperfTime) (l : List Timer)
    → is_before (compare_time t.time a) ≡ true
    → All (λ (y : Timer). NotLater a y.time) l
    → (upto t l ≡ []) × (beyond t l ≡ l)
unfolding upto beyond compare_time
later-beyond t a [] h all = (refl, refl)
later-beyond t a (x ∷ xs) h all = ground (arith, later-beyond t a xs h all.1)

walk_lem : (t : Timer) (l : List Timer) → IsSorted l → walk t l ≡ upto t l ++ (t ∷ beyond t l)
unfolding walk upto beyond
walk_lem t [] s = refl
walk_lem t (x ∷ xs) s = ground (arith, later-beyond t x.time xs, walk_lem t xs s.1)

-- In a list in order a timer goes behind all that expire no later and in front of all that expire
-- later, whose order stays: among timers of the same time the oldest is first.
pub list_add_lem :
    (t : Timer) (l : List Timer) → IsSorted l → list_add t l ≡ upto t l ++ (t ∷ beyond t l)
unfolding list_add
list_add_lem t [] s = unfold upto beyond in refl
list_add_lem t (x ∷ xs) s = walk_lem t (x ∷ xs) s

walk-perm : (t : Timer) (l : List Timer) → Perm (walk t l) (t ∷ l)
unfolding walk
walk-perm t [] = Perm.refl _
walk-perm t (x ∷ xs) = elim (Bool-cases (is_before (compare_time t.time x.time))) [
  | inl h ↦ rw h (Perm.refl _)
  | inr h ↦ rw h (Perm.trans (Perm.cons x (walk-perm t xs)) (Perm.swap t x xs))
]

pub list_add-perm : (t : Timer) (l : List Timer) → Perm (list_add t l) (t ∷ l)
unfolding list_add
list_add-perm t [] = Perm.refl _
list_add-perm t (x ∷ xs) = walk-perm t (x ∷ xs)

pub list_remove-perm :
    (a : ℕ) (l : List Timer) (t : Timer) → find a l ≡ some t → Perm (t ∷ list_remove a l) l
unfolding find list_remove
list_remove-perm a [] t h = absurd (cc)
list_remove-perm a (x ∷ xs) t h = elim (Bool-cases (x.id == a)) [
  | inl e ↦ rw e (Perm.cons' (ground arith) (Perm.refl xs))
  | inr e ↦
      rw e (Perm.trans (Perm.swap x t _) (Perm.cons x (list_remove-perm a xs t (ground arith))))
]
