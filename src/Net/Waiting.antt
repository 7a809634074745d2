-- ===== src/Net/Waiting.antt =====
-- src/net.c: `Nrecv`, which waits for the rest of a message, but not for ever.
use iperf.Base.{
  ℕ, zero, suc, ◌+◌, ◌-◌, ◌≤◌, ◌<◌, ◌≡◌, sym, subst, Bool, Option, some, List, [], ◌∷◌, ◌++◌,
  length, length-append, sub64, inl, inr, arith, Bool-cases,
}
use iperf.Time.{IperfTime, compare_time}
use iperf.Net.{
  Io, hard_error, got, interrupted, failed, advance, Poll, poll, Select, ready, timed_out,
  select_failed, give_up_at, is_over, wait_more, poll_loop, nrecv, returned, returned_lem,
}
use iperf.Net.Reading.{ObeysRead, moved, Received, advance-pos}

abbrev pub ObeysPolls : Bool → ℕ → List Poll → Type 0
ObeysPolls trunc nleft [] = Unit {0}
ObeysPolls trunc nleft (poll e now select ∷ ps) =
    ObeysRead trunc nleft e × ObeysPolls trunc (nleft - moved trunc nleft e) ps

-- A wait ends with what has been read, or with what the rest of the loop gives.
wait_more-Received :
    (count nleft : ℕ) (ftimeout now : IperfTime) (select : Select) (buf : List ℕ)
    (rest : Option (Io × List ℕ))
    → count < 2147483648
    → length buf + nleft ≡ count
    → Received count rest
    → Received count (wait_more count nleft ftimeout now select buf rest)
unfolding wait_more
wait_more-Received count zero ftimeout now select buf rest w c r =
    rw (returned_lem count w) (omega arith)
wait_more-Received count (suc n) ftimeout now select buf rest w c r =
    elim (Bool-cases (is_over (compare_time ftimeout now))) [
      | inl e ↦ rw e (rw (returned_lem (count - suc n) (omega arith)) (omega arith))
      | inr e ↦ rw e (choose select)
    ]
  where
    choose :
        (x : Select)
        → Received count (elim x [
          | ready ↦ rest
          | timed_out ↦ some (returned (count - suc n), buf)
          | select_failed ↦ some (hard_error, buf)
        ])
    choose ready = r
    choose timed_out = rw (returned_lem (count - suc n) (omega arith)) (omega arith)
    choose select_failed = omega arith

abbrev Rest : Bool → ℕ → List Poll → Type 0
Rest trunc count ps =
    (nleft : ℕ) (ftimeout : IperfTime) (buf : List ℕ)
    → length buf + nleft ≡ count
    → nleft ≤ length ps
    → ObeysPolls trunc nleft ps
    → Received count (poll_loop trunc count nleft ftimeout buf ps)

poll_round-Received :
    (trunc : Bool) (count n : ℕ) (ftimeout : IperfTime) (buf : List ℕ) (now : IperfTime)
    (select : Select) (ps : List Poll)
    → Rest trunc count ps
    → (r : ℕ) (stored : List ℕ) → count < 2147483648
    → length buf + suc n ≡ count
    → suc n ≤ suc (length ps)
    → ObeysRead trunc (suc n) (got (suc r) stored)
    → ObeysPolls trunc (suc n - advance trunc (suc r) (suc n)) ps
    → Received count (
        wait_more count
          (sub64 (suc n) (advance trunc (suc r) (suc n)))
          (give_up_at ftimeout now)
          now
          select
          (buf ++ stored)
          (poll_loop trunc count
            (sub64 (suc n) (advance trunc (suc r) (suc n)))
            (give_up_at ftimeout now)
            (buf ++ stored)
            ps))
poll_round-Received trunc count n ftimeout buf now select ps rest r stored w c l o os =
    let k : ℕ = advance trunc (suc r) (suc n) in
    let left : sub64 (suc n) k ≡ suc n - k = omega arith in
    let filled : length (buf ++ stored) + (suc n - k) ≡ count =
      omega (arith, length-append buf stored) in
    subst
      (λ m. Received count (
        wait_more count m (give_up_at ftimeout now) now select (buf ++ stored)
          (poll_loop trunc count m (give_up_at ftimeout now) (buf ++ stored) ps)))
      (sym left)
      (wait_more-Received count (suc n - k) _ now select (buf ++ stored) _ w filled
        (rest (suc n - k) _ (buf ++ stored) filled (omega (arith, advance-pos trunc r n)) os))

poll_loop-Received :
    (trunc : Bool) (count : ℕ) (ps : List Poll) → count < 2147483648 → Rest trunc count ps
unfolding poll_loop
poll_loop-Received trunc count ps w zero ftimeout buf c l o =
    rw (returned_lem count w) (omega arith)
poll_loop-Received trunc count [] w (suc n) ftimeout buf c l o = absurd (omega arith)
poll_loop-Received trunc count (poll interrupted now select ∷ ps) w (suc n) ftimeout buf c l o =
    rw (returned_lem (count - suc n) (omega arith)) (omega arith)
poll_loop-Received trunc count (poll failed now select ∷ ps) w (suc n) ftimeout buf c l o =
    omega arith
poll_loop-Received trunc count (poll (got zero stored) now select ∷ ps) w (suc n) ftimeout buf c l
      o =
    rw (returned_lem (count - suc n) (omega arith)) (omega arith)
poll_loop-Received trunc count (poll (got (suc r) stored) now select ∷ ps) w (suc n) ftimeout buf c
      l o =
    poll_round-Received trunc count n ftimeout buf now select ps
      (poll_loop-Received trunc count ps w) r stored w c l o.0 o.1

-- `Nrecv` of less than 2^31 bytes, where each read stores what it is asked for at most, returns within a read for each
-- byte, whatever the select of each round and the clock say, and reports a hard error or exactly
-- the number of the bytes that it stored.
pub nrecv-Received :
    (trunc : Bool) (count : ℕ) (select : Select) (ps : List Poll)
    → count < 2147483648
    → count ≤ length ps
    → ObeysPolls trunc count ps
    → Received count (nrecv trunc count select ps)
unfolding nrecv
nrecv-Received trunc count ready ps w l o =
    poll_loop-Received trunc count ps w count _ [] (omega arith) l o
nrecv-Received trunc count timed_out ps w l o = ground (arith, returned_lem 0 (omega arith))
nrecv-Received trunc count select_failed ps w l o = omega arith
