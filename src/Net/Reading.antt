-- ===== src/Net/Reading.antt =====
-- src/net.c: what `Nrecv_no_select` and `Nrecv` report.
use iperf.Base.{
  ℕ, zero, suc, ◌+◌, ◌-◌, ◌≤◌, ◌<◌, ◌≡◌, refl, sym, subst, Bool, true, false, Option, none, some,
  List, [], ◌∷◌, ◌++◌, length, length-append, sub64, arith,
}
use iperf.Net.{
  Io, bytes, soft_error, hard_error, Read, got, interrupted, failed, advance, recv_loop,
  nrecv_no_select, returned_lem,
}

-- read(2) stores what it returns and no more than it was asked for; with MSG_TRUNC recv(2) may return
-- more, and stores what fits.
abbrev pub ObeysRead : Bool → ℕ → Read → Type 0
ObeysRead trunc nleft (got r stored) =
    (length stored ≡ advance trunc r nleft) × (advance trunc r nleft ≤ nleft)
ObeysRead trunc nleft interrupted = Unit {0}
ObeysRead trunc nleft failed = Unit {0}

abbrev pub moved : Bool → ℕ → Read → ℕ
moved trunc nleft (got r stored) = advance trunc r nleft
moved trunc nleft interrupted = 0
moved trunc nleft failed = 0

abbrev pub ObeysReads : Bool → ℕ → List Read → Type 0
ObeysReads trunc nleft [] = Unit {0}
ObeysReads trunc nleft (e ∷ es) =
    ObeysRead trunc nleft e × ObeysReads trunc (nleft - moved trunc nleft e) es

-- What is reported is a hard error, or the number of the bytes in the buffer, at most `count`.
abbrev pub Received : ℕ → Option (Io × List ℕ) → Type 0
Received count none = ⊥
Received count (some (bytes n, buf)) = (n ≡ length buf) × (n ≤ count)
Received count (some (soft_error, buf)) = ⊥
Received count (some (hard_error, buf)) = length buf ≤ count

pub advance-pos : (trunc : Bool) (r n : ℕ) → 0 < advance trunc (suc r) (suc n)
unfolding advance
advance-pos true r n = ground arith
advance-pos false r n = omega arith

recv_loop-Received :
    (es : List Read) (trunc : Bool) (count nleft : ℕ) (buf : List ℕ)
    → count < 2147483648
    → length buf + nleft ≡ count
    → nleft ≤ length es
    → ObeysReads trunc nleft es
    → Received count (recv_loop trunc count nleft buf es)
unfolding recv_loop
recv_loop-Received es trunc count zero buf w c l o = rw (returned_lem count w) (omega arith)
recv_loop-Received [] trunc count (suc n) buf w c l o = absurd (omega arith)
recv_loop-Received (interrupted ∷ es) trunc count (suc n) buf w c l o =
    rw (returned_lem (count - suc n) (omega arith)) (omega arith)
recv_loop-Received (failed ∷ es) trunc count (suc n) buf w c l o = omega arith
recv_loop-Received (got zero stored ∷ es) trunc count (suc n) buf w c l o =
    rw (returned_lem (count - suc n) (omega arith)) (omega arith)
recv_loop-Received (got (suc r) stored ∷ es) trunc count (suc n) buf w c l o =
    let k : ℕ = advance trunc (suc r) (suc n) in
    let left : sub64 (suc n) k ≡ suc n - k = omega arith in
    subst (λ m. Received count (recv_loop trunc count m (buf ++ stored) es)) (sym left)
      (recv_loop-Received es trunc count (suc n - k) (buf ++ stored) w
        (omega (arith, length-append buf stored)) (omega (arith, advance-pos trunc r n)) o.1)

-- `Nrecv_no_select` of less than 2^31 bytes, where each read stores what it is asked for at most, returns within a read for
-- each byte, and reports a hard error or exactly the number of the bytes that it stored.
pub nrecv_no_select-Received :
    (trunc : Bool) (count : ℕ) (es : List Read)
    → count < 2147483648
    → count ≤ length es
    → ObeysReads trunc count es
    → Received count (nrecv_no_select trunc count es)
unfolding nrecv_no_select
nrecv_no_select-Received trunc count es w l o =
    recv_loop-Received es trunc count count [] w (omega arith) l o

-- With MSG_TRUNC the length of a datagram that does not fit is lost: the answer is the size asked for.
pub nrecv_no_select_truncated :
    (count len : ℕ) (stored : List ℕ) (es : List Read)
    → 0 < count
    → count < 2147483648
    → count < len
    → nrecv_no_select true count (got len stored ∷ es) ≡ some (bytes count, stored)
unfolding nrecv_no_select recv_loop advance
nrecv_no_select_truncated zero len stored es p w h = absurd (omega arith)
nrecv_no_select_truncated (suc c) zero stored es p w h = absurd (omega arith)
nrecv_no_select_truncated (suc c) (suc l) stored es p w h = ground (arith, returned_lem (suc c) w)

-- A datagram of the size asked for is read whole.
pub nrecv_no_select_whole :
    (k : ℕ) (stored : List ℕ) (es : List Read)
    → suc k < 2147483648
    → nrecv_no_select false (suc k) (got (suc k) stored ∷ es) ≡ some (bytes (suc k), stored)
unfolding nrecv_no_select recv_loop advance
nrecv_no_select_whole k stored es w =
    let left : sub64 (suc k) (suc k) ≡ 0 = omega arith in
    subst (λ m. recv_loop false (suc k) m stored es ≡ some (bytes (suc k), stored)) (sym left)
      (rw (returned_lem (suc k) w) refl)
