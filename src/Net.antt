-- ===== src/Net.antt =====
-- src/net.c, reading and writing a descriptor: `Nwrite`, `Nrecv_no_select`, `Nread_no_select`, `Nrecv`
-- and `Nread`. What the kernel answers to each call is a list of events; `none` is a call that still
-- waits when the list ends.
use iperf.Base.{
  ℕ, zero, suc, ◌+◌, ◌-◌, ◌*◌, ◌≤◌, ◌<◌, ◌≡◌, arith, Bool, true, false, ◌&&◌, Option, none, some,
  List, [], ◌∷◌, ◌++◌, ltb, leb, ◌==◌, if◌then◌else◌, take, drop, sub64, u32,
}
use iperf.Time.{IperfTime, Comparison, before, compare_time, add_usecs}
pub mod Writing
pub mod Reading
pub mod Waiting

-- What the functions return: a count of bytes, NET_SOFTERROR or NET_HARDERROR.
pub data Io : Type 0 where
  bytes : ℕ → Io
  soft_error hard_error : Io

-- A count of size_t as the int that is returned; an int below NET_HARDERROR is an error to every caller.
unfoldable pub returned : ℕ → Io
returned n =
    if ltb (u32 n) 2147483648
    then bytes (u32 n)
    else if u32 n == 4294967295
    then soft_error
    else hard_error

pub returned_lem : (n : ℕ) → n < 2147483648 → returned n ≡ bytes n
unfolding returned
returned_lem n h = ground arith

-- What write(2) may answer: `would_block` is EINTR, EAGAIN or EWOULDBLOCK, `no_buffers` ENOBUFS.
pub data Write : Type 0 where
  wrote : ℕ → Write
  would_block no_buffers broken : Write

-- The loop of `Nwrite`: `buf` starts at the next byte, and `wire` is what the kernel took.
pub write_loop : ℕ → ℕ → List ℕ → List ℕ → List Write → Option (Io × List ℕ)
write_loop count zero buf wire script = some (returned count, wire)
write_loop count (suc n) buf wire [] = none
write_loop count (suc n) buf wire (would_block ∷ script) =
    some (if count == suc n then soft_error else returned (count - suc n), wire)
write_loop count (suc n) buf wire (no_buffers ∷ script) = some (soft_error, wire)
write_loop count (suc n) buf wire (broken ∷ script) = some (hard_error, wire)
write_loop count (suc n) buf wire (wrote zero ∷ script) = some (soft_error, wire)
write_loop count (suc n) buf wire (wrote (suc r) ∷ script) =
    write_loop count (sub64 (suc n) (suc r)) (drop (suc r) buf) (wire ++ take (suc r) buf) script

unfoldable pub nwrite : List ℕ → ℕ → List Write → Option (Io × List ℕ)
unfolding write_loop
nwrite buf count script = write_loop count count buf [] script

-- What read(2) or recv(2) may answer: the value returned and the bytes stored.
pub data Read : Type 0 where
  got : ℕ → List ℕ → Read
  interrupted failed : Read

-- How far a read moves the buffer; with MSG_TRUNC recv(2) returns the length of the whole datagram.
unfoldable pub advance : Bool → ℕ → ℕ → ℕ
advance true r nleft = if ltb nleft r then nleft else r
advance false r nleft = r

-- The loop of `Nrecv_no_select`; the last argument collects the buffer.
pub recv_loop : Bool → ℕ → ℕ → List ℕ → List Read → Option (Io × List ℕ)
unfolding advance
recv_loop trunc count zero buf script = some (returned count, buf)
recv_loop trunc count (suc n) buf [] = none
recv_loop trunc count (suc n) buf (interrupted ∷ script) = some (returned (count - suc n), buf)
recv_loop trunc count (suc n) buf (failed ∷ script) = some (hard_error, buf)
recv_loop trunc count (suc n) buf (got zero stored ∷ script) = some (returned (count - suc n), buf)
recv_loop trunc count (suc n) buf (got (suc r) stored ∷ script) =
    recv_loop trunc count (sub64 (suc n) (advance trunc (suc r) (suc n))) (buf ++ stored) script

pub nrecv_no_select : Bool → ℕ → List Read → Option (Io × List ℕ)
unfolding recv_loop
nrecv_no_select trunc count script = recv_loop trunc count count [] script

pub nread_no_select : ℕ → List Read → Option (Io × List ℕ)
unfolding nrecv_no_select
nread_no_select count script = nrecv_no_select false count script

pub data Select : Type 0 where
  ready timed_out select_failed : Select

-- A round of the loop of `Nrecv`: the read, then the clock and the select where more is wanted.
pub data Poll : Type 0 where
  poll : Read → IperfTime → Select → Poll

-- `nread_overall_timeout` in seconds.
abbrev pub nread_overall_timeout : ℕ
nread_overall_timeout = 30

-- The time to give up at is set by the first wait.
pub give_up_at : IperfTime → IperfTime → IperfTime
give_up_at ftimeout now =
    if ftimeout.secs == 0 then add_usecs now (nread_overall_timeout * 1000000) else ftimeout

abbrev pub is_over : Comparison → Bool
is_over before = true
is_over _ = false

-- After a read of something: `rest` is the loop from here on.
pub wait_more :
    ℕ → ℕ → IperfTime → IperfTime → Select → List ℕ → Option (Io × List ℕ) → Option (Io × List ℕ)
wait_more count zero ftimeout now select buf rest = some (returned count, buf)
wait_more count (suc n) ftimeout now select buf rest =
    if is_over (compare_time ftimeout now)
    then some (returned (count - suc n), buf)
    else elim select [
      | ready ↦ rest
      | timed_out ↦ some (returned (count - suc n), buf)
      | select_failed ↦ some (hard_error, buf)
    ]

pub poll_loop : Bool → ℕ → ℕ → IperfTime → List ℕ → List Poll → Option (Io × List ℕ)
unfolding advance give_up_at wait_more
poll_loop trunc count zero ftimeout buf polls = some (returned count, buf)
poll_loop trunc count (suc n) ftimeout buf [] = none
poll_loop trunc count (suc n) ftimeout buf (poll interrupted now select ∷ ps) =
    some (returned (count - suc n), buf)
poll_loop trunc count (suc n) ftimeout buf (poll failed now select ∷ ps) = some (hard_error, buf)
poll_loop trunc count (suc n) ftimeout buf (poll (got zero stored) now select ∷ ps) =
    some (returned (count - suc n), buf)
poll_loop trunc count (suc n) ftimeout buf (poll (got (suc r) stored) now select ∷ ps) =
    let nleft = sub64 (suc n) (advance trunc (suc r) (suc n)) in
    let ftimeout' = give_up_at ftimeout now in
    wait_more count nleft ftimeout' now select (buf ++ stored)
      (poll_loop trunc count nleft ftimeout' (buf ++ stored) ps)

-- `Nrecv`: the select of its entry, then the loop.
pub nrecv : Bool → ℕ → Select → List Poll → Option (Io × List ℕ)
unfolding poll_loop
nrecv trunc count select_failed polls = some (hard_error, [])
nrecv trunc count timed_out polls = some (bytes 0, [])
nrecv trunc count ready polls =
    poll_loop trunc count count (record { secs = 0; usecs = 0 }) [] polls

pub nread : ℕ → Select → List Poll → Option (Io × List ℕ)
unfolding nrecv
nread count select polls = nrecv false count select polls
