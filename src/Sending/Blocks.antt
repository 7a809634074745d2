-- ===== src/Sending/Blocks.antt =====
-- src/iperf_api.c and src/iperf_tcp.c: the blocks that `iperf_send_mt` counts with `iperf_tcp_send`.
use iperf.Base.{
  ℕ, zero, suc, ◌+◌, ◌-◌, ◌*◌, ◌<◌, ◌≤◌, ◌≡◌, refl, sym, ◌∙◌, subst, Bool, true, false, not, ◌&&◌,
  ◌||◌, inl, inr, if◌then◌else◌, ◌==◌, u64, arith, Bool-cases,
}
use iperf.Net.{Io, bytes, soft_error, hard_error}
use iperf.Sending.{
  iestreamwrite, Sender, StreamIo, Sent, sending_over, failed, check_throttle, throttle,
  wait_for_light, stops, count_message, send_loop, after_message, finish_sending, send_mt,
  throttle_check_per_message, burst_size,
}
use iperf.Sending.Bounds.{outcome}
use iperf.Sending.Tcp.{TcpIo, whole, write_block, written, tcp_send}

-- What Nwrite and Nsendfile do: they write_block at most what they are given.
pub record Writes {V : Type 0} (io : TcpIo V) : Type 0 where
  pub at_most : (size : ℕ) (v : V) (r : ℕ) → (write_block io size v).0 ≡ bytes r → r ≤ size

abbrev open_block : ℕ → ℕ → ℕ
open_block pending blksize = if pending == 0 then 0 else blksize

-- Words of the bytes and of the blocks such that the bytes are those of the blocks, and of the part of a
-- further block that is not pending.
abbrev pub InBlocks : ℕ → ℕ → ℕ → ℕ → Type 0
InBlocks blksize bytes_sent blocks_sent pending =
    (total : ℕ) × (blocks : ℕ) × (bytes_sent ≡ u64 total)
    × (blocks_sent ≡ u64 blocks)
    × (pending ≤ blksize)
    × (total + pending ≡ blocks * blksize + open_block pending blksize)

abbrev pub IsInBlocks : ℕ → Sender → Type 0
IsInBlocks blksize s = InBlocks blksize s.bytes_sent s.blocks_sent s.pending_size

begin_block_total :
    (blksize pending total x : ℕ)
    → pending ≤ blksize
    → total + pending ≡ x + open_block pending blksize
    → (whole pending blksize ≤ blksize)
      × (total + whole pending blksize ≡ x + open_block (whole pending blksize) blksize)
begin_block_total blksize pending total x le h = ground arith

begin_block :
    (blksize pending b c : ℕ)
    → InBlocks blksize b c pending
    → InBlocks blksize b c (whole pending blksize)
begin_block blksize pending b c (total, blocks, e, f, le, h) =
    let (le', h') = begin_block_total blksize pending total (blocks * blksize) le h in
    (total, blocks, e, f, le', h')

block_total :
    (blksize size total x r : ℕ) (t : Bool)
    → r ≤ size
    → 0 < size
    → total + size ≡ x + open_block size blksize
    → size - r == 0 ≡ t
    → total + r + (size - r) ≡ (if t then x + blksize else x) + open_block (size - r) blksize
block_total blksize size total x r t le pos h e = ground arith

-- A block that is written to its end, and one that is not.
count_block :
    (blksize size b c r : ℕ)
    → r ≤ size
    → 0 < size
    → InBlocks blksize b c size
    → InBlocks blksize (u64 (b + r)) (if size - r == 0 then u64 (c + 1) else c) (size - r)
count_block blksize size b c r le p (total, blocks, e, f, k, h) =
    elim (Bool-cases (size - r == 0)) [
      | inl t ↦ (
        total + r,
        suc blocks,
        omega (arith, e),
        rw t (omega (arith, f)),
        omega (arith, k),
        block_total blksize size total (blocks * blksize) r true le p h t ∙ omega arith,
      )
      | inr t ↦ (
        total + r,
        blocks,
        omega (arith, e),
        rw t f,
        omega (arith, k),
        block_total blksize size total (blocks * blksize) r false le p h t,
      )
    ]

module _ {V : Type 0} (clock : StreamIo (ℕ × V)) (io : TcpIo V) (blksize : ℕ) where
  -- The stream of TCP.
  abbrev pub tcp_io : StreamIo (ℕ × V)
  tcp_io = record clock { snd = tcp_send io blksize }

  whole_positive : (pending : ℕ) → 0 < blksize → 0 < whole pending blksize
  whole_positive pending h = ground arith

  -- After a message: with its count, or without one.
  abbrev Sends : Io × (Sender × (ℕ × V)) → Type 0
  Sends (soft_error, (s, w)) = IsInBlocks blksize s
  Sends (hard_error, (s, w)) = IsInBlocks blksize s
  Sends (bytes r, (s, w)) = IsInBlocks blksize (count_message tcp_io r s)

  written-Sends :
      (s : Sender) (interval : ℕ) (o : Io × V)
      → ((r : ℕ) → o.0 ≡ bytes r → r ≤ whole s.pending_size blksize)
      → 0 < blksize
      → IsInBlocks blksize s
      → Sends (written (whole s.pending_size blksize) s interval o)
  unfolding count_message
  written-Sends s interval (soft_error, v) le p h =
      begin_block blksize s.pending_size s.bytes_sent s.blocks_sent h
  written-Sends s interval (hard_error, v) le p h =
      begin_block blksize s.pending_size s.bytes_sent s.blocks_sent h
  written-Sends s interval (bytes r, v) le p h =
      count_block blksize (whole s.pending_size blksize) s.bytes_sent s.blocks_sent r (le r refl)
        (whole_positive s.pending_size p)
        (begin_block blksize s.pending_size s.bytes_sent s.blocks_sent h)

  tcp_send-Sends :
      (s : Sender) (w : ℕ × V)
      → Writes io
      → 0 < blksize
      → IsInBlocks blksize s
      → Sends (tcp_send io blksize (s, w))
  unfolding tcp_send
  tcp_send-Sends s (interval, v) writes p h =
      written-Sends s interval (write_block io (whole s.pending_size blksize) v)
        (writes.at_most (whole s.pending_size blksize) v) p h

  check_throttle-keeps :
      (s : Sender) (w : ℕ × V)
      → ((check_throttle tcp_io (s, w)).0.bytes_sent ≡ s.bytes_sent)
        × ((check_throttle tcp_io (s, w)).0.blocks_sent ≡ s.blocks_sent)
        × ((check_throttle tcp_io (s, w)).0.pending_size ≡ s.pending_size)
  unfolding check_throttle throttle wait_for_light
  check_throttle-keeps s w = ground arith

  check_throttle-IsInBlocks :
      (s : Sender) (w : ℕ × V)
      → IsInBlocks blksize s
      → IsInBlocks blksize (check_throttle tcp_io (s, w)).0
  check_throttle-IsInBlocks s w h =
      let (b, c, q) = check_throttle-keeps s w in
      subst
        (λ z.
          InBlocks blksize z (check_throttle tcp_io (s, w)).0.blocks_sent
            (check_throttle tcp_io (s, w)).0.pending_size)
        (sym b)
        (subst (λ z. InBlocks blksize s.bytes_sent z (check_throttle tcp_io (s, w)).0.pending_size)
          (sym c) (subst (λ z. InBlocks blksize s.bytes_sent s.blocks_sent z) (sym q) h))

  after_message-IsInBlocks :
      (per : Bool) (s : Sender) (w : ℕ × V)
      → IsInBlocks blksize s
      → IsInBlocks blksize (after_message tcp_io per (s, w)).0
  after_message-IsInBlocks true s w h = check_throttle-IsInBlocks s w h
  after_message-IsInBlocks false s w h = h

  loop_body :
      (b c : Bool) (s : Sender) (w : ℕ × V) (x : Io × (Sender × (ℕ × V))) (rest : ℕ → Sent (ℕ × V))
      → IsInBlocks blksize s
      → Sends x
      → ((k : ℕ)
          → IsInBlocks blksize (count_message tcp_io k x.1.0)
          → IsInBlocks blksize (outcome (rest k)))
      → IsInBlocks blksize (
          outcome (
            if c then sending_over b (s, w) else elim x.0 [
              | soft_error ↦ sending_over b (x.1.0, x.1.1)
              | hard_error ↦ failed (record x.1.0 { i_errno = iestreamwrite }, x.1.1)
              | bytes k ↦ rest k
            ]))
  loop_body b true s w x rest h g f = h
  loop_body b false s w (soft_error, sw) rest h g f = g
  loop_body b false s w (hard_error, sw) rest h g f = g
  loop_body b false s w (bytes k, sw) rest h g f = f k g

  send_loop-IsInBlocks :
      (per : Bool) (n : ℕ) (b : Bool) (s : Sender) (w : ℕ × V)
      → Writes io
      → 0 < blksize
      → IsInBlocks blksize s
      → IsInBlocks blksize (outcome (send_loop tcp_io per n b (s, w)))
  unfolding send_loop
  send_loop-IsInBlocks per zero b s w writes p h = h
  send_loop-IsInBlocks per (suc n) b s w writes p h =
      let x = tcp_send io blksize (s, w) in
      loop_body b (not s.green_light || stops tcp_io (suc n) s) s w x
        (λ k.
          send_loop tcp_io per n true
            (after_message tcp_io per (count_message tcp_io k x.1.0, x.1.1)))
        h (tcp_send-Sends s w writes p h)
        (λ k g.
          let t = after_message tcp_io per (count_message tcp_io k x.1.0, x.1.1) in
          send_loop-IsInBlocks per n true t.0 t.1 writes p
            (after_message-IsInBlocks per (count_message tcp_io k x.1.0) x.1.1 g))

  finish_sending-IsInBlocks :
      (check per : Bool) (o : Sent (ℕ × V))
      → IsInBlocks blksize (outcome o)
      → IsInBlocks blksize (finish_sending tcp_io check per o).1.0
  unfolding finish_sending
  finish_sending-IsInBlocks check per (failed sw) h = h
  finish_sending-IsInBlocks check per (sending_over b (s, w)) h =
      elim (Bool-cases (check && (not per || not b))) [
        | inl e ↦ rw e (check_throttle-IsInBlocks s w h)
        | inr e ↦ rw e h
      ]

  -- With Nwrite and Nsendfile writing at most what they are given, and blocks that are not empty: whatever the burst,
  -- the throttle and the partial writes, in words of 64 bits the bytes that the only stream of TCP of a test has sent
  -- are those of the blocks that iperf_send_mt has counted and of what is not pending of one more.
  pub send_mt-IsInBlocks :
      (s : Sender) (w : ℕ × V)
      → Writes io
      → 0 < blksize
      → IsInBlocks blksize s
      → IsInBlocks blksize (send_mt tcp_io (s, w)).1.0
  unfolding send_mt
  send_mt-IsInBlocks s w writes p h =
      finish_sending-IsInBlocks (not (s.rate == 0)) (throttle_check_per_message tcp_io s)
        (send_loop tcp_io (throttle_check_per_message tcp_io s) (burst_size tcp_io s) false (s, w))
        (send_loop-IsInBlocks (throttle_check_per_message tcp_io s) (burst_size tcp_io s) false s w
          writes p h)
