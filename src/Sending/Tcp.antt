-- ===== src/Sending/Tcp.antt =====
-- src/iperf_tcp.c: `iperf_tcp_send` and `iperf_tcp_recv`.
use iperf.Base.{ℕ, ◌+◌, ◌-◌, Bool, if◌then◌else◌, ◌==◌, u64}
use iperf.Net.{Io, bytes, soft_error, hard_error}
use iperf.Sending.{Sender}

-- Nwrite and Nsendfile of a size, and Nrecv_no_select.
pub record TcpIo (V : Type 0) : Type 0 where
  pub zerocopy : Bool
  pub nwrite : ℕ → V → Io × V
  pub nsendfile : ℕ → V → Io × V
  pub nrecv_no_select : V → Io × V

abbrev pub whole : ℕ → ℕ → ℕ
whole pending blksize = if pending == 0 then blksize else pending

module _ {V : Type 0} where
  abbrev pub write_block : TcpIo V → ℕ → V → Io × V
  write_block io size v = if io.zerocopy then io.nsendfile size v else io.nwrite size v

  -- Beside the sender stands `bytes_sent_this_interval`.
  abbrev pub written : ℕ → Sender → ℕ → Io × V → Io × (Sender × (ℕ × V))
  written pending s interval (soft_error, v) =
      (soft_error, (record s { pending_size = pending }, (interval, v)))
  written pending s interval (hard_error, v) =
      (hard_error, (record s { pending_size = pending }, (interval, v)))
  written pending s interval (bytes r, v) = (
    bytes r,
    (
      record s { pending_size = pending - r; stream_bytes_sent = u64 (s.stream_bytes_sent + r) },
      (u64 (interval + r), v),
    ),
  )

  unfoldable pub tcp_send : TcpIo V → ℕ → Sender × (ℕ × V) → Io × (Sender × (ℕ × V))
  tcp_send io blksize (s, (interval, v)) =
      written (whole s.pending_size blksize) s interval
        (write_block io (whole s.pending_size blksize) v)

  -- `bytes_received` and `bytes_received_this_interval`, which are counted while the test is running.
  abbrev pub counted : Bool → ℕ × ℕ → Io × V → Io × ((ℕ × ℕ) × V)
  counted running (total, interval) (bytes r, v) =
      (bytes r, (if running then (u64 (total + r), u64 (interval + r)) else (total, interval), v))
  counted running counts (r, v) = (r, (counts, v))

  unfoldable pub tcp_recv : TcpIo V → Bool → (ℕ × ℕ) × V → Io × ((ℕ × ℕ) × V)
  tcp_recv io running (counts, v) = counted running counts (io.nrecv_no_select v)
