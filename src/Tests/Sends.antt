-- ===== src/Tests/Sends.antt =====
-- A stream's thread, src/iperf_api.c, with a protocol that sends messages of a hundred bytes.
use iperf.Base.{ℕ, ◌+◌, ◌*◌, ◌<◌, ◌≤◌, ◌≡◌, ◌-◌, ◌/◌, refl, true, false, arith}
use iperf.Base.Int.{pos}
use iperf.Net.{bytes}
use iperf.Sending.{Sender, StreamIo, send_mt}
use iperf.Sending.Tcp.{TcpIo, write_block}
use iperf.Sending.Blocks.{tcp_io, IsInBlocks, send_mt-IsInBlocks}
use iperf.Sending.Bounds.{Sends, send_mt_bound}

-- A world that counts seconds.
abbrev hundreds : StreamIo ℕ
hundreds = record {
  snd = λ sw. (bytes 100, sw);
  rcv = λ sw. (bytes 100, sw);
  elapsed = λ w. (record { secs = w; usecs = 0 }, w);
  bits_per_second = λ bits t. bits;
  surplus = λ bits t rate. pos bits;
  sleep = λ ns w. (true, w + 1);
}

abbrev sending : Sender
sending = record {
  green_light = true;
  done = false;
  rate = 0;
  burst = 0;
  multisend = 10;
  bytes_limit = 250;
  blocks_limit = 0;
  bytes_sent = 0;
  blocks_sent = 0;
  bytes_received = 0;
  blocks_received = 0;
  stream_bytes_sent = 0;
  pending_size = 0;
  i_errno = 0;
}

hundreds-Sends : Sends 100 hundreds
hundreds-Sends = record {
  keeps_count = λ s w. refl;
  keeps_limit = λ s w. refl;
  at_most = λ s w k e. ground arith;
}

send_mt_bound_example : (send_mt hundreds (sending, 1)).1.0.bytes_sent < 250 + 2 * 100
send_mt_bound_example =
    send_mt_bound hundreds 100 sending 1 hundreds-Sends (omega arith) (omega arith)

-- A stream that has sent more than its rate allows.
abbrev ahead : Sender
ahead = record sending { rate = 1000; stream_bytes_sent = 400 }

-- A kernel that takes half a block at a time.
abbrev halves : TcpIo ℕ
halves = record {
  zerocopy = false;
  nwrite = λ size v. (bytes (size - size / 2), v);
  nsendfile = λ size v. (bytes size, v);
  nrecv_no_select = λ v. (bytes 1, v);
}

abbrev seconds : StreamIo (ℕ × ℕ)
seconds = record {
  snd = λ sw. (bytes 100, sw);
  rcv = λ sw. (bytes 100, sw);
  elapsed = λ w. (record { secs = w.1; usecs = 0 }, w);
  bits_per_second = λ bits t. bits;
  surplus = λ bits t rate. pos bits;
  sleep = λ ns w. (true, w);
}

send_mt-IsInBlocks_example :
    IsInBlocks 100 (send_mt (tcp_io seconds halves 100) (sending, (0, 1))).1.0
send_mt-IsInBlocks_example =
    send_mt-IsInBlocks seconds halves 100 sending (0, 1)
      (record { at_most = λ size v r e. halves-AtMost size v r e }) (omega arith)
      (0, 0, refl, refl, omega arith, refl)
  where
    halves-AtMost : (size v r : ℕ) → (write_block halves size v).0 ≡ bytes r → r ≤ size
    halves-AtMost size v r e = ground arith
