-- ===== src/Tests/Network.antt =====
-- src/net.c against a kernel that takes and gives a message in pieces.
use iperf.Base.{ℕ, ◌∷◌, [], List, false, arith}
use iperf.Net.{
  Write, wrote, would_block, nwrite, Read, got, interrupted, advance, Poll, poll, ready, nrecv,
}
use iperf.Net.Writing.{Returns, nwrite-Returns}
use iperf.Net.Reading.{Received}
use iperf.Net.Waiting.{nrecv-Received}

abbrev data_bytes : List ℕ
data_bytes = 10 ∷ 20 ∷ 30 ∷ []

abbrev writes : List Write
writes = wrote 2 ∷ would_block ∷ wrote 1 ∷ []

nwrite-Returns_example : Returns data_bytes (nwrite data_bytes 3 writes)
nwrite-Returns_example =
    nwrite-Returns data_bytes writes (omega arith) (omega arith) (omega arith, tt)

abbrev reads : List Read
reads = got 2 (10 ∷ 20 ∷ []) ∷ got 1 (30 ∷ []) ∷ interrupted ∷ []

abbrev polls : List Poll
polls =
    poll (got 2 (10 ∷ 20 ∷ [])) (record { secs = 1; usecs = 0 }) ready
    ∷ poll (got 1 (30 ∷ [])) (record { secs = 2; usecs = 0 }) ready
    ∷ poll interrupted (record { secs = 3; usecs = 0 }) ready
    ∷ []

nrecv-Received_example : Received 3 (nrecv false 3 ready polls)
unfolding advance
nrecv-Received_example =
    nrecv-Received false 3 ready polls (omega arith) (omega arith) (omega arith)
