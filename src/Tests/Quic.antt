-- ===== src/Tests/Quic.antt =====
-- src/iperf_quic.c: a stream of blocks of four bytes, and a server with two streams.
use iperf.Base.{
  ℕ, ◌+◌, ◌-◌, ◌<◌, ◌≡◌, ◌≢◌, refl, true, false, none, some, List, [], ◌∷◌, ◌++◌, arith,
}
use iperf.Net.{Io}
use iperf.Quic.{StreamCtx, StreamEvent, receive, peer_send_shutdown, send_complete}
use iperf.Quic.Streams.{QuicStream, quic_recv, nothing_yet, stream_cb, send_now}
use iperf.Quic.Receiving.{content, Grows}
use iperf.Quic.Waiting.{IsRead, quic_recv-Returns}
use iperf.Quic.Pipe
use iperf.Quic.Pipe.{IsPipe, turns-IsPipe, context_of}
use iperf.Quic.Sends.{Sending, complete, accepted, Reach, here, next, IsBounded, Reach-IsBounded}
use iperf.Quic.Context.{
  QuicContext, connected, conn_shutdown_complete, peer_stream_started, told, ConnWake, ConnectCalls,
  quic_connect, quic_accept, attach_stream, take_entry,
}
use iperf.Quic.Announcing
use iperf.Quic.Announcing.{Accepting, idle, IsAnnounced, bytes_in, turns-IsAnnounced}
use iperf.Quic.Naming.{Between, steps, quic_accept-attach_stream}
use iperf.Quic.Connecting.{ends_connected, quic_connect-waits}

abbrev fresh : StreamCtx
fresh = record { stream = some 7; chunks = []; queued = 0; pending_sends = 0; fin = false }

abbrev stream : QuicStream
stream = record {
  ctx = some fresh;
  buffer = 0 ∷ 0 ∷ 0 ∷ 0 ∷ [];
  pending_size = 0;
  stop = false;
  bytes_sent = 0;
  bytes_sent_this_interval = 0;
  bytes_received = 0;
  bytes_received_this_interval = 0;
  cancel_disabled = false;
}

abbrev five : StreamEvent
five = receive ((1 ∷ 2 ∷ 3 ∷ [], true) ∷ (4 ∷ 5 ∷ [], true) ∷ [])

-- Five bytes come in the second wait; the test would end in the third.
quic_recv-Returns_example :
    (r : Io × QuicStream) × (quic_recv 4 true 7
        ((([], false) ∷ (five ∷ [], false) ∷ []) ++ (peer_send_shutdown ∷ [], true) ∷ [])
        stream
      ≡ some r)
    × ((sc' : StreamCtx) × (more : List ℕ) × Grows more fresh sc'
        × (nothing_yet sc' r.1.stop ≡ false)
        × IsRead 4 sc' r)
unfolding content
quic_recv-Returns_example =
    quic_recv-Returns 4 true 7 (([], false) ∷ (five ∷ [], false) ∷ []) (peer_send_shutdown ∷ [])
      stream fresh refl refl

abbrev empty_pipe : Pipe.Pipe
empty_pipe = record { sc = fresh; sp = stream; delivered = []; taken = [] }

turns-IsPipe_example : IsPipe (
    Pipe.turns 7
      (Pipe.event five ∷ Pipe.read 4 true ∷ Pipe.event peer_send_shutdown ∷ Pipe.read 4 true ∷ [])
      empty_pipe)
unfolding content
turns-IsPipe_example =
    turns-IsPipe 7
      (Pipe.event five ∷ Pipe.read 4 true ∷ Pipe.event peer_send_shutdown ∷ Pipe.read 4 true ∷ [])
      empty_pipe (record { in_order = refl; counted = refl })

abbrev nothing_sent : Sending
nothing_sent = record { sc = fresh; in_flight = 0; failed = 0 }

abbrev one_sent : Sending
one_sent = record nothing_sent {
  sc = context_of (send_now 4 true true fresh stream).1.ctx fresh;
  in_flight = 0 + 1;
}

one_completed :
    Reach 7 nothing_sent
      (record one_sent { sc = (stream_cb 7 send_complete one_sent.sc).0; in_flight = 0 + 1 - 1 })
one_completed =
    next (next here (accepted nothing_sent 4 stream refl refl)) (complete one_sent (omega arith))

Reach-IsBounded_example :
    IsBounded
      (record one_sent { sc = (stream_cb 7 send_complete one_sent.sc).0; in_flight = 0 + 1 - 1 })
Reach-IsBounded_example =
    Reach-IsBounded (record { counts = refl; bounded = omega arith }) one_completed

abbrev opened : QuicContext
opened = record {
  listener = true;
  conn = true;
  ready = false;
  done = false;
  nfd = some 0;
  next_id = 0;
  map = [];
  accepting = [];
}

-- Two streams start while the main loop is between its two steps.
abbrev busy : List Announcing.Turn
busy =
    Announcing.main_loop true
    ∷ Announcing.event (peer_stream_started (some 100) true)
    ∷ Announcing.event (peer_stream_started (some 200) true)
    ∷ Announcing.main_loop true
    ∷ []

abbrev waiting : Accepting
waiting = record { ctx = opened; phase = idle }

turns-IsAnnounced_example : 0 < bytes_in (Announcing.turns busy waiting).ctx.nfd
unfolding Announcing.turns
turns-IsAnnounced_example =
    turns-IsAnnounced busy waiting (record { is_open = refl; announced = omega arith }) refl
      (omega arith)

abbrev two_waiting : QuicContext
two_waiting = record opened { nfd = some 2; accepting = 100 ∷ 200 ∷ [] }

quic_accept-attach_stream_example :
    let (id, ctx') = quic_accept true two_waiting in
    (id ≡ some (0 + 1))
    × (ctx'.accepting ≡ 200 ∷ [])
    × ((attach_stream (0 + 1) (steps (Between.accept true ∷ Between.attach 2 ∷ []) ctx')).0
        ≡ some 100)
    × ((quic_accept false two_waiting).0 ≡ some (0 + 1))
    × ((quic_accept false two_waiting).1.accepting ≡ 200 ∷ [])
    × ((attach_stream (0 + 1) (quic_accept false two_waiting).1).0
        ≡ (take_entry (0 + 1) two_waiting.map).0)
quic_accept-attach_stream_example =
    quic_accept-attach_stream two_waiting 100 (200 ∷ [])
      (Between.accept true ∷ Between.attach 2 ∷ []) refl (refl, (omega arith, tt))

abbrev succeeding : ConnectCalls
succeeding = record {
  unlocked = [];
  connection_open = true;
  connection_start = true;
  stream_open = true;
  context_allocated = true;
  stream_start = true;
  entry_allocated = true;
}

-- The connection is refused, and another is made and shut down at once.
abbrev missed : List ConnWake
missed = told (conn_shutdown_complete ∷ []) ∷ told (connected ∷ conn_shutdown_complete ∷ []) ∷ []

quic_connect-waits_example :
    (quic_connect succeeding false missed 100 (record opened { conn = false }) ≡ none)
    × (quic_connect succeeding false
          (missed ++ told (conn_shutdown_complete ∷ connected ∷ []) ∷ [])
          100
          (record opened { conn = false })
        ≢ none)
unfolding ends_connected
quic_connect-waits_example =
    quic_connect-waits succeeding missed (conn_shutdown_complete ∷ connected ∷ []) 100
      (record opened { conn = false }) refl refl refl (refl, (refl, tt)) refl
