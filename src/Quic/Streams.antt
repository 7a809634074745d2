-- ===== src/Quic/Streams.antt =====
-- src/iperf_quic.c: `stream_cb`, `iperf_quic_send`, `iperf_quic_recv` and the end of a stream.
use iperf.Base.{
  ℕ, zero, suc, ◌+◌, ◌-◌, Bool, true, false, not, ◌&&◌, ◌||◌, Option, none, some, List, [], ◌∷◌,
  ◌++◌, if◌then◌else◌, ltb, leb, ◌==◌, length, take, drop, u64,
}
use iperf.Net.{Io, bytes, hard_error}
use iperf.Quic.{
  Chunk, StreamCtx, StreamEvent, send_complete, receive, peer_send_shutdown, peer_send_aborted,
  shutdown_complete, ApiCall, shutdown_graceful, close,
}

unfoldable pub quic_sc_new : ℕ → StreamCtx
quic_sc_new stream = record {
  stream = some stream;
  chunks = [];
  queued = 0;
  pending_sends = 0;
  fin = false;
}

abbrev pub enqueue : List ℕ → StreamCtx → StreamCtx
enqueue b sc = record sc {
  chunks = sc.chunks ++ (record { contents = b; off = 0 } ∷ []);
  queued = sc.queued + length b;
}

-- The buffers of an event, up to the first one without memory: what follows is lost.
unfoldable pub copy_in : List (List ℕ × Bool) → StreamCtx → StreamCtx
copy_in [] sc = sc
copy_in ((b, allocated) ∷ rest) sc = if allocated then copy_in rest (enqueue b sc) else sc

-- `Stream` is the handle that MsQuic passes; the calls that are made of it stand beside the new state.
unfoldable pub stream_cb : ℕ → StreamEvent → StreamCtx → StreamCtx × List ApiCall
unfolding copy_in
stream_cb handle send_complete sc = (record sc { pending_sends = sc.pending_sends - 1 }, [])
stream_cb handle (receive buffers) sc = (copy_in buffers sc, [])
stream_cb handle peer_send_shutdown sc = (record sc { fin = true }, [])
stream_cb handle peer_send_aborted sc = (record sc { fin = true }, [])
stream_cb handle (shutdown_complete app_close) sc =
    (record sc { fin = true }, if app_close then [] else close handle ∷ [])

-- The state after some events of the stream.
unfoldable pub after : ℕ → List StreamEvent → StreamCtx → StreamCtx
unfolding stream_cb
after handle [] sc = sc
after handle (e ∷ es) sc = after handle es (stream_cb handle e sc).0

-- The fields of `struct iperf_stream` and its result that the functions use; `stop` is `sp->done ||
-- sp->test->done`, and `cancel_disabled` the cancel state of the calling thread.
pub record QuicStream : Type 0 where
  pub ctx : Option StreamCtx
  pub buffer : List ℕ
  pub pending_size : ℕ
  pub stop : Bool
  pub bytes_sent : ℕ
  pub bytes_sent_this_interval : ℕ
  pub bytes_received : ℕ
  pub bytes_received_this_interval : ℕ
  pub cancel_disabled : Bool

-- What a wait of at most 100 ms sees: the events of the stream in it, and the flags after it.
abbrev pub Wake : Type 0
Wake = List StreamEvent × Bool

-- A loop around `pthread_cond_timedwait`: none if the script of its wakes ends first.
unfoldable pub wait_while :
    (StreamCtx → Bool → Bool) → ℕ → List Wake → StreamCtx → Bool → Option (StreamCtx × Bool)
unfolding after
wait_while test handle [] sc stop = if test sc stop then none else some (sc, stop)
wait_while test handle ((events, stop') ∷ wakes) sc stop =
    let rest = wait_while test handle wakes (after handle events sc) stop' in
    if test sc stop then rest else some (sc, stop)

abbrev pub nothing_yet : StreamCtx → Bool → Bool
nothing_yet sc stop = sc.queued == 0 && not sc.fin && not stop

-- QUIC_MAX_PENDING_SENDS
abbrev pub too_many_pending : StreamCtx → Bool → Bool
too_many_pending sc stop = leb 32 sc.pending_sends && not sc.fin && not stop

-- The loop of iperf_quic_recv, for the bytes still wanted: what is copied, and the queue that it leaves.
unfoldable pub take_chunks : ℕ → List Chunk → List ℕ × List Chunk
take_chunks zero cs = ([], cs)
take_chunks (suc n) [] = ([], [])
take_chunks (suc n) (c ∷ cs) =
    let avail = length c.contents - c.off in
    let rest = take_chunks (suc n - avail) cs in
    if ltb (suc n) avail
    then (take (suc n) (drop c.off c.contents), record c { off = c.off + suc n } ∷ cs)
    else (drop c.off c.contents ++ rest.0, rest.1)

abbrev pub hand_over : Bool → List ℕ → List Chunk → StreamCtx → QuicStream → Io × QuicStream
hand_over running got chunks sc sp =
    let n = length got in
    (
      bytes n,
      record sp {
        ctx = some (record sc { chunks = chunks; queued = sc.queued - n });
        buffer = got ++ drop n sp.buffer;
        bytes_received = if running then u64 (sp.bytes_received + n) else sp.bytes_received;
        bytes_received_this_interval =
            if running
            then u64 (sp.bytes_received_this_interval + n)
            else sp.bytes_received_this_interval;
        cancel_disabled = false;
      },
    )

abbrev pub min : ℕ → ℕ → ℕ
min a b = if ltb b a then b else a

-- From the wait on.
unfoldable pub recv_now : ℕ → Bool → StreamCtx → QuicStream → Io × QuicStream
unfolding take_chunks
recv_now blksize running sc sp =
    if sc.queued == 0
    then (bytes 0, record sp { ctx = some sc; cancel_disabled = false })
    else (let (got, chunks) = take_chunks (min blksize sc.queued) sc.chunks in
        hand_over running got chunks sc sp)

abbrev pub then_recv : ℕ → Bool → QuicStream → Option (StreamCtx × Bool) → Option (Io × QuicStream)
then_recv blksize running sp none = none
then_recv blksize running sp (some (sc, stop)) =
    some (recv_now blksize running sc (record sp { stop = stop }))

abbrev pub recv_on :
    ℕ → Bool → ℕ → List Wake → QuicStream → Option StreamCtx → Option (Io × QuicStream)
recv_on blksize running handle wakes sp none = some (hard_error, sp)
recv_on blksize running handle wakes sp (some sc) =
    then_recv blksize running sp (wait_while nothing_yet handle wakes sc sp.stop)

-- `running` is whether the state of the test is TEST_RUNNING. The cancel state is the one before, enabled.
unfoldable pub quic_recv : ℕ → Bool → ℕ → List Wake → QuicStream → Option (Io × QuicStream)
unfolding wait_while recv_now
quic_recv blksize running handle wakes sp = recv_on blksize running handle wakes sp sp.ctx

-- From the wait on, with what `malloc` and StreamSend answer; the data that is handed to MsQuic stands last.
-- The returns on an error leave the cancel state, and the count of pending sends, as they are.
unfoldable pub send_now :
    ℕ → Bool → Bool → StreamCtx → QuicStream → Io × QuicStream × Option (List ℕ)
send_now blksize allocated accepted sc sp =
    if sc.fin || sp.stop
    then (bytes 0, record sp { ctx = some sc; cancel_disabled = false }, none)
    else (let len = if sp.pending_size == 0 then blksize else sp.pending_size in
        let sp' = record sp {
          ctx = some (record sc { pending_sends = sc.pending_sends + 1 });
          pending_size = len;
          cancel_disabled = true;
        } in
        if allocated && accepted
        then (
          bytes len,
          record sp' {
            pending_size = 0;
            bytes_sent = u64 (sp.bytes_sent + len);
            bytes_sent_this_interval = u64 (sp.bytes_sent_this_interval + len);
            cancel_disabled = false;
          },
          some (take len sp.buffer),
        )
        else (hard_error, sp', none))

abbrev pub then_send :
    ℕ
    → Bool
    → Bool
    → QuicStream
    → Option (StreamCtx × Bool)
    → Option (Io × QuicStream × Option (List ℕ))
then_send blksize allocated accepted sp none = none
then_send blksize allocated accepted sp (some (sc, stop)) =
    some (send_now blksize allocated accepted sc (record sp { stop = stop }))

abbrev pub send_on :
    ℕ
    → Bool
    → Bool
    → ℕ
    → List Wake
    → QuicStream
    → Option StreamCtx
    → Option (Io × QuicStream × Option (List ℕ))
send_on blksize allocated accepted handle wakes sp none = some (hard_error, sp, none)
send_on blksize allocated accepted handle wakes sp (some sc) =
    then_send blksize allocated accepted sp (wait_while too_many_pending handle wakes sc sp.stop)

unfoldable pub quic_send :
    ℕ → Bool → Bool → ℕ → List Wake → QuicStream → Option (Io × QuicStream × Option (List ℕ))
unfolding wait_while send_now
quic_send blksize allocated accepted handle wakes sp =
    send_on blksize allocated accepted handle wakes sp sp.ctx

unfoldable pub close_stream : StreamCtx → StreamCtx × List ApiCall
close_stream sc = elim sc.stream [
  | none ↦ (sc, [])
  | some h ↦ (record sc { stream = none }, shutdown_graceful h ∷ close h ∷ [])
]

-- Where the test still has its context of QUIC the stream is closed; its own context is freed.
unfoldable pub stream_cleanup : Bool → QuicStream → QuicStream × List ApiCall
unfolding close_stream
stream_cleanup has_context sp = elim sp.ctx [
  | none ↦ (sp, [])
  | some sc ↦ (record sp { ctx = none }, if has_context then (close_stream sc).1 else [])
]
