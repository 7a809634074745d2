-- ===== src/Quic/Pipe.antt =====
-- src/iperf_quic.c: a stream as a pipe of bytes, whatever the order in which MsQuic and the receiving thread
-- take its lock.
use iperf.Base.{ℕ, ◌≡◌, sym, ap, ◌∙◌, Bool, Option, some, List, [], ◌∷◌, ◌++◌, take, length}
use mathlib.Core.List.{append_assoc}
use iperf.Quic.{StreamCtx, StreamEvent}
use iperf.Quic.Streams.{stream_cb, QuicStream, min, recv_now}
use iperf.Quic.Receiving.{content, IsCounted, delivers, stream_cb-Grows}
use iperf.Quic.Waiting.{recv_now-IsRead}

-- One hold of the lock: by the callback, or by iperf_quic_recv after its wait, with the size of a block and
-- whether the test is running.
pub data Turn : Type 0 where
  event : StreamEvent → Turn
  read : ℕ → Bool → Turn

-- The context, the stream of the test, and the bytes that were delivered and read so far.
pub record Pipe : Type 0 where
  pub sc : StreamCtx
  pub sp : QuicStream
  pub delivered : List ℕ
  pub taken : List ℕ

abbrev pub context_of : Option StreamCtx → StreamCtx → StreamCtx
context_of (some sc) old = sc
context_of _ old = old

unfoldable pub turn : ℕ → Turn → Pipe → Pipe
unfolding stream_cb delivers recv_now
turn handle (event e) s = record s {
  sc = (stream_cb handle e s.sc).0;
  delivered = s.delivered ++ delivers e;
}
turn handle (read blksize running) s =
    let sp = (recv_now blksize running s.sc s.sp).1 in
    record s {
      sc = context_of sp.ctx s.sc;
      sp = sp;
      taken = s.taken ++ take (min blksize s.sc.queued) sp.buffer;
    }

unfoldable pub turns : ℕ → List Turn → Pipe → Pipe
unfolding turn
turns handle [] s = s
turns handle (t ∷ ts) s = turns handle ts (turn handle t s)

-- What was read and what waits is what was delivered, in this order, and the count of it is right.
pub record IsPipe (s : Pipe) : Type 0 where
  pub in_order : s.taken ++ content s.sc.chunks ≡ s.delivered
  pub counted : IsCounted s.sc

turn-IsPipe : (handle : ℕ) (t : Turn) (s : Pipe) → IsPipe s → IsPipe (turn handle t s)
unfolding turn
turn-IsPipe handle (event e) s i =
    let (grown, counted) = stream_cb-Grows handle e s.sc i.counted in
    record {
      in_order =
          ap (λ z. s.taken ++ z) grown
          ∙ sym (append_assoc s.taken (content s.sc.chunks) (delivers e))
          ∙ ap (λ z. z ++ delivers e) i.in_order;
      counted = counted;
    }
turn-IsPipe handle (read blksize running) s i =
    let (left, is, counted, _, whole, _) = recv_now-IsRead blksize running s.sc s.sp i.counted in
    let sp = (recv_now blksize running s.sc s.sp).1 in
    let new = take (min blksize s.sc.queued) sp.buffer in
    let is_left : context_of sp.ctx s.sc ≡ left = ap (λ o. context_of o s.sc) is in
    record {
      in_order =
          ap (λ (c : StreamCtx). (s.taken ++ new) ++ content c.chunks) is_left
          ∙ append_assoc s.taken new (content left.chunks)
          ∙ ap (λ z. s.taken ++ z) whole
          ∙ i.in_order;
      counted =
          ap (λ (c : StreamCtx). c.queued) is_left
          ∙ counted
          ∙ ap (λ (c : StreamCtx). length (content c.chunks)) (sym is_left);
    }

-- A stream of QUIC is a pipe: in every interleaving of the callbacks of MsQuic with the reads of the receiving
-- thread, the bytes read, followed by those that wait, are exactly the bytes that were delivered and copied, in
-- order, and the count of the waiting ones is kept.
pub turns-IsPipe : (handle : ℕ) (ts : List Turn) (s : Pipe) → IsPipe s → IsPipe (turns handle ts s)
unfolding turns
turns-IsPipe handle [] s i = i
turns-IsPipe handle (t ∷ ts) s i =
    turns-IsPipe handle ts (turn handle t s) (turn-IsPipe handle t s i)
