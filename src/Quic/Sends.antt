-- ===== src/Quic/Sends.antt =====
-- src/iperf_quic.c: the sends of a stream that MsQuic has not completed.
use iperf.Base.{ℕ, ◌+◌, ◌-◌, ◌≤◌, ◌<◌, ◌≡◌, refl, Bool, true, false, ◌||◌, List, [], ◌∷◌, arith}
use iperf.Quic.{
  StreamCtx, StreamEvent, send_complete, receive, peer_send_shutdown, peer_send_aborted,
  shutdown_complete,
}
use iperf.Quic.Pipe.{context_of}
use iperf.Quic.Streams.{stream_cb, copy_in, enqueue, QuicStream, too_many_pending, send_now}

-- The context, and the sends that MsQuic has accepted and not completed, and those that have failed.
pub record Sending : Type 0 where
  pub sc : StreamCtx
  pub in_flight : ℕ
  pub failed : ℕ

abbrev is_send_complete : StreamEvent → Bool
is_send_complete send_complete = true
is_send_complete _ = false

-- One turn at the lock. MsQuic completes only sends that it has accepted; a send comes after its wait.
pub data Step (handle : ℕ) : Sending → Sending → Type 0 where
  complete :
      (s : Sending)
      → 0 < s.in_flight
      → Step handle s
          (record s { sc = (stream_cb handle send_complete s.sc).0; in_flight = s.in_flight - 1 })
  other_event :
      (s : Sending) (e : StreamEvent)
      → is_send_complete e ≡ false
      → Step handle s (record s { sc = (stream_cb handle e s.sc).0 })
  accepted :
      (s : Sending) (blksize : ℕ) (sp : QuicStream)
      → too_many_pending s.sc sp.stop ≡ false
      → (s.sc.fin || sp.stop) ≡ false
      → Step handle s (record s {
        sc = context_of (send_now blksize true true s.sc sp).1.ctx s.sc;
        in_flight = s.in_flight + 1;
      })
  refused :
      (s : Sending) (blksize : ℕ) (allocated : Bool) (sp : QuicStream)
      → too_many_pending s.sc sp.stop ≡ false
      → (s.sc.fin || sp.stop) ≡ false
      → Step handle s (record s {
        sc = context_of (send_now blksize allocated false s.sc sp).1.ctx s.sc;
        failed = s.failed + 1;
      })

pub data Reach (handle : ℕ) (s : Sending) : Sending → Type 0 where
  here : Reach handle s s
  next : {t u : Sending} → Reach handle s t → Step handle t u → Reach handle s u

-- QUIC_MAX_PENDING_SENDS bounds what is under way; a send that fails is never taken off the count.
pub record IsBounded (s : Sending) : Type 0 where
  pub counts : s.sc.pending_sends ≡ s.in_flight + s.failed
  pub bounded : s.sc.pending_sends ≤ 32

copy_in-pending :
    (b : List (List ℕ × Bool)) (sc : StreamCtx) → (copy_in b sc).pending_sends ≡ sc.pending_sends
unfolding copy_in
copy_in-pending [] sc = refl
copy_in-pending ((b, true) ∷ rest) sc = copy_in-pending rest (enqueue b sc)
copy_in-pending ((b, false) ∷ rest) sc = refl

other_event-pending :
    (handle : ℕ) (e : StreamEvent) (sc : StreamCtx)
    → is_send_complete e ≡ false
    → (stream_cb handle e sc).0.pending_sends ≡ sc.pending_sends
unfolding stream_cb
other_event-pending handle send_complete sc h = absurd cc
other_event-pending handle (receive b) sc h = copy_in-pending b sc
other_event-pending handle peer_send_shutdown sc h = refl
other_event-pending handle peer_send_aborted sc h = refl
other_event-pending handle (shutdown_complete app_close) sc h = refl

Step-IsBounded : {handle : ℕ} {s t : Sending} → Step handle s t → IsBounded s → IsBounded t
unfolding stream_cb send_now
Step-IsBounded (complete s h) i = ground arith
Step-IsBounded {handle} (other_event s e h) i = ground (arith, other_event-pending handle e s.sc h)
Step-IsBounded (accepted s blksize sp h k) i = ground arith
Step-IsBounded (refused s blksize allocated sp h k) i = ground arith

-- In every interleaving the number of pending sends is the number of those that MsQuic has accepted and not
-- completed and of those that have failed, and never more than 32.
pub Reach-IsBounded : {handle : ℕ} {s t : Sending} → IsBounded s → Reach handle s t → IsBounded t
Reach-IsBounded i here = i
Reach-IsBounded i (next r st) = Step-IsBounded st (Reach-IsBounded i r)
