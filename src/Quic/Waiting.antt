-- ===== src/Quic/Waiting.antt =====
-- src/iperf_quic.c: the waits of `iperf_quic_recv` and `iperf_quic_send`, and what they return.
use iperf.Base.{
  take-append, ℕ, ◌-◌, ◌≤◌, ◌≡◌, ◌≢◌, refl, sym, ap, ◌∙◌, subst, Bool, true, false, Option, none,
  some, List, [], ◌∷◌, ◌++◌, inl, inr, ◌==◌, arith, length, length-append, take, drop, Bool-cases,
  Option-cases,
}
use mathlib.Core.List.{append-nil, append_assoc}
use iperf.Net.{Io, bytes}
use iperf.Quic.{Chunk, StreamCtx, StreamEvent}
use iperf.Quic.Streams.{
  after, take_chunks, QuicStream, Wake, wait_while, nothing_yet, min, hand_over, recv_now,
  then_recv, recv_on, quic_recv,
}
use iperf.Quic.Receiving.{
  content, IsCounted, Grows, all_delivers, after-Grows, take_chunks-content, take_chunks-length,
}

-- A wait ends by its test, with the queue grown by what came meanwhile.
abbrev pub Waited : (StreamCtx → Bool → Bool) → StreamCtx → StreamCtx → Bool → Type 0
Waited test sc sc' stop' = (test sc' stop' ≡ false) × ((more : List ℕ) × Grows more sc sc')

settled :
    (test : StreamCtx → Bool → Bool) (sc : StreamCtx) (stop : Bool) (sc' : StreamCtx) (stop' : Bool)
    → IsCounted sc
    → test sc stop ≡ false
    → ◌≡◌ {A = Option (StreamCtx × Bool)} (some (sc, stop)) (some (sc', stop'))
    → Waited test sc sc' stop'
settled test sc stop sc' stop' k e h =
    let same : ◌≡◌ {A = StreamCtx × Bool} (sc, stop) (sc', stop') = cc in
    subst (λ (z : StreamCtx × Bool). Waited test sc z.0 z.1) same
      (e, ([], (sym (append-nil (content sc.chunks)), k)))

pub wait_while-Waited :
    (test : StreamCtx → Bool → Bool) (handle : ℕ) (wakes : List Wake) (sc : StreamCtx) (stop : Bool)
    (sc' : StreamCtx) (stop' : Bool)
    → IsCounted sc
    → wait_while test handle wakes sc stop ≡ some (sc', stop')
    → Waited test sc sc' stop'
unfolding wait_while
wait_while-Waited test handle [] sc stop sc' stop' k h = elim (Bool-cases (test sc stop)) [
  | inl e ↦ absurd (ground (arith, e, h))
  | inr e ↦ settled test sc stop sc' stop' k e (rw e at h)
]
wait_while-Waited test handle ((events, s) ∷ wakes) sc stop sc' stop' k h =
    elim (Bool-cases (test sc stop)) [
      | inl e ↦
          let (grown, counted) = after-Grows handle events sc k in
          let (ended, (more, (grown', counted'))) =
            wait_while-Waited test handle wakes (after handle events sc) s sc' stop' counted
              (rw e at h) in
          (
            ended,
            (
              all_delivers events ++ more,
              (
                grown'
                    ∙ ap (λ z. z ++ more) grown
                    ∙ append_assoc (content sc.chunks) (all_delivers events) more,
                counted',
              ),
            ),
          )
      | inr e ↦ settled test sc stop sc' stop' k e (rw e at h)
    ]

-- A test that the flags end ends the wait, once they are set.
pub wait_while-ends :
    (test : StreamCtx → Bool → Bool) (handle : ℕ) (wakes : List Wake) (events : List StreamEvent)
    (sc : StreamCtx) (stop : Bool)
    → ((c : StreamCtx) → test c true ≡ false)
    → wait_while test handle (wakes ++ (events, true) ∷ []) sc stop ≢ none
unfolding wait_while
wait_while-ends test handle [] events sc stop d = ground (arith, d (after handle events sc))
wait_while-ends test handle ((es, s) ∷ wakes) events sc stop d =
    ground (arith, wait_while-ends test handle wakes events (after handle es sc) s d)

-- A thread that is told to stop, or that the peer has ended, or for which data wait, gets what is there.
abbrev pub IsRead : ℕ → StreamCtx → Io × QuicStream → Type 0
IsRead blksize sc r =
    (left : StreamCtx) × (r.1.ctx ≡ some left)
    × IsCounted left
    × (r.0 ≡ bytes (min blksize sc.queued))
    × (take (min blksize sc.queued) r.1.buffer ++ content left.chunks ≡ content sc.chunks)
    × (r.1.cancel_disabled ≡ false)

hand_over-IsRead :
    (blksize : ℕ) (running : Bool) (sc : StreamCtx) (sp : QuicStream) (got : List ℕ)
    (chunks : List Chunk)
    → IsCounted sc
    → got ++ content chunks ≡ content sc.chunks
    → length got ≡ min blksize sc.queued
    → IsRead blksize sc (hand_over running got chunks sc sp)
hand_over-IsRead blksize running sc sp got chunks k whole n = (
  record sc { chunks = chunks; queued = sc.queued - length got },
  refl,
  omega (arith, k, ap length whole, length-append got (content chunks)),
  ap bytes n,
  ap (λ m. take m (got ++ drop (length got) sp.buffer) ++ content chunks) (sym n)
      ∙ ap (λ z. z ++ content chunks) (take-append got (drop (length got) sp.buffer))
      ∙ whole,
  refl,
)

pub recv_now-IsRead :
    (blksize : ℕ) (running : Bool) (sc : StreamCtx) (sp : QuicStream)
    → IsCounted sc
    → IsRead blksize sc (recv_now blksize running sc sp)
unfolding recv_now
recv_now-IsRead blksize running sc sp k = elim (Bool-cases (sc.queued == 0)) [
  | inl e ↦
      let none_there : min blksize sc.queued ≡ 0 = ground (arith, e) in
      rw e (
        sc,
        refl,
        k,
        ap bytes (sym none_there),
        ap (λ m. take m sp.buffer ++ content sc.chunks) none_there,
        refl,
      )
  | inr e ↦
      let fits : min blksize sc.queued ≤ length (content sc.chunks) = ground (arith, k) in
      let (got, chunks) = take_chunks (min blksize sc.queued) sc.chunks in
      rw e (
        hand_over-IsRead blksize running sc sp got chunks k
          (take_chunks-content (min blksize sc.queued) sc.chunks)
          (take_chunks-length (min blksize sc.queued) sc.chunks fits))
]

module _ (blksize : ℕ) (running : Bool) (handle : ℕ) where
  recv_after :
      (wakes : List Wake) (sp : QuicStream) (sc : StreamCtx) (o : Option (StreamCtx × Bool))
      → sp.ctx ≡ some sc
      → wait_while nothing_yet handle wakes sc sp.stop ≡ o
      → quic_recv blksize running handle wakes sp ≡ then_recv blksize running sp o
  unfolding quic_recv
  recv_after wakes sp sc o c w =
      ap (recv_on blksize running handle wakes sp) c ∙ ap (then_recv blksize running sp) w

  now_stop : (sc : StreamCtx) (sp : QuicStream) → (recv_now blksize running sc sp).1.stop ≡ sp.stop
  unfolding recv_now
  now_stop sc sp = ground arith

  -- `iperf_quic_recv` returns as soon as the test is over. It reads from what has waited and what has come
  -- meanwhile: at most a block, the first bytes of it, and leaves the rest in order. It reads nothing only where
  -- the peer has ended the stream or the test is over, or with no size of a block.
  pub quic_recv-Returns :
      (wakes : List Wake) (events : List StreamEvent) (sp : QuicStream) (sc : StreamCtx)
      → sp.ctx ≡ some sc
      → IsCounted sc
      → (r : Io × QuicStream) × (quic_recv blksize running handle (wakes ++ (events, true) ∷ []) sp
          ≡ some r)
        × ((sc' : StreamCtx) × (more : List ℕ) × Grows more sc sc'
            × (nothing_yet sc' r.1.stop ≡ false)
            × IsRead blksize sc' r)
  quic_recv-Returns wakes events sp sc c k =
      let script = wakes ++ (events, true) ∷ [] in
      elim (Option-cases (wait_while nothing_yet handle script sc sp.stop)) [
        | inl e ↦
            absurd
              (wait_while-ends nothing_yet handle wakes events sc sp.stop (λ d. ground arith) e)
        | inr ((sc', stop), e) ↦
            let (ended, (more, grown)) =
              wait_while-Waited nothing_yet handle script sc sp.stop sc' stop k e in
            (
              recv_now blksize running sc' (record sp { stop = stop }),
              recv_after script sp sc (some (sc', stop)) c e,
              (
                sc',
                more,
                grown,
                ap (nothing_yet sc') (now_stop sc' (record sp { stop = stop })) ∙ ended,
                recv_now-IsRead blksize running sc' (record sp { stop = stop }) grown.1,
              ),
            )
      ]
