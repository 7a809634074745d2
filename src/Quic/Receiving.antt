-- ===== src/Quic/Receiving.antt =====
-- src/iperf_quic.c: what `iperf_quic_recv` takes from the queue of a stream.
use iperf.Base.{
  ℕ, zero, suc, ◌+◌, ◌-◌, ◌≤◌, ◌≡◌, refl, sym, ap, ◌∙◌, Bool, true, false, List, [], ◌∷◌, ◌++◌, inl,
  inr, if◌then◌else◌, ltb, arith, length, length-append, length-drop, take, drop, take-append-drop,
  length-take, Bool-cases,
}
use mathlib.Core.List.{append-nil, append_assoc}
use iperf.Quic.{
  Chunk, StreamCtx, StreamEvent, send_complete, receive, peer_send_shutdown, peer_send_aborted,
  shutdown_complete,
}
use iperf.Quic.Streams.{enqueue, copy_in, stream_cb, after, take_chunks}

-- The bytes that wait in a queue.
unfoldable pub content : List Chunk → List ℕ
content [] = []
content (c ∷ cs) = drop c.off c.contents ++ content cs

abbrev pub IsCounted : StreamCtx → Type 0
IsCounted sc = sc.queued ≡ length (content sc.chunks)

drop-add {ℓ} : {A : Type ℓ} (o n : ℕ) (xs : List A) → drop n (drop o xs) ≡ drop (o + n) xs
drop-add zero n xs = let e : n ≡ 0 + n = omega arith in ap (λ k. drop k xs) e
drop-add (suc o) zero xs = let e : suc o ≡ suc o + 0 = omega arith in ap (λ k. drop k xs) e
drop-add (suc o) (suc n) [] =
    let e : suc (o + suc n) ≡ suc o + suc n = omega arith in ap (λ k. drop k []) e
drop-add (suc o) (suc n) (x ∷ xs) =
    let e : suc (o + suc n) ≡ suc o + suc n = omega arith in
    drop-add o (suc n) xs ∙ ap (λ k. drop k (x ∷ xs)) e

content-snoc :
    (cs : List Chunk) (b : List ℕ)
    → content (cs ++ record { contents = b; off = 0 } ∷ []) ≡ content cs ++ b
unfolding content
content-snoc [] b = append-nil b
content-snoc (c ∷ cs) b =
    ap (λ z. drop c.off c.contents ++ z) (content-snoc cs b)
    ∙ sym (append_assoc (drop c.off c.contents) (content cs) b)

-- What is copied, and what is left, are the bytes that waited.
pub take_chunks-content :
    (n : ℕ) (cs : List Chunk) → (take_chunks n cs).0 ++ content (take_chunks n cs).1 ≡ content cs
unfolding take_chunks content
take_chunks-content zero cs = refl
take_chunks-content (suc n) [] = refl
take_chunks-content (suc n) (c ∷ cs) =
    let rest = take_chunks (suc n - (length c.contents - c.off)) cs in
    elim (Bool-cases (ltb (suc n) (length c.contents - c.off))) [
      | inl e ↦ rw e (
          ap (λ z. take (suc n) (drop c.off c.contents) ++ (z ++ content cs))
            (sym (drop-add c.off (suc n) c.contents))
          ∙ sym (
              append_assoc (take (suc n) (drop c.off c.contents))
                (drop (suc n) (drop c.off c.contents)) (content cs))
          ∙ ap (λ z. z ++ content cs) (take-append-drop (suc n) (drop c.off c.contents)))
      | inr e ↦ rw e (
          append_assoc (drop c.off c.contents) rest.0 (content rest.1)
          ∙ ap (λ z. drop c.off c.contents ++ z)
              (take_chunks-content (suc n - (length c.contents - c.off)) cs))
    ]

pub take_chunks-length :
    (n : ℕ) (cs : List Chunk) → n ≤ length (content cs) → length (take_chunks n cs).0 ≡ n
unfolding take_chunks content
take_chunks-length zero cs h = refl
take_chunks-length (suc n) [] h = omega (arith, h)
take_chunks-length (suc n) (c ∷ cs) h =
    let avail : ℕ = length c.contents - c.off in
    let rest = take_chunks (suc n - (length c.contents - c.off)) cs in
    let waiting = length-append (drop c.off c.contents) (content cs) in
    let first = length-drop c.off c.contents in
    elim (Bool-cases (ltb (suc n) (length c.contents - c.off))) [
      | inl e ↦ rw e (length-take (suc n) (drop c.off c.contents) (ground (arith, first, e)))
      | inr e ↦ rw e (
          length-append (drop c.off c.contents) rest.0
          ∙ ground (
            arith,
            e,
            first,
            waiting,
            take_chunks-length (suc n - (length c.contents - c.off)) cs
                (ground (arith, e, first, waiting)),
          ))
    ]

-- What the events of a stream add to its queue.
unfoldable pub copied : List (List ℕ × Bool) → List ℕ
copied [] = []
copied ((b, allocated) ∷ rest) = if allocated then b ++ copied rest else []

unfoldable pub delivers : StreamEvent → List ℕ
unfolding copied
delivers (receive buffers) = copied buffers
delivers _ = []

unfoldable pub all_delivers : List StreamEvent → List ℕ
unfolding delivers
all_delivers [] = []
all_delivers (e ∷ es) = delivers e ++ all_delivers es

-- The queue grows by some bytes, and its count with it.
abbrev pub Grows : List ℕ → StreamCtx → StreamCtx → Type 0
Grows more sc sc' = (content sc'.chunks ≡ content sc.chunks ++ more) × IsCounted sc'

enqueue-Grows : (b : List ℕ) (sc : StreamCtx) → IsCounted sc → Grows b sc (enqueue b sc)
enqueue-Grows b sc k = (
  content-snoc sc.chunks b,
  omega (arith, k, ap length (content-snoc sc.chunks b), length-append (content sc.chunks) b),
)

copy_in-Grows :
    (buffers : List (List ℕ × Bool)) (sc : StreamCtx)
    → IsCounted sc
    → Grows (copied buffers) sc (copy_in buffers sc)
unfolding copy_in copied
copy_in-Grows [] sc k = (sym (append-nil (content sc.chunks)), k)
copy_in-Grows ((b, true) ∷ rest) sc k =
    let (grown, counted) = enqueue-Grows b sc k in
    let (grown', counted') = copy_in-Grows rest (enqueue b sc) counted in
    (
      grown' ∙ ap (λ z. z ++ copied rest) grown ∙ append_assoc (content sc.chunks) b (copied rest),
      counted',
    )
copy_in-Grows ((b, false) ∷ rest) sc k = (sym (append-nil (content sc.chunks)), k)

pub stream_cb-Grows :
    (handle : ℕ) (e : StreamEvent) (sc : StreamCtx)
    → IsCounted sc
    → Grows (delivers e) sc (stream_cb handle e sc).0
unfolding stream_cb delivers
stream_cb-Grows handle send_complete sc k = (sym (append-nil (content sc.chunks)), k)
stream_cb-Grows handle (receive buffers) sc k = copy_in-Grows buffers sc k
stream_cb-Grows handle peer_send_shutdown sc k = (sym (append-nil (content sc.chunks)), k)
stream_cb-Grows handle peer_send_aborted sc k = (sym (append-nil (content sc.chunks)), k)
stream_cb-Grows handle (shutdown_complete app_close) sc k =
    (sym (append-nil (content sc.chunks)), k)

pub after-Grows :
    (handle : ℕ) (events : List StreamEvent) (sc : StreamCtx)
    → IsCounted sc
    → Grows (all_delivers events) sc (after handle events sc)
unfolding after all_delivers
after-Grows handle [] sc k = (sym (append-nil (content sc.chunks)), k)
after-Grows handle (e ∷ es) sc k =
    let (grown, counted) = stream_cb-Grows handle e sc k in
    let (grown', counted') = after-Grows handle es (stream_cb handle e sc).0 counted in
    (
      grown'
          ∙ ap (λ z. z ++ all_delivers es) grown
          ∙ append_assoc (content sc.chunks) (delivers e) (all_delivers es),
      counted',
    )
