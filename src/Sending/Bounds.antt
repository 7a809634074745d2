-- ===== src/Sending/Bounds.antt =====
-- How far a burst goes beyond the number of bytes that a test is to send.
use iperf.Base.{
  ℕ, zero, suc, ◌+◌, ◌*◌, ◌<◌, ◌≤◌, ◌≡◌, refl, sym, subst, ◌∙◌, inl, inr, Bool, true, false, not,
  ◌||◌, if◌then◌else◌, leb, ◌==◌, u64, arith, Bool-cases,
}
use iperf.Net.{Io, bytes, soft_error, hard_error}
use iperf.Sending.{
  iestreamwrite, Sender, StreamIo, Sent, sending_over, failed, check_throttle, throttle,
  wait_for_light, stops, count_message, send_loop, after_message, finish_sending, burst_size,
  throttle_check_per_message, send_mt,
}

-- A protocol's send that sends at most `m` bytes and during which the count of the test and its limit
-- stay: no other stream's thread counts bytes meanwhile.
pub record Sends {W : Type 0} (m : ℕ) (io : StreamIo W) : Type 0 where
  pub keeps_count : (s : Sender) (w : W) → (io.snd (s, w)).1.0.bytes_sent ≡ s.bytes_sent
  pub keeps_limit : (s : Sender) (w : W) → (io.snd (s, w)).1.0.bytes_limit ≡ s.bytes_limit
  pub at_most : (s : Sender) (w : W) (k : ℕ) → (io.snd (s, w)).0 ≡ bytes k → k ≤ m

abbrev pub outcome : {W : Type 0} → Sent W → Sender
outcome (sending_over b sw) = sw.0
outcome (failed sw) = sw.0

module _ {W : Type 0} (io : StreamIo W) where
  check_throttle-bytes_sent :
      (s : Sender) (w : W)
      → ((check_throttle io (s, w)).0.bytes_sent ≡ s.bytes_sent)
        × ((check_throttle io (s, w)).0.bytes_limit ≡ s.bytes_limit)
  unfolding check_throttle throttle wait_for_light
  check_throttle-bytes_sent s w = ground arith

  after_message-bytes_sent :
      (per : Bool) (s : Sender) (w : W)
      → ((after_message io per (s, w)).0.bytes_sent ≡ s.bytes_sent)
        × ((after_message io per (s, w)).0.bytes_limit ≡ s.bytes_limit)
  after_message-bytes_sent true s w = check_throttle-bytes_sent s w
  after_message-bytes_sent false s w = (refl, refl)

  finish_sending-bytes_sent :
      (check per : Bool) (o : Sent W)
      → (finish_sending io check per o).1.0.bytes_sent ≡ (outcome o).bytes_sent
  unfolding finish_sending
  finish_sending-bytes_sent check per (failed sw) = refl
  finish_sending-bytes_sent check per (sending_over b sw) =
      ground (arith, check_throttle-bytes_sent sw.0 sw.1)

  -- The test after a message.
  abbrev next_state : Bool → ℕ → Sender × W → Sender × W
  next_state per k (s, w) =
      after_message io per (count_message io k ((io.snd (s, w)).1.0), (io.snd (s, w)).1.1)

  next_state-bytes_sent :
      (m : ℕ) (per : Bool) (k : ℕ) (s : Sender) (w : W)
      → Sends m io
      → ((next_state per k (s, w)).0.bytes_sent ≡ u64 (s.bytes_sent + k))
        × ((next_state per k (s, w)).0.bytes_limit ≡ s.bytes_limit)
  unfolding count_message
  next_state-bytes_sent m per k s w h =
      let t : Sender = count_message io k ((io.snd (s, w)).1.0) in
      let (b, l) = after_message-bytes_sent per t ((io.snd (s, w)).1.1) in
      (b ∙ rw (h.keeps_count s w) refl, l ∙ h.keeps_limit s w)

  loop_body :
      (Q : ℕ → Type 0) (b : Bool) (s s' : Sender) (w w' : W) (rest : ℕ → Sent W) (c : Bool) (r : Io)
      → Q s.bytes_sent
      → s'.bytes_sent ≡ s.bytes_sent
      → (c ≡ false → (k : ℕ) → r ≡ bytes k → Q (outcome (rest k)).bytes_sent)
      → Q
          (outcome (
            if c then sending_over b (s, w) else elim r [
              | soft_error ↦ sending_over b (s', w')
              | hard_error ↦ failed (record s' { i_errno = iestreamwrite }, w')
              | bytes k ↦ rest k
            ])).bytes_sent
  loop_body Q b s s' w w' rest true r q e f = q
  loop_body Q b s s' w w' rest false soft_error q e f = subst Q (sym e) q
  loop_body Q b s s' w w' rest false hard_error q e f = subst Q (sym e) q
  loop_body Q b s s' w w' rest false (bytes k) q e f = f refl k refl

  -- A round of the loop stops, or sends and goes on.
  send_loop_round :
      (Q : ℕ → Type 0) (m : ℕ) (per : Bool) (n : ℕ) (b : Bool) (s : Sender) (w : W)
      → Sends m io
      → Q s.bytes_sent
      → (stops io (suc n) s ≡ false
          → (k : ℕ) → k ≤ m
          → Q (outcome (send_loop io per n true (next_state per k (s, w)))).bytes_sent)
      → Q (outcome (send_loop io per (suc n) b (s, w))).bytes_sent
  unfolding send_loop
  send_loop_round Q m per n b s w h q f =
      loop_body Q b s ((io.snd (s, w)).1.0) w ((io.snd (s, w)).1.1)
        (λ k. send_loop io per n true (next_state per k (s, w)))
        (not s.green_light || stops io (suc n) s) ((io.snd (s, w)).0) q (h.keeps_count s w)
        (λ c k e. f (ground arith) k (h.at_most s w k e))

  send_loop_end :
      (per b : Bool) (sw : Sender × W)
      → (outcome (send_loop io per zero b sw)).bytes_sent ≡ sw.0.bytes_sent
  unfolding send_loop
  send_loop_end per b sw = refl

  stops_beyond :
      (n : ℕ) (s : Sender)
      → 0 < s.bytes_limit
      → s.bytes_limit ≤ s.bytes_sent
      → stops io (suc (suc n)) s ≡ true
  unfolding stops
  stops_beyond n s l r = ground arith

  -- Once the limit is reached, at most one message is sent.
  beyond :
      (m : ℕ) (per : Bool) (n : ℕ) (b : Bool) (s : Sender) (w : W)
      → Sends m io
      → 0 < s.bytes_limit
      → s.bytes_limit ≤ s.bytes_sent
      → s.bytes_sent + m < 18446744073709551616
      → (outcome (send_loop io per n b (s, w))).bytes_sent ≤ s.bytes_sent + m
  beyond m per zero b s w h l r f = omega (arith, send_loop_end per b (s, w))
  beyond m per (suc zero) b s w h l r f =
      send_loop_round (λ x. x ≤ s.bytes_sent + m) m per 0 b s w h (omega arith)
        (λ _ k le. omega (
          arith,
          send_loop_end per true (next_state per k (s, w)),
          (next_state-bytes_sent m per k s w h).0,
        ))
  beyond m per (suc (suc n)) b s w h l r f =
      send_loop_round (λ x. x ≤ s.bytes_sent + m) m per (suc n) b s w h (omega arith)
        (λ go k le. absurd (ground (arith, stops_beyond n s l r)))

  abbrev Within : ℕ → Bool → ℕ → Type 0
  Within m per n =
      (b : Bool) (s : Sender) (w : W)
      → 0 < s.bytes_limit
      → s.bytes_sent < s.bytes_limit
      → s.bytes_limit + 2 * m < 18446744073709551616
      → (outcome (send_loop io per n b (s, w))).bytes_sent < s.bytes_limit + 2 * m

  -- A message before the limit: what follows it is bounded, whether it reaches the limit or not.
  one_more :
      (m : ℕ) (per : Bool) (n : ℕ) (s : Sender) (w : W)
      → Sends m io
      → Within m per n
      → 0 < s.bytes_limit
      → s.bytes_sent < s.bytes_limit
      → s.bytes_limit + 2 * m < 18446744073709551616
      → (k : ℕ) → k ≤ m
      → (outcome (send_loop io per n true (next_state per k (s, w)))).bytes_sent
        < s.bytes_limit + 2 * m
  one_more m per n s w h later l r f k le =
      let t : Sender × W = next_state per k (s, w) in
      let (c, i) = next_state-bytes_sent m per k s w h in
      elim (Bool-cases (leb s.bytes_limit (s.bytes_sent + k))) [
        | inl e ↦
            let reached : s.bytes_limit ≤ s.bytes_sent + k = ground arith in
            omega (
              arith,
              beyond m per n true (t.0) (t.1) h (omega (arith, i)) (omega (arith, c, i))
                  (omega (arith, c)),
              c,
            )
        | inr e ↦
            let left : s.bytes_sent + k < s.bytes_limit = ground arith in
            omega (
              arith,
              later true (t.0) (t.1) (omega (arith, i)) (omega (arith, c, i)) (omega (arith, i)),
              i,
            )
      ]

  within : (m : ℕ) (per : Bool) (n : ℕ) → Sends m io → Within m per n
  within m per zero h b s w l r f = omega (arith, send_loop_end per b (s, w))
  within m per (suc n) h b s w l r f =
      send_loop_round (λ x. x < s.bytes_limit + 2 * m) m per n b s w h (omega arith)
        (λ _ k le. one_more m per n s w h (within m per n h) l r f k le)

  -- For a stream whose thread is the only one that counts bytes of the test while `iperf_send_mt`
  -- runs, so that a send of the protocol leaves the test's count as it is: where the test is limited
  -- in bytes and has not come to the limit, and the protocol sends at most `m` bytes at a time,
  -- `iperf_send_mt` returns with less than 2 `m` bytes beyond the limit, whatever the burst and the
  -- throttle.
  pub send_mt_bound :
      (m : ℕ) (s : Sender) (w : W)
      → Sends m io
      → s.bytes_sent < s.bytes_limit
      → s.bytes_limit + 2 * m < 18446744073709551616
      → (send_mt io (s, w)).1.0.bytes_sent < s.bytes_limit + 2 * m
  unfolding send_mt
  send_mt_bound m s w h l f = omega (
    arith,
    finish_sending-bytes_sent (not (s.rate == 0)) (throttle_check_per_message io s)
        (send_loop io (throttle_check_per_message io s) (burst_size io s) false (s, w)),
    within m (throttle_check_per_message io s) (burst_size io s) h false s w (omega arith) l f,
  )
