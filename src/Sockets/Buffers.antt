-- ===== src/Sockets/Buffers.antt =====
-- src/iperf_udp.c: the size of the socket buffers of a stream.
use iperf.Base.{
  ℕ, ◌+◌, ◌<◌, ◌≡◌, refl, sym, ap, subst, ◌∙◌, Bool, true, false, ◌||◌, List, ◌∷◌, ◌⊎◌, inl, inr,
  if◌then◌else◌, arith,
}
use iperf.Base.Int.{ℤ, pos, ltb_ℤ, ◌+ℤ◌, to_int_lem}
use iperf.Sockets.{
  SockOpt, receive_buffer, send_buffer, Call, get_option, Kernel, Process, Op, set_errno, iesetbuf,
  iesetbuf2,
}
use iperf.Sockets.Triples.{After, Step, Step-then_do, Step-or_else}
use iperf.Sockets.Tcp.{is_enough, buffer_options, read_back}
use iperf.Sockets.Datagrams.{
  Buffers, refused, fit, small, is_small, set_and_read_send, received_buffer, sent_buffer,
  buffercheck, BuffersChecked, checked_again, checked, check_buffers, enlarged,
}

abbrev Any : Process → Type 0
Any w = true ≡ true

module _ (k : Kernel) where
  -- The size of a buffer was read last, and is at least the size that is asked for.
  abbrev JustRead : ℤ → SockOpt → (List Call → Type 0) → Process → Type 0
  JustRead n opt Q w =
      (c : List Call) × Q c
      × (w.calls ≡ get_option opt ∷ c)
      × (is_enough n (k.value w.calls opt) ≡ true)

  abbrev JustAsked : SockOpt → (List Call → Type 0) → Process → Type 0
  JustAsked opt Q w = (c : List Call) × Q c × (w.calls ≡ get_option opt ∷ c)

  ask-After :
      (opt : SockOpt) (Q : List Call → Type 0) (b : Bool) (w : Process)
      → Q w.calls
      → After (JustAsked opt Q) Any (b, record w { calls = get_option opt ∷ w.calls })
  ask-After opt Q true w q = (w.calls, q, refl)
  ask-After opt Q false w q = refl

  enough-After :
      (n : ℤ) (opt : SockOpt) (Q : List Call → Type 0) (b : Bool) (w : Process)
      → JustAsked opt Q w
      → is_enough n (k.value w.calls opt) ≡ b
      → After (JustRead n opt Q) Any (b, w)
  enough-After n opt Q true w (c, q, e) h = (c, q, e, h)
  enough-After n opt Q false w (c, q, e) h = refl

  Step-read_back-JustRead :
      (n : ℤ) (opt : SockOpt) (Q : List Call → Type 0)
      → Step (λ w. Q w.calls) (read_back k set_errno n opt) (JustRead n opt Q) Any
  unfolding read_back
  Step-read_back-JustRead n opt Q =
      Step-then_do
        (Step-or_else {R = Any} (set_errno iesetbuf)
          (record { run = λ w q. ask-After opt Q (k.succeeds w.calls (get_option opt)) w q })
          (λ w h. refl))
        (Step-or_else {R = Any} (set_errno iesetbuf2)
          (record {
            run = λ w q. enough-After n opt Q (is_enough n (k.value w.calls opt)) w q refl;
          })
          (λ w h. refl))

  abbrev Anything : List Call → Type 0
  Anything c = true ≡ true

  Step-Any : (a : Op) → Step Any a Any Any
  Step-Any a = record { run = λ w h. any (a w) }
    where
      any : (r : Bool × Process) → After Any Any r
      any (true, w) = refl
      any (false, w) = refl

  Step-send-JustRead :
      (n : ℤ) → Step Any (set_and_read_send k n) (JustRead n send_buffer Anything) Any
  unfolding set_and_read_send
  Step-send-JustRead n =
      Step-then_do (Step-Any (buffer_options k (set_errno iesetbuf) n))
        (Step-read_back-JustRead n send_buffer Anything)

  -- Both buffers have at least the size that is asked for, and a block fits unless the answer is that it does not.
  abbrev Measured : ℤ → ℤ → Buffers → List Call → List Call → Type 0
  Measured n blksize b c calls =
      (calls ≡ get_option receive_buffer ∷ get_option send_buffer ∷ c)
      × (is_enough n
            (k.value (get_option receive_buffer ∷ get_option send_buffer ∷ c) receive_buffer)
          ≡ true)
      × (is_enough n (k.value (get_option send_buffer ∷ c) send_buffer) ≡ true)
      × ((b ≡ small)
          ⊎ ((ltb_ℤ
                  (k.value (get_option receive_buffer ∷ get_option send_buffer ∷ c) receive_buffer)
                  blksize
                ≡ false)
              × (ltb_ℤ (k.value (get_option send_buffer ∷ c) send_buffer) blksize ≡ false)))

  abbrev IsMeasured : ℤ → ℤ → Buffers × Process → Type 0
  IsMeasured n blksize (refused, w) = true ≡ true
  IsMeasured n blksize (fit, w) = (c : List Call) × Measured n blksize fit c w.calls
  IsMeasured n blksize (small, w) = (c : List Call) × Measured n blksize small c w.calls

  -- The answer on the buffers by the size that was read last.
  classify :
      (n blksize : ℤ) (b x : Bool) (c : List Call) (w : Process)
      → w.calls ≡ get_option receive_buffer ∷ get_option send_buffer ∷ c
      → is_enough n
          (k.value (get_option receive_buffer ∷ get_option send_buffer ∷ c) receive_buffer)
        ≡ true
      → is_enough n (k.value (get_option send_buffer ∷ c) send_buffer) ≡ true
      → b ≡ ltb_ℤ (k.value (get_option send_buffer ∷ c) send_buffer) blksize
      → x
        ≡ ltb_ℤ
            (k.value (get_option receive_buffer ∷ get_option send_buffer ∷ c) receive_buffer)
            blksize
      → IsMeasured n blksize (if b || x then small else fit, w)
  classify n blksize true x c w e g g' hb hx = (c, (e, g, g', inl refl))
  classify n blksize false true c w e g g' hb hx = (c, (e, g, g', inl refl))
  classify n blksize false false c w e g g' hb hx = (c, (e, g, g', inr (sym hx, sym hb)))

  received_buffer-IsMeasured :
      (n blksize : ℤ) (b : Bool) (c : List Call) (r : Bool × Process)
      → is_enough n (k.value (get_option send_buffer ∷ c) send_buffer) ≡ true
      → b ≡ ltb_ℤ (k.value (get_option send_buffer ∷ c) send_buffer) blksize
      → After (JustRead n receive_buffer (λ d. d ≡ get_option send_buffer ∷ c)) Any r
      → IsMeasured n blksize (received_buffer k blksize b r)
  received_buffer-IsMeasured n blksize b c (false, w) g e h = refl
  received_buffer-IsMeasured n blksize b c (true, w) g e (d, ed, ew, h) =
      let calls = ew ∙ ap (λ z. get_option receive_buffer ∷ z) ed in
      classify n blksize b (is_small k blksize receive_buffer w) c w calls
        (sym (ap (λ z. is_enough n (k.value z receive_buffer)) calls) ∙ h) g e
        (ap (λ z. ltb_ℤ (k.value z receive_buffer) blksize) calls)

  sent_buffer-IsMeasured :
      (n blksize : ℤ) (r : Bool × Process)
      → After (JustRead n send_buffer Anything) Any r
      → IsMeasured n blksize (sent_buffer k n blksize r)
  sent_buffer-IsMeasured n blksize (false, w) h = refl
  sent_buffer-IsMeasured n blksize (true, w) (c, q, e, h) =
      received_buffer-IsMeasured n blksize (is_small k blksize send_buffer w) c _
        (sym (ap (λ z. is_enough n (k.value z send_buffer)) e) ∙ h)
        (ap (λ z. ltb_ℤ (k.value z send_buffer) blksize) e)
        ((Step-read_back-JustRead n receive_buffer (λ d. d ≡ get_option send_buffer ∷ c)).run w e)

  buffercheck-IsMeasured :
      (n blksize : ℤ) (w : Process) → IsMeasured n blksize (buffercheck k n blksize w)
  unfolding buffercheck
  buffercheck-IsMeasured n blksize w =
      sent_buffer-IsMeasured n blksize _ ((Step-send-JustRead n).run w refl)

  -- As the kernel said last, a block fits into both buffers.
  abbrev pub FitsIn : ℤ → List Call → Type 0
  FitsIn blksize calls =
      (c : List Call) × (calls ≡ get_option receive_buffer ∷ get_option send_buffer ∷ c)
      × (ltb_ℤ (k.value (get_option receive_buffer ∷ get_option send_buffer ∷ c) receive_buffer)
            blksize
          ≡ false)
      × (ltb_ℤ (k.value (get_option send_buffer ∷ c) send_buffer) blksize ≡ false)

  abbrev pub Fits : ℤ → BuffersChecked → Type 0
  Fits blksize (false, n, w) = true ≡ true
  Fits blksize (true, n, w) = FitsIn blksize w.calls

  enough_for_block :
      (blksize : ℕ) (v : ℤ)
      → is_enough (pos blksize +ℤ pos 1024) v ≡ true
      → ltb_ℤ v (pos blksize) ≡ false
  unfolding ◌+ℤ◌
  enough_for_block blksize v h = ground arith

  enough-FitsIn :
      (blksize : ℕ) (b : Buffers) (c calls : List Call)
      → Measured (pos blksize +ℤ pos 1024) (pos blksize) b c calls
      → FitsIn (pos blksize) calls
  enough-FitsIn blksize b c calls (e, g, g', h) = (
    c,
    e,
    enough_for_block blksize
        (k.value (get_option receive_buffer ∷ get_option send_buffer ∷ c) receive_buffer) g,
    enough_for_block blksize (k.value (get_option send_buffer ∷ c) send_buffer) g',
  )

  checked_again-Fits :
      (blksize : ℕ) (r : Buffers × Process)
      → IsMeasured (pos blksize +ℤ pos 1024) (pos blksize) r
      → Fits (pos blksize) (checked_again (pos blksize +ℤ pos 1024) r)
  checked_again-Fits blksize (refused, w) h = refl
  checked_again-Fits blksize (fit, w) (c, h) = enough-FitsIn blksize fit c w.calls h
  checked_again-Fits blksize (small, w) (c, h) = enough-FitsIn blksize small c w.calls h

  enlarged_lem :
      (blksize : ℕ) → blksize + 1024 < 2147483648 → enlarged (pos blksize) ≡ pos blksize +ℤ pos 1024
  unfolding ◌+ℤ◌
  enlarged_lem blksize h = to_int_lem (pos blksize +ℤ pos 1024) (ground arith)

  checked-Fits :
      (blksize : ℕ) (r : Buffers × Process)
      → blksize + 1024 < 2147483648
      → IsMeasured (pos 0) (pos blksize) r
      → Fits (pos blksize) (checked k (pos 0) (pos blksize) r)
  checked-Fits blksize (refused, w) l h = refl
  checked-Fits blksize (fit, w) l (c, (e, g, g', inl h)) = absurd cc
  checked-Fits blksize (fit, w) l (c, (e, g, g', inr (h, h'))) = (c, e, h, h')
  checked-Fits blksize (small, w) l h =
      subst (λ n. Fits (pos blksize) (checked_again n (buffercheck k n (pos blksize) w)))
        (sym (enlarged_lem blksize l))
        (checked_again-Fits blksize _
          (buffercheck-IsMeasured (pos blksize +ℤ pos 1024) (pos blksize) w))

  -- Where no size of the buffers is asked for, and the block with UDP_BUFFER_EXTRA is below 2^31 bytes, a stream of
  -- UDP that passes the check of its buffers has, as the kernel said last, buffers into which a block fits, whatever
  -- the default is.
  pub check_buffers-Fits :
      (blksize : ℕ) (w : Process)
      → blksize + 1024 < 2147483648
      → Fits (pos blksize) (check_buffers k (pos 0) (pos blksize) w)
  unfolding check_buffers
  check_buffers-Fits blksize w l =
      checked-Fits blksize _ l (buffercheck-IsMeasured (pos 0) (pos blksize) w)
