-- ===== src/Sockets/Dialling.antt =====
-- src/net.c: what `create_socket`, `netdial` and `netannounce` leave open, whatever call fails.
use iperf.Base.{ℕ, suc, ◌≡◌, refl, Bool, true, false, List, ◌∷◌, if◌then◌else◌, arith}
use iperf.Base.Int.{pos, eqb_ℤ}
use iperf.Sockets.{
  Call, Connecting, connected, in_progress, not_connected, Polled, ready, late, broken, get_option,
  so_error, restore_flags, bind_socket, Kernel, Process, Op, close, freeaddrinfo, choose,
  when_needed,
}
use iperf.Sockets.Net.{
  restore, start_connect, is_ip, resolve, Endpoint, free_local, abandon, bind_local, resolve_both,
  create_socket, timeout_connect, await_connect, poll_connect, netdial, netannounce,
}
use iperf.Sockets.Triples.{After, Opens, Step, Opens-with_socket, Step-then_do, Step-or_else}
use iperf.Sockets.Releasing.{
  Has, close-Has, freeaddrinfo-Has, abandon-Has, either_way, Step-attempt, Step-act, Step-test,
  Step-when_needed, Step-resolve, Opens-new_socket, Step-bind_device,
}

-- With the list for the local address, where there is one.
abbrev pub with_local : Endpoint → ℕ → ℕ
with_local a n = if a.has_local then suc n else n

free_local-Has :
    (a : Endpoint) (l : List ℕ) (n : ℕ) (w : Process)
    → Has l (with_local a n) w
    → Has l n (free_local a w)
unfolding free_local freeaddrinfo
free_local-Has a l n w (e, h) = ground (arith, e, h)

Step-resolve_if :
    {l : List ℕ} {n : ℕ} (k : Kernel) (c : Call) (b : Bool)
    → Step (Has l n) (when_needed b (resolve k c)) (Has l (if b then suc n else n)) (Has l n)
Step-resolve_if {l = l} {n = n} k c true = record {
  run = λ w h. (Step-resolve {l = l} {n = n} k c).run w h;
}
Step-resolve_if k c false = record { run = λ w h. h }

Step-resolve_both :
    {l : List ℕ} {n : ℕ} (k : Kernel) (a : Endpoint)
    → Step (Has l n) (resolve_both k a) (Has l (suc (with_local a n))) (Has l n)
unfolding resolve_both
Step-resolve_both {l = l} {n = n} k a =
    Step-then_do (Step-resolve_if k _ a.has_local)
      (Step-or_else (free_local a) (Step-resolve k _) (free_local-Has a l n))

abandon_all-Has :
    (a : Endpoint) (s : ℕ) (l : List ℕ) (n : ℕ) (w : Process)
    → Has (s ∷ l) (suc (with_local a n)) w
    → Has l n (free_local a (abandon s w))
abandon_all-Has a s l n w h = free_local-Has a l n _ (abandon-Has s l (with_local a n) w h)

Step-choose_local :
    {Q C : Process → Type 0} {l : List ℕ} {n : ℕ} {x y : Op} (b : Bool)
    → (b ≡ true → Step (Has l (suc (suc n))) x Q C)
    → Step (Has l (suc n)) y Q C
    → Step (Has l (suc (if b then suc n else n))) (choose b x y) Q C
Step-choose_local true g h = record { run = λ w p. (g refl).run w p }
Step-choose_local false g h = record { run = λ w p. h.run w p }

Step-bind_local :
    {l : List ℕ} {n : ℕ} (k : Kernel) (a : Endpoint) (s : ℕ)
    → Step (Has (s ∷ l) (suc (with_local a n))) (bind_local k a s) (Has (s ∷ l) (suc n)) (Has l n)
unfolding bind_local
Step-bind_local {l = l} {n = n} k a s =
    Step-choose_local a.has_local
      (λ e.
        Step-then_do
          (Step-or_else _ (Step-attempt k bind_socket)
            (λ w h. abandon_all-Has a s l n w (h.0, ground (arith, h.1, e))))
          (Step-act freeaddrinfo (freeaddrinfo-Has (s ∷ l) (suc n))))
      (Step-when_needed a.has_local_port (
        Step-then_do
          (Step-or_else (abandon s) (Step-test (λ w. is_ip (k.family w.calls))) (abandon-Has s l n))
          (Step-or_else (abandon s) (Step-attempt k bind_socket) (abandon-Has s l n))))

pub create_socket-Opens :
    (k : Kernel) (a : Endpoint) (l : List ℕ) (n : ℕ) (w : Process)
    → Has l n w
    → Opens (λ s. Has (s ∷ l) (suc n)) (Has l n) (create_socket k a w)
unfolding create_socket
create_socket-Opens k a l n w h =
    Opens-with_socket (λ s. Has (s ∷ l) (suc (with_local a n))) (λ s. Has (s ∷ l) (suc n)) (Has l n)
      _ _
      (λ s. Step-then_do (Step-bind_device k a _ (abandon_all-Has a s l n)) (Step-bind_local k a s))
      (Opens-new_socket l (suc (with_local a n)) n k _ _
        (λ w h.
          freeaddrinfo-Has l n (free_local a w)
            (free_local-Has a l (suc n) w (h.0, ground (arith, h.1))))
        ((Step-resolve_both k a).run w h))

Step-poll_connect :
    (l : List ℕ) (n : ℕ) (k : Kernel) (p : Polled) (w : Process)
    → Has l n w
    → After (Has l n) (Has l n) (poll_connect k p w)
unfolding poll_connect
Step-poll_connect l n k ready w h =
    (Step-then_do (Step-attempt {l = l} {n = n} k (get_option so_error))
        (Step-test (λ w. eqb_ℤ (k.value w.calls so_error) (pos 0)))).run
      w h
Step-poll_connect l n k late w h = h
Step-poll_connect l n k broken w h = h

Step-await_connect :
    (l : List ℕ) (n : ℕ) (k : Kernel) (c : Connecting) (w : Process)
    → Has l n w
    → After (Has l n) (Has l n) (await_connect k c w)
unfolding await_connect
Step-await_connect l n k connected w h = h
Step-await_connect l n k in_progress w h = Step-poll_connect l n k (k.polled w.calls) _ h
Step-await_connect l n k not_connected w h = h

restore-After :
    (l : List ℕ) (n : ℕ) (k : Kernel) (timed : Bool) (r : Bool × Process)
    → After (Has l n) (Has l n) r
    → After (Has l n) (Has l n) (restore k timed r)
restore-After l n k false (ok, w) h = h
restore-After l n k true (true, w) h = either_way (Has l n) (k.succeeds w.calls restore_flags) _ h
restore-After l n k true (false, w) h = h

Step-timeout_connect :
    {l : List ℕ} {n : ℕ} (k : Kernel) (timed : Bool)
    → Step (Has l n) (timeout_connect k timed) (Has l n) (Has l n)
unfolding timeout_connect
Step-timeout_connect {l = l} {n = n} k timed =
    Step-then_do (Step-when_needed timed (Step-attempt k _)) (record {
      run = λ w h.
          restore-After l n k timed (start_connect k w)
            (Step-await_connect l n k (k.connecting w.calls) _ h);
    })

-- Whatever calls fail, netdial frees its lists of addresses, and closes the socket unless it returns it.
pub netdial-Opens :
    (k : Kernel) (a : Endpoint) (timed : Bool) (l : List ℕ) (n : ℕ) (w : Process)
    → Has l n w
    → Opens (λ s. Has (s ∷ l) n) (Has l n) (netdial k a timed w)
unfolding netdial
netdial-Opens k a timed l n w h =
    Opens-with_socket (λ s. Has (s ∷ l) (suc n)) (λ s. Has (s ∷ l) n) (Has l n) _ _
      (λ s.
        Step-then_do (Step-or_else (abandon s) (Step-timeout_connect k timed) (abandon-Has s l n))
          (Step-act freeaddrinfo (freeaddrinfo-Has (s ∷ l) n)))
      (create_socket-Opens k a l n w h)

-- And so does netannounce.
pub netannounce-Opens :
    (k : Kernel) (a : Endpoint) (stream : Bool) (l : List ℕ) (n : ℕ) (w : Process)
    → Has l n w
    → Opens (λ s. Has (s ∷ l) n) (Has l n) (netannounce k a stream w)
unfolding netannounce
netannounce-Opens k a stream l n w h =
    Opens-with_socket (λ s. Has (s ∷ l) (suc n)) (λ s. Has (s ∷ l) n) (Has l n) _ _
      (λ s.
        let gone = abandon-Has s l n in
        Step-then_do
          (Step-then_do
            (Step-then_do
              (Step-then_do
                (Step-then_do (Step-bind_device k a (abandon s) gone)
                  (Step-or_else (abandon s) (Step-attempt k _) gone))
                (record {
                  run = λ w h.
                      (Step-when_needed {P = Has (s ∷ l) (suc n)} {C = Has l n} _
                          (Step-or_else (abandon s) (Step-attempt k _) gone)).run
                        w h;
                }))
              (Step-or_else (abandon s) (Step-attempt k _) gone))
            (Step-act freeaddrinfo (freeaddrinfo-Has (s ∷ l) n)))
          (Step-when_needed stream (Step-or_else (close s) (Step-attempt k _) (close-Has s l n))))
      (Opens-new_socket l (suc n) n k freeaddrinfo _ (freeaddrinfo-Has l n)
        ((Step-resolve k _).run w h))
