-- ===== src/Sockets/Releasing.antt =====
-- src/net.c: what is open, and how the steps of the functions that open a socket change it.
use iperf.Base.{ℕ, suc, ◌≡◌, ap, Bool, true, false, List, ◌∷◌, arith}
use iperf.Sockets.{
  Call, make_socket, Kernel, Process, Op, close, freeaddrinfo, attempt, act, when_needed, opened,
}
use iperf.Sockets.Net.{new_socket, resolved, resolve, Endpoint, abandon, bind_device}
use iperf.Sockets.Triples.{After, Opens, Step, Step-choose, Step-or_else}

-- The open sockets, and how many lists of addresses are to be freed.
abbrev pub Has : List ℕ → ℕ → Process → Type 0
Has l n w = (w.open_sockets ≡ l) × (w.addresses ≡ n)

pub close-Has : (s : ℕ) (l : List ℕ) (n : ℕ) (w : Process) → Has (s ∷ l) n w → Has l n (close s w)
unfolding close
close-Has s l n w (e, h) = ground (arith, e, h)

pub freeaddrinfo-Has :
    (l : List ℕ) (n : ℕ) (w : Process) → Has l (suc n) w → Has l n (freeaddrinfo w)
unfolding freeaddrinfo
freeaddrinfo-Has l n w (e, h) = ground (arith, e, h)

pub abandon-Has :
    (s : ℕ) (l : List ℕ) (n : ℕ) (w : Process) → Has (s ∷ l) (suc n) w → Has l n (abandon s w)
unfolding abandon
abandon-Has s l n w h = freeaddrinfo-Has l n (close s w) (close-Has s l (suc n) w h)

pub either_way : (P : Process → Type 0) (b : Bool) (w : Process) → P w → After P P (b, w)
either_way P true w p = p
either_way P false w p = p

pub Step-attempt :
    {l : List ℕ} {n : ℕ} (k : Kernel) (c : Call) → Step (Has l n) (attempt k c) (Has l n) (Has l n)
Step-attempt {l = l} {n = n} k c = record {
  run = λ w h. either_way (Has l n) (k.succeeds w.calls c) (record w { calls = c ∷ w.calls }) h;
}

pub Step-act :
    {l : List ℕ} {n m : ℕ} {C : Process → Type 0} (f : Process → Process)
    → ((w : Process) → Has l n w → Has l m (f w))
    → Step (Has l n) (act f) (Has l m) C
Step-act f h = record { run = h }

pub Step-test :
    {l : List ℕ} {n : ℕ} (f : Process → Bool) → Step (Has l n) (λ w. (f w, w)) (Has l n) (Has l n)
Step-test {l = l} {n = n} f = record { run = λ w h. either_way (Has l n) (f w) w h }

pub Step-when_needed :
    {P C : Process → Type 0} {a : Op} (b : Bool) → Step P a P C → Step P (when_needed b a) P C
Step-when_needed b h = Step-choose b h (record { run = λ w p. p })

resolved-After :
    (l : List ℕ) (n : ℕ) (b : Bool) (w : Process)
    → Has l n w
    → After (Has l (suc n)) (Has l n) (resolved (b, w))
resolved-After l n true w (e, h) = (e, omega (arith, h))
resolved-After l n false w h = h

pub Step-resolve :
    {l : List ℕ} {n : ℕ} (k : Kernel) (c : Call)
    → Step (Has l n) (resolve k c) (Has l (suc n)) (Has l n)
unfolding resolve
Step-resolve {l = l} {n = n} k c = record {
  run = λ w h. resolved-After l n (k.succeeds w.calls c) _ h;
}

opened-Opens :
    (l : List ℕ) (n m : ℕ) (k : Kernel) (cleanup : Process → Process) (b : Bool) (w : Process)
    → ((w : Process) → Has l n w → Has l m (cleanup w))
    → Has l n w
    → Opens (λ s. Has (s ∷ l) n) (Has l m) (opened k cleanup b w)
opened-Opens l n m k cleanup true w g (e, h) = (ap (λ z. k.new_descriptor w.calls ∷ z) e, h)
opened-Opens l n m k cleanup false w g h = g w h

pub Opens-new_socket :
    (l : List ℕ) (n m : ℕ) (k : Kernel) (cleanup : Process → Process) (r : Bool × Process)
    → ((w : Process) → Has l n w → Has l m (cleanup w))
    → After (Has l n) (Has l m) r
    → Opens (λ s. Has (s ∷ l) n) (Has l m) (new_socket k cleanup r)
unfolding new_socket
Opens-new_socket l n m k cleanup (true, w) g h =
    opened-Opens l n m k cleanup (k.succeeds w.calls make_socket) _ g h
Opens-new_socket l n m k cleanup (false, w) g h = h

pub Step-bind_device :
    {l l' : List ℕ} {n m : ℕ} (k : Kernel) (a : Endpoint) (cleanup : Process → Process)
    → ((w : Process) → Has l n w → Has l' m (cleanup w))
    → Step (Has l n) (bind_device k a cleanup) (Has l n) (Has l' m)
unfolding bind_device
Step-bind_device k a cleanup h = Step-when_needed a.bind_dev (
    Step-or_else cleanup
      (Step-choose a.has_bindtodevice (Step-attempt k _) (Step-test (λ w. false))) h)
