-- ===== src/Sockets/Triples.antt =====
-- src/net.c: from one step of a function that opens a socket to the function, by what holds before and after.
use iperf.Base.{ℕ, Bool, true, false, Option, none, some}
use iperf.Sockets.{Process, Op, continue, ◌then_do◌, undo, ◌or_else◌, choose, finished, with_socket}

abbrev pub After : (Process → Type 0) → (Process → Type 0) → Bool × Process → Type 0
After Q C (true, w) = Q w
After Q C (false, w) = C w

abbrev pub Opens : (ℕ → Process → Type 0) → (Process → Type 0) → Option ℕ × Process → Type 0
Opens Q C (none, w) = C w
Opens Q C (some s, w) = Q s w

-- From P a step comes to Q, or fails with C.
pub record Step (P : Process → Type 0) (op : Op) (Q : Process → Type 0) (C : Process → Type 0)
    : Type 0 where
  pub run : (w : Process) → P w → After Q C (op w)

continue-After :
    (Q R C : Process → Type 0) (b : Op) (r : Bool × Process)
    → Step Q b R C
    → After Q C r
    → After R C (continue b r)
continue-After Q R C b (true, w) h q = h.run w q
continue-After Q R C b (false, w) h q = q

undo-After :
    (Q R C : Process → Type 0) (cleanup : Process → Process) (r : Bool × Process)
    → ((w : Process) → R w → C (cleanup w))
    → After Q R r
    → After Q C (undo cleanup r)
undo-After Q R C cleanup (true, w) h q = q
undo-After Q R C cleanup (false, w) h q = h w q

finished-After :
    (R : Process → Type 0) (R' : ℕ → Process → Type 0) (C : Process → Type 0) (s : ℕ)
    (r : Bool × Process)
    → ((w : Process) → R w → R' s w)
    → After R C r
    → Opens R' C (finished s r)
finished-After R R' C s (true, w) g q = g w q
finished-After R R' C s (false, w) g q = q

pub Opens-with_socket :
    (Q R : ℕ → Process → Type 0) (C : Process → Type 0) (f : ℕ → Op) (r : Option ℕ × Process)
    → ((s : ℕ) → Step (Q s) (f s) (R s) C)
    → Opens Q C r
    → Opens R C (with_socket f r)
Opens-with_socket Q R C f (none, w) h q = q
Opens-with_socket Q R C f (some s, w) h q =
    finished-After (R s) R C s (f s w) (λ w h. h) ((h s).run w q)

module _ {P Q C : Process → Type 0} where
  pub Step-then_do :
      {R : Process → Type 0} {a b : Op} → Step P a Q C → Step Q b R C → Step P (a then_do b) R C
  Step-then_do g h = record { run = λ w p. continue-After Q _ C _ _ h (g.run w p) }

  pub Step-choose : {x y : Op} (b : Bool) → Step P x Q C → Step P y Q C → Step P (choose b x y) Q C
  Step-choose true g h = record { run = λ w p. g.run w p }
  Step-choose false g h = record { run = λ w p. h.run w p }

pub Step-or_else :
    {P Q R C : Process → Type 0} {a : Op} (cleanup : Process → Process)
    → Step P a Q R
    → ((w : Process) → R w → C (cleanup w))
    → Step P (a or_else cleanup) Q C
Step-or_else {Q = Q} {R = R} {C = C} cleanup g h = record {
  run = λ w p. undo-After Q R C _ _ h (g.run w p);
}
