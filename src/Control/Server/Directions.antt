-- ===== src/Control/Server/Directions.antt =====
-- src/iperf_server_api.c: the streams of a test that a server accepts, by the test's mode.
use mathlib.Core.List.{append-nil}
use iperf.Base.{
  ℕ, zero, suc, leb, ◌+◌, ◌-◌, ◌<◌, ◌≤◌, ◌≡◌, refl, sym, ap, ◌∙◌, Bool, true, false, some, List, [],
  ◌∷◌, ◌++◌, length, drop, arith, inl, inr, Bool-cases,
}
use iperf.Test.{Mode, sender, receiver, bidirectional_mode}
use iperf.Control.{Control}
use iperf.Control.Server.Streams.{Accepted, set_streams, all_accepted, drain}
use iperf.Control.Server.Counting.{
  holding, queue, times, wanted, IsWithin, pairs, full, free, take_slot-NextSlot,
  all_accepted-wanted,
}
use iperf.Control.Server.Assigning.{accept_streams, accept_streams-Assigns, drain-Assigns}

-- The directions of the streams of a test of `n` streams each way: first those that the server receives.
abbrev pub directions : Mode → ℕ → List Bool
directions receiver n = times n false
directions sender n = times n true
directions bidirectional_mode n = times n false ++ times n true

-- A server that has accepted a client of such a test and none of its streams.
abbrev pub fresh : Mode → ℕ → Accepted
unfolding set_streams
fresh m n = set_streams m n (record {
  rec_streams_accepted = 0;
  send_streams_accepted = 0;
  streams_to_rec = 0;
  streams_to_send = 0;
})

sub_zero : (n : ℕ) → n - 0 ≡ n
sub_zero n = omega arith

fresh-wanted : (m : Mode) (n : ℕ) → (wanted (fresh m n) ≡ directions m n) × IsWithin (fresh m n)
unfolding wanted fresh set_streams
fresh-wanted receiver n = (
  ap (λ k. times k false ++ []) (sub_zero n) ∙ append-nil (times n false),
  (omega arith, omega arith),
)
fresh-wanted sender n = (ap (λ k. times k true) (sub_zero n), (omega arith, omega arith))
fresh-wanted bidirectional_mode n =
    (ap (λ k. times k false ++ times k true) (sub_zero n), (omega arith, omega arith))

abbrev is_nil : List Bool → Bool
is_nil [] = true
is_nil (b ∷ bs) = false

all_accepted-is_nil : (a : Accepted) → IsWithin a → all_accepted a ≡ is_nil (wanted a)
all_accepted-is_nil a w = elim (take_slot-NextSlot a w) [
  | full e t done ↦ done ∙ sym (ap is_nil e)
  | free flag a' e t w' ↦ elim (Bool-cases (all_accepted a)) [
    | inl y ↦ absurd (let l = all_accepted-wanted a y in cc)
    | inr more ↦ more ∙ sym (ap is_nil e)
  ]
]

is_nil-drop : (k : ℕ) (bs : List Bool) → is_nil (drop k bs) ≡ leb (length bs) k
is_nil-drop zero [] = refl
is_nil-drop zero (b ∷ bs) = ground arith
is_nil-drop (suc k) [] = ground arith
is_nil-drop (suc k) (b ∷ bs) = is_nil-drop k bs ∙ ground arith

directions-is_nil : (m : Mode) (n : ℕ) → 0 < n → is_nil (directions m n) ≡ false
directions-is_nil m zero h = absurd (omega (arith, h))
directions-is_nil receiver (suc n) h = refl
directions-is_nil sender (suc n) h = refl
directions-is_nil bidirectional_mode (suc n) h = refl

module _ (snd_timeout : ℕ) (has_congestion : Bool) where
  -- The complete test, read off the streams wanted.
  completes :
      (a' : Accepted) (k : ℕ) (bs : List Bool)
      → IsWithin a'
      → wanted a' ≡ drop k bs
      → all_accepted a' ≡ leb (length bs) k
  completes a' k bs w e = all_accepted-is_nil a' w ∙ ap is_nil e ∙ is_nil-drop k bs

  -- Where a test has at least one stream each way that its mode has, every call for a connection and its stream
  -- succeeds, and no more connections come than streams are wanted: connections that come one after the other become
  -- the streams of the test in this order, those that the server receives, then those that it sends. The test, which
  -- begins once it is complete, is complete exactly when all of its connections have come.
  pub accept_streams-directions :
      (m : Mode) (n : ℕ) (c : Control) (ss : List ℕ)
      → 0 < n
      → length ss ≤ length (directions m n)
      → let (ok, (a', (c', q'))) =
          accept_streams snd_timeout has_congestion (length ss) (fresh m n, (c, holding ss [])) in
        (ok ≡ true)
        × (q'.made ≡ pairs ss (directions m n))
        × (all_accepted a' ≡ leb (length (directions m n)) (length ss))
  accept_streams-directions m n c ss p l =
      let (e, w) = fresh-wanted m n in
      let (a', run, rest, w') =
        accept_streams-Assigns snd_timeout has_congestion ss (fresh m n) c [] w in
      (
        ap (λ r. r.0) run,
        ap (λ r. r.1.1.1.made) run ∙ ap (pairs ss) e,
        ap (λ r. all_accepted r.1.0) run
            ∙ completes a' (length ss) (directions m n) w' (rest ∙ ap (drop (length ss)) e),
      )

  -- Over QUIC one pass over the waiting connections ends within a round for each stream and one more, makes
  -- the same streams of them, and leaves the connections behind them.
  pub drain-directions :
      (m : Mode) (n : ℕ) (c : Control) (ss : List ℕ)
      → 0 < n
      → (a' : Accepted) × (drain queue snd_timeout has_congestion
            (length (directions m n) + 1)
            (fresh m n, (c, holding ss []))
          ≡ some (
            true,
            (a', (c, holding (drop (length (directions m n)) ss) (pairs ss (directions m n)))),
          ))
        × (all_accepted a' ≡ leb (length (directions m n)) (length ss))
  drain-directions m n c ss h =
      let (e, w) = fresh-wanted m n in
      let some_left = all_accepted-is_nil (fresh m n) w ∙ ap is_nil e ∙ directions-is_nil m n h in
      let (a', run, rest, w') =
        drain-Assigns snd_timeout has_congestion (length (directions m n) + 1) ss (fresh m n) c [] w
          some_left (omega (arith, ap length e)) in
      (
        a',
        run ∙ ap (λ bs. some (true, (a', (c, holding (drop (length bs) ss) (pairs ss bs))))) e,
        completes a' (length ss) (directions m n) w' (rest ∙ ap (drop (length ss)) e),
      )
