-- ===== src/Control/Server/Assigning.antt =====
-- src/iperf_server_api.c: the streams that the two loops of the accept make of the connections in a queue.
use mathlib.Core.List.{append_assoc, append-nil}
use iperf.Base.{
  ℕ, zero, suc, ◌<◌, ◌≡◌, refl, sym, ap, ◌∙◌, Bool, true, false, Option, none, some, List, [], ◌∷◌,
  ◌++◌, length, drop, arith, if◌then◌else◌, inl, inr, Bool-cases,
}
use iperf.Control.{Control}
use iperf.Control.Server.Streams.{
  Accepted, take_slot, all_accepted, stream_options, add_stream, fill_slot, drain_slot,
  accept_stream, drain, user_timeout, congestion, congestion_used, set_up_and_add,
}
use iperf.Control.Server.Counting.{
  Queue, holding, queue, wanted, IsWithin, pairs, full, free, take_slot-NextSlot,
  all_accepted-wanted,
}

module _ (snd_timeout : ℕ) (has_congestion : Bool) where
  options_pass :
      (s : ℕ) (c : Control) (q : Queue)
      → stream_options queue snd_timeout has_congestion s (c, q) ≡ (true, (c, q))
  unfolding stream_options user_timeout congestion congestion_used
  options_pass s c q = ground arith

  -- With its options set, a connection is one to add.
  accept_one :
      (a : Accepted) (c : Control) (s : ℕ) (ss : List ℕ) (made : List (ℕ × Bool))
      → accept_stream queue snd_timeout has_congestion (a, (c, holding (s ∷ ss) made))
        ≡ add_stream queue snd_timeout has_congestion s (a, (c, holding ss made))
  unfolding accept_stream set_up_and_add
  accept_one a c s ss made =
      ap
        (λ (r : Bool × (Control × Queue)).
          if r.0 then add_stream queue snd_timeout has_congestion s (a, r.1) else (false, (a, r.1)))
        (options_pass s c (holding ss made))

  accept_free :
      (a a' : Accepted) (flag : Bool) (c : Control) (s : ℕ) (ss : List ℕ) (made : List (ℕ × Bool))
      → take_slot a ≡ (some flag, a')
      → accept_stream queue snd_timeout has_congestion (a, (c, holding (s ∷ ss) made))
        ≡ (true, (a', (c, holding ss (made ++ ((s, flag) ∷ [])))))
  unfolding add_stream
  accept_free a a' flag c s ss made e =
      accept_one a c s ss made
      ∙ ap (λ r. fill_slot queue snd_timeout has_congestion s r (c, holding ss made)) e

  accept_full :
      (a : Accepted) (c : Control) (s : ℕ) (ss : List ℕ) (made : List (ℕ × Bool))
      → take_slot a ≡ (none, a)
      → accept_stream queue snd_timeout has_congestion (a, (c, holding (s ∷ ss) made))
        ≡ (true, (a, (c, holding ss made)))
  unfolding add_stream
  accept_full a c s ss made e =
      accept_one a c s ss made
      ∙ ap (λ r. fill_slot queue snd_timeout has_congestion s r (c, holding ss made)) e

  -- `n` connections one after the other.
  pub accept_streams : ℕ → Accepted × (Control × Queue) → Bool × (Accepted × (Control × Queue))
  accept_streams zero s = (true, s)
  accept_streams (suc n) s =
      let (ok, s') = accept_stream queue snd_timeout has_congestion s in
      if ok then accept_streams n s' else (false, s')

  -- The run that takes the connections `ss` and makes streams of the first, in the directions wanted.
  abbrev pub Assigns :
      Accepted → Control → List ℕ → List (ℕ × Bool) → Bool × (Accepted × (Control × Queue)) → Type 0
  Assigns a c ss made r =
      (a' : Accepted) × (r ≡ (true, (a', (c, holding [] (made ++ pairs ss (wanted a))))))
      × (wanted a' ≡ drop (length ss) (wanted a))
      × IsWithin a'

  pairs-nil : (ss : List ℕ) → pairs ss [] ≡ []
  pairs-nil [] = refl
  pairs-nil (s ∷ ss) = refl

  drop-nil : (n : ℕ) → drop {A = Bool} n [] ≡ []
  drop-nil zero = refl
  drop-nil (suc n) = refl

  ends_empty : (n : ℕ) (made : List (ℕ × Bool)) → holding [] made ≡ holding (drop n []) (made ++ [])
  ends_empty zero made = ap (λ m. holding [] m) (sym (append-nil made))
  ends_empty (suc n) made = ap (λ m. holding [] m) (sym (append-nil made))

  pub accept_streams-Assigns :
      (ss : List ℕ) (a : Accepted) (c : Control) (made : List (ℕ × Bool))
      → IsWithin a
      → Assigns a c ss made (accept_streams (length ss) (a, (c, holding ss made)))
  unfolding accept_streams
  accept_streams-Assigns [] a c made w =
      (a, ap (λ m. (true, (a, (c, holding [] m)))) (sym (append-nil made)), refl, w)
  accept_streams-Assigns (s ∷ ss) a c made w = elim (take_slot-NextSlot a w) [
    | full e t done ↦
        let (a', run, rest, w') = accept_streams-Assigns ss a c made w in
        let first = accept_full a c s ss made t in
        (
          a',
          ap (λ r. if r.0 then accept_streams (length ss) r.1 else (false, r.1)) first
              ∙ run
              ∙ ap (λ m. (true, (a', (c, holding [] (made ++ m)))))
                  (ap (pairs ss) e ∙ pairs-nil ss ∙ sym (ap (pairs (s ∷ ss)) e)),
          rest
              ∙ ap (drop (length ss)) e
              ∙ drop-nil (length ss)
              ∙ sym (ap (drop (suc (length ss))) e),
          w',
        )
    | free flag a1 e t w1 ↦
        let (a', run, rest, w') = accept_streams-Assigns ss a1 c (made ++ ((s, flag) ∷ [])) w1 in
        let first = accept_free a a1 flag c s ss made t in
        (
          a',
          ap (λ r. if r.0 then accept_streams (length ss) r.1 else (false, r.1)) first
              ∙ run
              ∙ ap (λ m. (true, (a', (c, holding [] m))))
                  (append_assoc made ((s, flag) ∷ []) (pairs ss (wanted a1))
                    ∙ sym (ap (λ z. made ++ pairs (s ∷ ss) z) e)),
          rest ∙ sym (ap (drop (suc (length ss))) e),
          w',
        )
  ]

  -- The queue at the end, by the directions that were wanted.
  ends :
      (s : ℕ) (ss : List ℕ) (made : List (ℕ × Bool)) {flag : Bool} {bs bs' : List Bool}
      → bs ≡ flag ∷ bs'
      → (f : Queue → Option (Bool × (Accepted × (Control × Queue))))
      → f (holding (drop (length bs') ss) (made ++ ((s, flag) ∷ pairs ss bs')))
        ≡ f (holding (drop (length bs) (s ∷ ss)) (made ++ pairs (s ∷ ss) bs))
  ends s ss made e f =
      sym (
        ap (λ (z : List Bool). f (holding (drop (length z) (s ∷ ss)) (made ++ pairs (s ∷ ss) z))) e)

  pub drain-Assigns :
      (fuel : ℕ) (ss : List ℕ) (a : Accepted) (c : Control) (made : List (ℕ × Bool))
      → IsWithin a
      → all_accepted a ≡ false
      → length (wanted a) < fuel
      → (a' : Accepted) × (drain queue snd_timeout has_congestion fuel (a, (c, holding ss made))
          ≡ some (
            true,
            (a', (c, holding (drop (length (wanted a)) ss) (made ++ pairs ss (wanted a)))),
          ))
        × (wanted a' ≡ drop (length ss) (wanted a))
        × IsWithin a'
  unfolding drain
  drain-Assigns zero ss a c made w n l = absurd (omega (arith, l))
  drain-Assigns (suc fuel) [] a c made w n l = (
    a,
    ap (λ (q : Queue). some (true, (a, (c, q)))) (ends_empty (length (wanted a)) made),
    refl,
    w,
  )
  drain-Assigns (suc fuel) (s ∷ ss) a c made w n l = elim (take_slot-NextSlot a w) [
    | full e t done ↦ absurd cc
    | free flag a1 e t w1 ↦
        let made1 = made ++ ((s, flag) ∷ []) in
        let again : Accepted × (Control × Queue) → Option (Bool × (Accepted × (Control × Queue))) =
          λ x. drain queue snd_timeout has_congestion fuel x in
        let first =
          ap (λ r. drain_slot queue snd_timeout has_congestion again s r (c, holding ss made)) t in
        elim (Bool-cases (all_accepted a1)) [
          | inl y ↦
              let last : wanted a1 ≡ [] = all_accepted-wanted a1 y in
              let none_left : pairs ss [] ≡ pairs ss (wanted a1) = ap (pairs ss) (sym last) in
              (
                a1,
                first
                    ∙ ap
                        (λ b.
                          if b
                          then some (true, (a1, (c, holding ss made1)))
                          else again (a1, (c, holding ss made1)))
                        y
                    ∙ ap
                        (λ (bs : List Bool). some (
                          true,
                          (a1, (c, holding (drop (length bs) ss) (made ++ ((s, flag) ∷ [])))),
                        ))
                        (sym last)
                    ∙ ap
                        (λ m. some (
                          true,
                          (
                            a1,
                            (c, holding (drop (length (wanted a1)) ss) (made ++ ((s, flag) ∷ m))),
                          ),
                        ))
                        (sym (pairs-nil ss) ∙ none_left)
                    ∙ ends s ss made e (λ q. some (true, (a1, (c, q)))),
                last
                    ∙ sym (drop-nil (length ss))
                    ∙ ap (drop (length ss)) (sym last)
                    ∙ sym (ap (drop (suc (length ss))) e),
                w1,
              )
          | inr more ↦
              let (a', run, rest, w') =
                drain-Assigns fuel ss a1 c made1 w1 more (omega (arith, l, ap length e)) in
              (
                a',
                first
                    ∙ ap
                        (λ b.
                          if b
                          then some (true, (a1, (c, holding ss made1)))
                          else again (a1, (c, holding ss made1)))
                        more
                    ∙ run
                    ∙ ap (λ m. some (true, (a', (c, holding (drop (length (wanted a1)) ss) m))))
                        (append_assoc made ((s, flag) ∷ []) (pairs ss (wanted a1)))
                    ∙ ends s ss made e (λ q. some (true, (a', (c, q)))),
                rest ∙ sym (ap (drop (suc (length ss))) e),
                w',
              )
        ]
  ]
