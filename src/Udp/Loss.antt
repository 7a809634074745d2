-- ===== src/Udp/Loss.antt =====
-- src/iperf_udp.c: the count of lost packets against the packets that came.
use iperf.Base.{
  ℕ, zero, suc, ◌+◌, ◌<◌, ◌≤◌, ◌≡◌, ◌≢◌, refl, subst, ==_iff, sym, ap, ◌∙◌, inl, inr, List, [], ◌∷◌,
  All, length, ltb, leb, ◌==◌, if◌then◌else◌, arith, Bool-cases,
}
use iperf.Udp.{Sequence, count_packet}

abbrev pub Distinct : List ℕ → Type 0
Distinct [] = Unit {0}
Distinct (x ∷ xs) = All (λ (y : ℕ). y ≢ x) xs × Distinct xs

abbrev pub Between : ℕ → List ℕ → Type 0
Between m = All λ (y : ℕ). (0 < y) × (y ≤ m)

without : ℕ → List ℕ → List ℕ
without a [] = []
without a (x ∷ xs) = if x == a then without a xs else x ∷ without a xs

All-without : (P : ℕ → Type 0) (a : ℕ) (l : List ℕ) → All P l → All P (without a l)
unfolding without
All-without P a [] h = tt
All-without P a (x ∷ xs) h = ground (arith, All-without P a xs h.1)

Distinct-without : (a : ℕ) (l : List ℕ) → Distinct l → Distinct (without a l)
unfolding without
Distinct-without a [] h = tt
Distinct-without a (x ∷ xs) h =
    ground (arith, All-without (λ (y : ℕ). y ≢ x) a xs h.0, Distinct-without a xs h.1)

without_absent : (a : ℕ) (l : List ℕ) → All (λ (y : ℕ). y ≢ a) l → without a l ≡ l
unfolding without
without_absent a [] h = refl
without_absent a (x ∷ xs) h = ground (arith, without_absent a xs h.1)

-- Numbers that differ lose at most one entry.
length-without : (a : ℕ) (l : List ℕ) → Distinct l → length l ≤ suc (length (without a l))
unfolding without
length-without a [] h = omega arith
length-without a (x ∷ xs) h = elim (Bool-cases (x == a)) [
  | inl e ↦
      let gone =
        without_absent a xs (subst (λ z. All (λ (y : ℕ). y ≢ z) xs) ((==_iff x a).0 e) h.0) in
      rw e (omega (arith, ap length gone))
  | inr e ↦ rw e (omega (arith, length-without a xs h.1))
]

Between-without : (m : ℕ) (l : List ℕ) → Between (suc m) l → Between m (without (suc m) l)
unfolding without
Between-without m [] h = tt
Between-without m (x ∷ xs) h = ground (arith, Between-without m xs h.1)

-- The pigeonhole principle: at most `m` different numbers lie between 1 and `m`.
pigeonhole : (m : ℕ) (l : List ℕ) → Distinct l → Between m l → length l ≤ m
pigeonhole zero [] d b = omega arith
pigeonhole zero (x ∷ xs) d b = omega arith
pigeonhole (suc m) l d b = omega (
  arith,
  length-without (suc m) l d,
  pigeonhole m (without (suc m) l) (Distinct-without (suc m) l d) (Between-without m l b),
)

Between-mono : (m n : ℕ) (l : List ℕ) → m ≤ n → Between m l → Between n l
Between-mono m n [] h b = tt
Between-mono m n (x ∷ xs) h b = (((b.0).0, omega arith), Between-mono m n xs h b.1)

-- What holds of the counters after the packets `seen`, the latest first.
pub record Accounts (seen : List ℕ) (s : Sequence) : Type 0 where
  pub distinct : Distinct seen
  pub between : Between s.packet_count seen
  pub lost : s.cnt_error + length seen ≡ s.packet_count
  pub fits : s.packet_count < 9223372036854775808

count_packet-Accounts :
    (p : ℕ) (seen : List ℕ) (s : Sequence)
    → Accounts seen s
    → All (λ (y : ℕ). y ≢ p) seen
    → 0 < p
    → p < 9223372036854775808
    → Accounts (p ∷ seen) (count_packet p s)
unfolding count_packet
count_packet-Accounts p seen s a new pos small = elim (Bool-cases (leb (s.packet_count + 1) p)) [
  | inl h ↦ ground (arith, Between-mono s.packet_count p seen, a.between)
  | inr h ↦ ground (
    arith,
    pigeonhole s.packet_count (p ∷ seen) (new, a.distinct) ((pos, ground arith), a.between),
  )
]

-- A run of packets, in the order in which they come.
pub count_all : List ℕ → Sequence → Sequence
count_all [] s = s
count_all (p ∷ ps) s = count_all ps (count_packet p s)

-- The largest number that came.
pub highest : ℕ → List ℕ → ℕ
highest m [] = m
highest m (p ∷ ps) = highest (if ltb m p then p else m) ps

-- None of the later packets has a number that was seen.
abbrev pub AllNew : List ℕ → List ℕ → Type 0
AllNew ps seen = All (λ (p : ℕ). All (λ (y : ℕ). y ≢ p) seen) ps

AllNew-cons :
    (p : ℕ) (ps seen : List ℕ) → All (λ (y : ℕ). y ≢ p) ps → AllNew ps seen → AllNew ps (p ∷ seen)
AllNew-cons p [] seen h n = tt
AllNew-cons p (q ∷ qs) seen h n = (((λ e. h.0 (sym e)), n.0), AllNew-cons p qs seen h.1 n.1)

count_all-Accounts :
    (ps seen : List ℕ) (s : Sequence)
    → Accounts seen s
    → Distinct ps
    → AllNew ps seen
    → Between 9223372036854775807 ps
    → (count_all ps s).cnt_error + (length ps + length seen) ≡ (count_all ps s).packet_count
unfolding count_all
count_all-Accounts [] seen s a d n b = omega (arith, a.lost)
count_all-Accounts (p ∷ ps) seen s a d n b = omega (
  arith,
  count_all-Accounts ps (p ∷ seen) (count_packet p s)
      (count_packet-Accounts p seen s a n.0 (b.0).0 (omega arith)) d.1
      (AllNew-cons p ps seen d.0 n.1) b.1,
)

packet_count-count_packet :
    (p : ℕ) (s : Sequence)
    → s.packet_count < 9223372036854775808
    → (count_packet p s).packet_count ≡ (if ltb s.packet_count p then p else s.packet_count)
unfolding count_packet
packet_count-count_packet p s h = ground arith

packet_count-count_all :
    (ps : List ℕ) (s : Sequence)
    → s.packet_count < 9223372036854775808
    → Between 9223372036854775807 ps
    → (count_all ps s).packet_count ≡ highest s.packet_count ps
unfolding count_all highest
packet_count-count_all [] s h b = refl
packet_count-count_all (p ∷ ps) s h b =
    packet_count-count_all ps (count_packet p s) (ground (arith, packet_count-count_packet p s h))
      b.1
    ∙ ap (λ m. highest m ps) (packet_count-count_packet p s h)

abbrev pub no_packets : Sequence
no_packets = record { packet_count = 0; outoforder_packets = 0; cnt_error = 0 }

AllNew-nil : (ps : List ℕ) → AllNew ps []
AllNew-nil [] = tt
AllNew-nil (p ∷ ps) = (tt, AllNew-nil ps)

-- However the network reorders and loses the packets of a stream, with numbers below 2^63, as long
-- as it doubles none: the highest number seen is the largest that came, and the packets counted as
-- lost are exactly the numbers from 1 up to it that did not come.
pub count_all_exact :
    (ps : List ℕ)
    → Distinct ps
    → Between 9223372036854775807 ps
    → ((count_all ps no_packets).packet_count ≡ highest 0 ps)
      × ((count_all ps no_packets).cnt_error + length ps ≡ highest 0 ps)
count_all_exact ps d b =
    let top = packet_count-count_all ps no_packets (omega arith) b in
    let none_yet : Accounts [] no_packets = record {
      distinct = tt;
      between = tt;
      lost = omega arith;
      fits = omega arith;
    } in
    (top, omega (arith, top, count_all-Accounts ps [] no_packets none_yet d (AllNew-nil ps) b))
