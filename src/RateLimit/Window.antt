-- ===== src/RateLimit/Window.antt =====
-- The cyclic array holds the traffic of the last intervals.
use iperf.Base.{
  ℕ, zero, suc, ◌+◌, ◌-◌, ◌<◌, ◌≤◌, ◌≡◌, ◌≢◌, refl, sym, ap, ◌∙◌, ◌⊎◌, inl, inr, true, false, some,
  List, [], ◌∷◌, get_elem?, get_or, length, sum, take, if◌then◌else◌, leb, ◌==◌, u64, ==_iff,
  Bool-cases, arith,
}
use iperf.RateLimit.{RateLimit, set_elem, add_up, next_index}

-- A store within the array.
set_elem-some :
    (xs : List ℕ) (i v : ℕ)
    → i < length xs
    → (ys : List ℕ) × (set_elem xs i v ≡ some ys)
      × (length ys ≡ length xs)
      × (get_or ys i 0 ≡ v)
      × ((j : ℕ) → j ≢ i → get_or ys j 0 ≡ get_or xs j 0)
      × ((n : ℕ) → i < n → sum (take n ys) + get_or xs i 0 ≡ sum (take n xs) + v)
unfolding set_elem
set_elem-some [] i v h = absurd (omega arith)
set_elem-some (x ∷ xs) zero v h = (v ∷ xs, refl, refl, refl, others, sums)
  where
    others : (j : ℕ) → j ≢ 0 → get_or (v ∷ xs) j 0 ≡ get_or (x ∷ xs) j 0
    others zero n = absurd (n refl)
    others (suc j) n = refl

    sums : (n : ℕ) → 0 < n → sum (take n (v ∷ xs)) + x ≡ sum (take n (x ∷ xs)) + v
    sums zero p = absurd (omega arith)
    sums (suc n) p = omega arith
set_elem-some (x ∷ xs) (suc i) v h =
    let (ys, e, l, g, o, s) = set_elem-some xs i v (omega arith) in
    (x ∷ ys, rw e refl, omega (arith, l), g, others ys o, sums ys s)
  where
    others :
        (ys : List ℕ)
        → ((j : ℕ) → j ≢ i → get_or ys j 0 ≡ get_or xs j 0)
        → (j : ℕ) → j ≢ suc i
        → get_or (x ∷ ys) j 0 ≡ get_or (x ∷ xs) j 0
    others ys o zero n = refl
    others ys o (suc j) n = o j (λ e. n (ap suc e))

    sums :
        (ys : List ℕ)
        → ((n : ℕ) → i < n → sum (take n ys) + get_or xs i 0 ≡ sum (take n xs) + v)
        → (n : ℕ) → suc i < n
        → sum (take n (x ∷ ys)) + get_or xs i 0 ≡ sum (take n (x ∷ xs)) + v
    sums ys s zero p = absurd (omega arith)
    sums ys s (suc n) p = omega (arith, s n (omega arith))

-- One entry more at the end of a sum.
sum-take-suc : (n : ℕ) (xs : List ℕ) → sum (take (suc n) xs) ≡ sum (take n xs) + get_or xs n 0
sum-take-suc zero [] = omega arith
sum-take-suc zero (x ∷ xs) = omega arith
sum-take-suc (suc n) [] = omega arith
sum-take-suc (suc n) (x ∷ xs) = omega (arith, sum-take-suc n xs)

get_elem?-get_or : (xs : List ℕ) (i : ℕ) → i < length xs → get_elem? xs i ≡ some (get_or xs i 0)
get_elem?-get_or [] i h = absurd (omega arith)
get_elem?-get_or (x ∷ xs) zero h = refl
get_elem?-get_or (x ∷ xs) (suc i) h = get_elem?-get_or xs i (omega arith)

plus_one : (i : ℕ) → i + 1 ≡ suc i
plus_one i = omega arith

-- The loop adds up what it passes, in 64 bits.
pub add_up-sum :
    (n i : ℕ) (xs : List ℕ)
    → i + n ≤ length xs
    → add_up n i (u64 (sum (take i xs))) xs ≡ some (u64 (sum (take (i + n) xs)))
unfolding add_up
add_up-sum zero i xs h = ap (λ m. some (u64 (sum (take m xs)))) (omega arith)
add_up-sum (suc n) i xs h =
    let grown : u64 (u64 (sum (take i xs)) + get_or xs i 0) ≡ u64 (sum (take (i + 1) xs)) =
      omega (arith, sum-take-suc i xs, ap (λ m. sum (take m xs)) (plus_one i)) in
    rw (get_elem?-get_or xs i (omega arith), grown, add_up)
      (add_up-sum n (i + 1) xs (omega arith) ∙ ap (λ m. some (u64 (sum (take m xs)))) (omega arith))

-- How many intervals ago an entry was stored.
abbrev pub age : ℕ → ℕ → ℕ → ℕ
age index k j = if leb j index then index - j else index + k - j

-- `hist` is what was stored, the last interval first.
pub record Window (hist : List ℕ) (r : RateLimit) : Type 0 where
  pub positive : 0 < r.stats_per_interval
  pub fits : r.stats_per_interval ≤ length r.traffic
  pub in_range : r.last_interval_index < r.stats_per_interval
  pub aged :
      (j : ℕ)
      → j < r.stats_per_interval
      → get_or r.traffic j 0 ≡ get_or hist (age r.last_interval_index r.stats_per_interval j) 0
  pub summed : sum (take r.stats_per_interval r.traffic) ≡ sum (take r.stats_per_interval hist)

next_index-lt : (r : RateLimit) → 0 < r.stats_per_interval → next_index r < r.stats_per_interval
unfolding next_index
next_index-lt r h = ground arith

oldest_age :
    (r : RateLimit)
    → 0 < r.stats_per_interval
    → r.last_interval_index < r.stats_per_interval
    → age r.last_interval_index r.stats_per_interval (next_index r) ≡ r.stats_per_interval - 1
unfolding next_index
oldest_age r p i = ground arith

-- The entry that is overwritten is the oldest.
oldest :
    (hist : List ℕ) (r : RateLimit)
    → Window hist r
    → get_or r.traffic (next_index r) 0 ≡ get_or hist (r.stats_per_interval - 1) 0
oldest hist r w =
    w.aged (next_index r) (next_index-lt r w.positive)
    ∙ ap (λ m. get_or hist m 0) (oldest_age r w.positive w.in_range)

-- Every other entry gets one interval older.
older :
    (r : RateLimit) (j : ℕ)
    → 0 < r.stats_per_interval
    → r.last_interval_index < r.stats_per_interval
    → j < r.stats_per_interval
    → j ≢ next_index r
    → age (next_index r) r.stats_per_interval j
      ≡ suc (age r.last_interval_index r.stats_per_interval j)
unfolding next_index
older r j p i h n = ground arith

newest : (i k : ℕ) → age i k i ≡ 0
newest i k = ground arith

-- The sum over the last intervals after one more.
sum-take_shift :
    (k v : ℕ) (hist : List ℕ)
    → 0 < k
    → sum (take k (v ∷ hist)) + get_or hist (k - 1) 0 ≡ v + sum (take k hist)
sum-take_shift zero v hist p = absurd (omega arith)
sum-take_shift (suc k) v hist p =
    let before : suc k - 1 ≡ k = omega arith in
    omega (arith, sum-take-suc k hist, ap (λ m. get_or hist m 0) before)

-- A store moves the window by one interval.
pub Window-set_elem :
    (hist : List ℕ) (r : RateLimit) (v count : ℕ)
    → Window hist r
    → (ys : List ℕ) × (set_elem r.traffic (next_index r) v ≡ some ys)
      × Window
          (v ∷ hist)
          (record r { last_interval_index = next_index r; traffic = ys; stats_count = count })
Window-set_elem hist r v count w =
    let k : ℕ = r.stats_per_interval in
    let i : ℕ = next_index r in
    let lt : i < k = next_index-lt r w.positive in
    let (ys, e, l, g, o, s) = set_elem-some r.traffic i v (omega (arith, lt, w.fits)) in
    (
      ys,
      e,
      record {
        positive = w.positive;
        fits = omega (arith, l, w.fits);
        in_range = lt;
        aged = λ j h. moved ys g o j h (Bool-cases (j == i));
        summed =
            omega (arith, s k lt, w.summed, oldest hist r w, sum-take_shift k v hist w.positive);
      },
    )
  where
    moved :
        (ys : List ℕ)
        → get_or ys (next_index r) 0 ≡ v
        → ((j : ℕ) → j ≢ next_index r → get_or ys j 0 ≡ get_or r.traffic j 0)
        → (j : ℕ) → j < r.stats_per_interval
        → ((j == next_index r) ≡ true) ⊎ ((j == next_index r) ≡ false)
        → get_or ys j 0 ≡ get_or (v ∷ hist) (age (next_index r) r.stats_per_interval j) 0
    moved ys g o j h (inl e) =
        let same : j ≡ next_index r = (==_iff j (next_index r)).0 e in
        ap (λ m. get_or ys m 0) same
        ∙ g
        ∙ sym (
            ap (λ m. get_or (v ∷ hist) m 0)
              (ap (age (next_index r) r.stats_per_interval) same
                ∙ newest (next_index r) r.stats_per_interval))
    moved ys g o j h (inr e) =
        let other : j ≢ next_index r = ground arith in
        o j other
        ∙ w.aged j h
        ∙ sym (ap (λ m. get_or (v ∷ hist) m 0) (older r j w.positive w.in_range h other))
