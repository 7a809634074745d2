-- ===== src/RateLimit/Average.antt =====
-- When a server's rate limit is exceeded.
use iperf.Base.{
  ℕ, zero, suc, ◌+◌, ◌*◌, ◌<◌, ◌≤◌, ◌≡◌, refl, sym, ap, ◌∙◌, Bool, false, ◌||◌, ◌&&◌, Option, none,
  some, List, [], ◌∷◌, get_or, length, sum, take, if◌then◌else◌, ltb, leb, u64, arith,
}
use iperf.RateLimit.{
  RateLimit, set_elem, add_up, next_index, exceeds_limit, average, check_total_rate,
}
use iperf.RateLimit.Window.{Window, Window-set_elem, add_up-sum}

-- The entries of a new array.
abbrev pub zeros : ℕ → List ℕ
zeros zero = []
zeros (suc n) = 0 ∷ zeros n

-- MAX_INTERVAL, the size of the array.
abbrev pub max_interval : ℕ
max_interval = 60

-- The fields after `iperf_reset_test`, for a limit over the average of `k` intervals.
abbrev pub fresh : ℕ → ℕ → RateLimit
fresh limit k = record {
  bitrate_limit = limit;
  stats_per_interval = k;
  last_interval_index = 0;
  traffic = zeros max_interval;
  stats_count = 0;
  exceeded = false;
}

get_or-zeros : (n j : ℕ) → get_or (zeros n) j 0 ≡ 0
get_or-zeros zero j = refl
get_or-zeros (suc n) zero = refl
get_or-zeros (suc n) (suc j) = get_or-zeros n j

sum-take-zeros : (k n : ℕ) → sum (take k (zeros n)) ≡ 0
sum-take-zeros zero n = refl
sum-take-zeros (suc k) zero = refl
sum-take-zeros (suc k) (suc n) = omega (arith, sum-take-zeros k n)

sum-take_nil : (k : ℕ) → sum (take k []) ≡ 0
sum-take_nil zero = refl
sum-take_nil (suc k) = refl

fresh-Window : (limit k : ℕ) → 0 < k → k ≤ max_interval → Window [] (fresh limit k)
fresh-Window limit k p h = record {
  positive = p;
  fits = omega arith;
  in_range = p;
  aged = λ j l. get_or-zeros max_interval j;
  summed = sum-take-zeros k max_interval ∙ sym (sum-take_nil k);
}

set_elem-none : (xs : List ℕ) (i v : ℕ) → length xs ≤ i → set_elem xs i v ≡ none
unfolding set_elem
set_elem-none [] i v h = refl
set_elem-none (x ∷ xs) zero v h = absurd (omega arith)
set_elem-none (x ∷ xs) (suc i) v h = rw (set_elem-none xs i v (omega arith), set_elem) refl

module _ (bits_per_second : ℕ → ℕ) where
  -- Is the average rate over the last `k` intervals above the limit.
  abbrev pub too_fast : ℕ → ℕ → List ℕ → Bool
  too_fast limit k hist = ltb limit (bits_per_second (u64 (u64 (sum (take k hist)) * 8)))

  -- From what was before, and with the intervals that follow: was there ever an interval, the `k`th or a
  -- later one, with too high an average.
  abbrev pub ever_too_fast : ℕ → ℕ → List ℕ → List ℕ → Bool → Bool
  ever_too_fast limit k [] hist before = before
  ever_too_fast limit k (v ∷ vs) hist before =
      ever_too_fast limit k vs (v ∷ hist)
        (before || (leb k (length (v ∷ hist)) && too_fast limit k (v ∷ hist)))

  -- The check after each interval of a test that is not done.
  pub check_all : List ℕ → RateLimit → Option RateLimit
  check_all [] r = some r
  check_all (v ∷ vs) r = elim (check_total_rate bits_per_second false v r) [
    | none ↦ none
    | some r' ↦ check_all vs r'
  ]

  average_lem :
      (hist : List ℕ) (r : RateLimit)
      → Window hist r
      → average bits_per_second r
        ≡ some (record r {
          exceeded = r.exceeded || too_fast r.bitrate_limit r.stats_per_interval hist;
        })
  unfolding average exceeds_limit
  average_lem hist r w =
      let added : add_up r.stats_per_interval 0 0 r.traffic
          ≡ some (u64 (sum (take r.stats_per_interval hist))) =
        add_up-sum r.stats_per_interval 0 r.traffic (omega (arith, w.fits))
        ∙ ap (λ n. some (u64 n)) (ap (λ m. sum (take m r.traffic)) (omega arith) ∙ w.summed) in
      rw (added, average) (ground arith)

  -- The fields after the store.
  abbrev stored : RateLimit → List ℕ → RateLimit
  stored r ys = record r {
    last_interval_index = next_index r;
    traffic = ys;
    stats_count = u64 (r.stats_count + 1);
  }

  abbrev flagged : ℕ → List ℕ → RateLimit → RateLimit
  flagged n hist r = record r {
    exceeded =
        r.exceeded
        || (leb r.stats_per_interval n && too_fast r.bitrate_limit r.stats_per_interval hist);
  }

  decide_lem :
      (hist : List ℕ) (n : ℕ) (r : RateLimit)
      → Window hist r
      → r.stats_count ≡ n
      → (if ltb r.stats_count r.stats_per_interval then some r else average bits_per_second r)
        ≡ some (flagged n hist r)
  decide_lem hist n r w c = ground (arith, average_lem hist r w)

  check-stored :
      (r : RateLimit) (v : ℕ) (ys : List ℕ)
      → 0 < r.bitrate_limit
      → set_elem r.traffic (next_index r) v ≡ some ys
      → check_total_rate bits_per_second false v r ≡ (
          if ltb (stored r ys).stats_count r.stats_per_interval
          then some (stored r ys)
          else average bits_per_second (stored r ys))
  unfolding check_total_rate
  check-stored r v ys limited e = ground arith

  check_total_rate_lem :
      (hist : List ℕ) (r : RateLimit) (v : ℕ)
      → Window hist r
      → r.stats_count ≡ length hist
      → suc (length hist) < 18446744073709551616
      → 0 < r.bitrate_limit
      → (r' : RateLimit) × (check_total_rate bits_per_second false v r ≡ some r')
        × Window (v ∷ hist) r'
        × (r'.stats_count ≡ suc (length hist))
        × (r'.bitrate_limit ≡ r.bitrate_limit)
        × (r'.stats_per_interval ≡ r.stats_per_interval)
        × (r'.exceeded ≡ (
            r.exceeded
            || (leb r.stats_per_interval (suc (length hist))
                && too_fast r.bitrate_limit r.stats_per_interval (v ∷ hist))))
  check_total_rate_lem hist r v w c small limited =
      let (ys, e, w') = Window-set_elem hist r v (u64 (r.stats_count + 1)) w in
      let counted : u64 (r.stats_count + 1) ≡ suc (length hist) = omega arith in
      (
        flagged (suc (length hist)) (v ∷ hist) (stored r ys),
        check-stored r v ys limited e
            ∙ decide_lem (v ∷ hist) (suc (length hist)) (stored r ys) w' counted,
        record {
          positive = w'.positive;
          fits = w'.fits;
          in_range = w'.in_range;
          aged = w'.aged;
          summed = w'.summed;
        },
        counted,
        refl,
        refl,
        refl,
      )

  ever_too_fast-cong :
      {limit limit' k k' : ℕ} {before before' : Bool} (vs hist : List ℕ)
      → limit ≡ limit'
      → k ≡ k'
      → before ≡ before'
      → ever_too_fast limit k vs hist before ≡ ever_too_fast limit' k' vs hist before'
  ever_too_fast-cong vs hist p q r = rw (p, q, r) refl

  check_all_lem :
      (vs hist : List ℕ) (r : RateLimit)
      → Window hist r
      → r.stats_count ≡ length hist
      → length hist + length vs < 18446744073709551616
      → 0 < r.bitrate_limit
      → (r' : RateLimit) × (check_all vs r ≡ some r')
        × (r'.exceeded ≡ ever_too_fast r.bitrate_limit r.stats_per_interval vs hist r.exceeded)
  unfolding check_all
  check_all_lem [] hist r w c small limited = (r, refl, refl)
  check_all_lem (v ∷ vs) hist r w c small limited =
      let (r1, e1, w1, c1, l1, k1, x1) = check_total_rate_lem hist r v w c (omega arith) limited in
      let (r2, e2, x2) = check_all_lem vs (v ∷ hist) r1 w1 c1 (omega arith) (omega (arith, l1)) in
      (r2, rw (e1, check_all) e2, x2 ∙ ever_too_fast-cong vs (v ∷ hist) l1 k1 x1)

  -- With a limit over the average of at most MAX_INTERVAL intervals, the check after each interval of a
  -- test stays within its array, and the limit counts as exceeded exactly if the average rate over the last
  -- intervals was above it at some interval from the one on where there were enough.
  pub check_all_exceeded :
      (limit k : ℕ) (vs : List ℕ)
      → 0 < limit
      → 0 < k
      → k ≤ max_interval
      → length vs < 18446744073709551616
      → (r : RateLimit) × (check_all vs (fresh limit k) ≡ some r)
        × (r.exceeded ≡ ever_too_fast limit k vs [] false)
  check_all_exceeded limit k vs l p h small =
      check_all_lem vs [] (fresh limit k) (fresh-Window limit k p h) refl (omega arith) l

  -- With more intervals than MAX_INTERVAL, the check that comes to the end of the array writes beyond it.
  pub check_total_rate_overruns :
      (r : RateLimit) (v : ℕ)
      → 0 < r.bitrate_limit
      → r.last_interval_index + 1 ≡ length r.traffic
      → length r.traffic < r.stats_per_interval
      → check_total_rate bits_per_second false v r ≡ none
  unfolding check_total_rate next_index
  check_total_rate_overruns r v l e h =
      ground (arith, set_elem-none r.traffic (r.last_interval_index + 1) v)
