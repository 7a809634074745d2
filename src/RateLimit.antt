-- ===== src/RateLimit.antt =====
-- src/iperf_api.c: `iperf_check_total_rate`, by which a server ends a test whose average rate over the last
-- intervals is above its limit. The cyclic array is a list; none is an access beyond its end.
use iperf.Base.{
  ℕ, zero, suc, ◌+◌, ◌*◌, ◌<◌, Bool, true, false, ◌||◌, Option, none, some, List, [], ◌∷◌,
  get_elem?, if◌then◌else◌, ltb, leb, ◌==◌, u64,
}
pub mod Window
pub mod Average

-- The fields of the test and its settings; `traffic` is `bitrate_limit_intervals_traffic_bytes`.
pub record RateLimit : Type 0 where
  pub bitrate_limit : ℕ
  pub stats_per_interval : ℕ
  pub last_interval_index : ℕ
  pub traffic : List ℕ
  pub stats_count : ℕ
  pub exceeded : Bool

-- The store of an entry.
pub set_elem : List ℕ → ℕ → ℕ → Option (List ℕ)
set_elem [] i v = none
set_elem (x ∷ xs) zero v = some (v ∷ xs)
set_elem (x ∷ xs) (suc i) v = elim (set_elem xs i v) [ none ↦ none | some ys ↦ some (x ∷ ys) ]

-- The loop over the first `n` entries; `i` is the next index.
pub add_up : ℕ → ℕ → ℕ → List ℕ → Option ℕ
add_up zero i total xs = some total
add_up (suc n) i total xs = elim (get_elem? xs i) [
  | none ↦ none
  | some x ↦ add_up n (i + 1) (u64 (total + x)) xs
]

pub next_index : RateLimit → ℕ
next_index r =
    if leb r.stats_per_interval (r.last_interval_index + 1) then 0 else r.last_interval_index + 1

-- `bits_per_second` is the division of the bits by the seconds of the intervals, in doubles.
module _ (bits_per_second : ℕ → ℕ) where
  pub exceeds_limit : ℕ → RateLimit → Bool
  exceeds_limit total r = ltb r.bitrate_limit (bits_per_second (u64 (total * 8)))

  -- From the sum on.
  pub average : RateLimit → Option RateLimit
  unfolding add_up exceeds_limit
  average r = elim (add_up r.stats_per_interval 0 0 r.traffic) [
    | none ↦ none
    | some total ↦ some (if exceeds_limit total r then record r { exceeded = true } else r)
  ]

  pub check_total_rate : Bool → ℕ → RateLimit → Option RateLimit
  unfolding set_elem next_index average
  check_total_rate done last_bytes r =
      if done || (r.bitrate_limit == 0)
      then some r
      else elim (set_elem r.traffic (next_index r) last_bytes) [
        | none ↦ none
        | some stored ↦
            let r' = record r {
              last_interval_index = next_index r;
              traffic = stored;
              stats_count = u64 (r.stats_count + 1);
            } in
            if ltb r'.stats_count r'.stats_per_interval then some r' else average r'
      ]
