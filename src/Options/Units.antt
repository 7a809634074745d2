-- ===== src/Options/Units.antt =====
-- src/units.c: the readers of numbers with a suffix. A double is of any type with the product by a power of the
-- base; what `sscanf` reads of a text is an argument, the number and the character after it, or 0.
use iperf.Base.{
  ℕ, zero, suc, ◌*◌, ◌≤◌, ◌≡◌, refl, Bool, true, false, ◌||◌, Option, none, some, ◌⊎◌, inl, inr,
  if◌then◌else◌, ◌==◌, arith, Option-cases, ap, ◌∙◌, sym,
}

-- KILO_UNIT to TERA_UNIT, and the units of a rate.
abbrev pub power : ℕ → ℕ → ℕ
power base zero = 1
power base (suc k) = base * power base k

-- The cases of `suffix`: t, g, m and k in either case, and none.
unfoldable pub exponent : ℕ → Option ℕ
exponent suffix =
    if suffix == 116 || suffix == 84
    then some 4
    else if suffix == 103 || suffix == 71
    then some 3
    else if suffix == 109 || suffix == 77
    then some 2
    else if suffix == 107 || suffix == 75
    then some 1
    else if suffix == 0
    then some 0
    else none

exponent_bound : (suffix k : ℕ) → exponent suffix ≡ some k → k ≤ 4
unfolding exponent
exponent_bound suffix k h = ground arith

module _ (D : Type 0) (zero_d : D) (times : D → ℕ → D) (truncate : D → ℕ) where
  -- A number without a suffix is not multiplied.
  abbrev pub scaled : ℕ → D → ℕ → D
  scaled base n zero = n
  scaled base n (suc k) = times n (power base (suc k))

  -- The result and whether `i_errno` is set to IEUNITVAL: the number itself, where the suffix is unknown.
  abbrev atof_scaled : ℕ → D → Option ℕ → D × Bool
  atof_scaled base n none = (n, true)
  atof_scaled base n (some k) = (scaled base n k, false)

  abbrev atoi_scaled : D → Option ℕ → ℕ × Bool
  atoi_scaled n none = (0, true)
  atoi_scaled n (some k) = (truncate (scaled 1024 n k), false)

  unfoldable pub unit_atof : Option (D × ℕ) → D × Bool
  unit_atof none = (zero_d, true)
  unit_atof (some (n, suffix)) = atof_scaled 1024 n (exponent suffix)

  unfoldable pub unit_atof_rate : Option (D × ℕ) → D × Bool
  unit_atof_rate none = (zero_d, true)
  unit_atof_rate (some (n, suffix)) = atof_scaled 1000 n (exponent suffix)

  unfoldable pub unit_atoi : Option (D × ℕ) → ℕ × Bool
  unit_atoi none = (0, true)
  unit_atoi (some (n, suffix)) = atoi_scaled n (exponent suffix)

  -- The three readers take and refuse the same texts: a number with a suffix that they know. They then agree on
  -- the exponent, at most 4, of the base, which is 1000 for a rate and 1024 otherwise, and `unit_atoi` truncates
  -- what `unit_atof` gives.
  pub unit_readers_agree :
      (scan : Option (D × ℕ))
      → (((unit_atof scan).1 ≡ true)
          × ((unit_atof_rate scan).1 ≡ true)
          × (unit_atoi scan ≡ (0, true)))
        ⊎ ((n : D) × (suffix : ℕ) × (k : ℕ) × (scan ≡ some (n, suffix))
            × (exponent suffix ≡ some k)
            × (k ≤ 4)
            × (unit_atof scan ≡ (scaled 1024 n k, false))
            × (unit_atof_rate scan ≡ (scaled 1000 n k, false))
            × (unit_atoi scan ≡ (truncate (unit_atof scan).0, false)))
  unfolding unit_atof unit_atof_rate unit_atoi
  unit_readers_agree none = inl (refl, refl, refl)
  unit_readers_agree (some (n, suffix)) = elim (Option-cases (exponent suffix)) [
    | inl e ↦ inl (
      ap (λ o. (atof_scaled 1024 n o).1) e,
      ap (λ o. (atof_scaled 1000 n o).1) e,
      ap (λ o. atoi_scaled n o) e,
    )
    | inr (k, e) ↦ inr (
      n,
      suffix,
      k,
      refl,
      e,
      exponent_bound suffix k e,
      ap (λ o. atof_scaled 1024 n o) e,
      ap (λ o. atof_scaled 1000 n o) e,
      ap (λ o. atoi_scaled n o) e ∙ ap (λ o. (truncate (atof_scaled 1024 n o).0, false)) (sym e),
    )
  ]
