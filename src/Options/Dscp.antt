-- ===== src/Options/Dscp.antt =====
-- src/dscp.c: the names of the code points of DiffServ. `strtol` is an argument: the number that the whole of
-- the text is, if it is one.
use Prim.Native.String.{String}
use iperf.Base.{
  ℕ, ◌*◌, ◌%◌, ◌≤◌, ◌<◌, ◌≡◌, refl, ◌∙◌, ap, true, ◌||◌, Option, none, some, List, [], ◌∷◌, ◌⊎◌,
  inl, inr, if◌then◌else◌, arith, Option-cases, Bool-cases, ◌==◌, ltb,
}
use iperf.Base.Int.{ℤ, pos, negsuc, ltb_ℤ, eqb_ℤ}
use iperf.Json.{same_key}

unfoldable pub ipqos : List (String × ℕ)
ipqos =
    ("af11", 40)
    ∷ ("af12", 48)
    ∷ ("af13", 56)
    ∷ ("af21", 72)
    ∷ ("af22", 80)
    ∷ ("af23", 88)
    ∷ ("af31", 104)
    ∷ ("af32", 112)
    ∷ ("af33", 120)
    ∷ ("af41", 136)
    ∷ ("af42", 144)
    ∷ ("af43", 152)
    ∷ ("cs0", 0)
    ∷ ("cs1", 32)
    ∷ ("cs2", 64)
    ∷ ("cs3", 96)
    ∷ ("cs4", 128)
    ∷ ("cs5", 160)
    ∷ ("cs6", 192)
    ∷ ("cs7", 224)
    ∷ ("ef", 184)
    ∷ ("va", 176)
    ∷ ("lowdelay", 16)
    ∷ ("throughput", 8)
    ∷ ("reliability", 4)
    ∷ []

-- The first entry of a name, in any case of letters, and the first one of a value.
unfoldable pub value_of : String → List (String × ℕ) → Option ℕ
value_of name [] = none
value_of name ((n, v) ∷ rest) = if same_key name n then some v else value_of name rest

unfoldable pub name_of : ℤ → List (String × ℕ) → Option String
name_of value [] = none
name_of value ((n, v) ∷ rest) = if eqb_ℤ (pos v) value then some n else name_of value rest

abbrev shifted : Option ℤ → ℤ
shifted none = negsuc 0
shifted (some (negsuc n)) = negsuc 0
shifted (some (pos n)) = if ltb 63 n then negsuc 0 else pos (n * 4)

abbrev value_or : Option ℕ → Option ℤ → ℤ
value_or none strtol = shifted strtol
value_or (some v) strtol = pos v

unfoldable pub parse_qos : String → Option ℤ → ℤ
parse_qos text strtol = value_or (value_of text ipqos) strtol

-- A text is a name or a number in hexadecimal.
pub data Shown : Type 0 where
  name : String → Shown
  hex : ℤ → Shown

abbrev named : Option String → ℤ → Shown
named none value = hex value
named (some n) value = name n

abbrev shown_value : ℤ → ℤ
shown_value iptos = if ltb_ℤ iptos (pos 0) || ltb_ℤ (pos 64) iptos then pos 0 else iptos

unfoldable pub iptos2str : ℤ → Shown
iptos2str iptos = let value = shown_value iptos in named (name_of value ipqos) value

-- A code point of six bits, above the two bits of ECN, which are 0.
abbrev pub IsCodePoint : ℕ → Type 0
IsCodePoint v = (v < 256) × (v % 4 ≡ 0)

value_of-IsCodePoint : (text : String) (v : ℕ) → value_of text ipqos ≡ some v → IsCodePoint v
unfolding ipqos value_of
value_of-IsCodePoint text v h = ground arith

shifted-IsCodePoint : (number : Option ℤ) (v : ℕ) → shifted number ≡ pos v → IsCodePoint v
shifted-IsCodePoint number v h = ground arith

-- What `parse_qos` accepts, by its name or as a number, is a code point, which leaves the bits of ECN 0.
parse_qos-IsCodePoint :
    (text : String) (strtol : Option ℤ) (v : ℕ) → parse_qos text strtol ≡ pos v → IsCodePoint v
unfolding parse_qos
parse_qos-IsCodePoint text strtol v h = elim (Option-cases (value_of text ipqos)) [
  | inr (u, e) ↦ value_of-IsCodePoint text v (ground (arith, e))
  | inl e ↦ shifted-IsCodePoint strtol v (ground (arith, e))
]

-- Every entry is the first one of its name in the table.
abbrev Resolves : List (String × ℕ) → List (String × ℕ) → Type 0
Resolves table [] = true ≡ true
Resolves table ((n, v) ∷ rest) = (value_of n table ≡ some v) × Resolves table rest

name_of-value_of :
    (table rest : List (String × ℕ)) (v : ℕ) (w : String)
    → Resolves table rest
    → name_of (pos v) rest ≡ some w
    → value_of w table ≡ some v
unfolding name_of
name_of-value_of table [] v w r h = absurd cc
name_of-value_of table ((n, u) ∷ rest) v w (first, r) h = elim (Bool-cases (u == v)) [
  | inl e ↦ ground (arith, h, e, first)
  | inr e ↦ name_of-value_of table rest v w r (ground (arith, h, e))
]

ipqos-Resolves : Resolves ipqos ipqos
unfolding ipqos value_of
ipqos-Resolves = ground arith

zero_named : named (name_of (pos 0) ipqos) (pos 0) ≡ name "cs0"
unfolding name_of ipqos
zero_named = refl

-- `iptos2str` shows a value up to 64 by a name that `parse_qos` reads as this value, or in hexadecimal where no
-- name has it; every value above 64 it shows as cs0.
pub iptos2str_lem :
    (v : ℕ)
    → ((64 < v) × (iptos2str (pos v) ≡ name "cs0"))
      ⊎ ((v ≤ 64)
          × ((w : String) × (iptos2str (pos v) ≡ name w)
              × ((number : Option ℤ) → parse_qos w number ≡ pos v)))
      ⊎ ((v ≤ 64) × (name_of (pos v) ipqos ≡ none) × (iptos2str (pos v) ≡ hex (pos v)))
unfolding iptos2str parse_qos
iptos2str_lem v = elim (Bool-cases (ltb 64 v)) [
  | inl above ↦
      let same : shown_value (pos v) ≡ pos 0 = ground arith in
      inl (ground arith, ap (λ z. named (name_of z ipqos) z) same ∙ zero_named)
  | inr below ↦
      let same : shown_value (pos v) ≡ pos v = ground arith in
      elim (Option-cases (name_of (pos v) ipqos)) [
        | inl e ↦ inr (
            inr (
              ground arith,
              e,
              ap (λ z. named (name_of z ipqos) z) same ∙ ap (λ o. named o (pos v)) e,
            ))
        | inr (w, e) ↦ inr (
            inl (
              ground arith,
              (
                w,
                ap (λ z. named (name_of z ipqos) z) same ∙ ap (λ o. named o (pos v)) e,
                λ number.
                    ap (λ o. value_or o number) (name_of-value_of ipqos ipqos v w ipqos-Resolves e),
              ),
            ))
      ]
]
