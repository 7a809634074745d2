-- ===== src/Json.antt =====
-- The objects that src/iperf_api.c builds and reads by cJSON, as their members in order, and
-- `iperf_cJSON_GetObjectItemType` of src/iperf_util.c. The text form is cJSON's and not modelled.
use Prim.Native.String.{String}
use Prim.Native.Char.{code}
use iperf.Base.{
  ℕ, zero, suc, ◌≡◌, ◌<◌, ◌*◌, ◌/◌, ◌%◌, ◌||◌, ltb, lt→ltb, refl, ap, Bool, true, false, Option,
  none, some, List, [], ◌∷◌, if◌then◌else◌, arith, ◌+◌, ◌&&◌, leb, ◌==◌,
}
use iperf.Base.Int.{ℤ, pos}
pub mod Framing

-- The distance of the doubles around a number of 64 bits, at least 1: a double has 53 bits.
unfoldable pub spacing : ℕ → ℕ → ℕ → ℕ
spacing zero unit n = unit
spacing (suc fuel) unit n =
    let wider = spacing fuel (2 * unit) n in if ltb n (9007199254740992 * unit) then unit else wider

-- To the nearest double, and to the even one of two.
unfoldable pub round_to : ℕ → ℕ → ℕ
round_to unit n =
    let q = n / unit in
    let r = n % unit in
    if ltb (2 * r) unit || (2 * r == unit && q % 2 == 0) then q * unit else (q + 1) * unit

-- An iperf_size_t that `cJSON_AddNumberToObject` takes as a double, by the `valueint` of 64 bits that it is read by.
unfoldable pub as_double : ℕ → ℤ
unfolding spacing round_to
as_double n =
    let d = round_to (spacing 11 1 n) n in
    if ltb d 9223372036854775808 then pos d else pos 9223372036854775807

spacing_exact : (n : ℕ) → n < 9007199254740992 → spacing 11 1 n ≡ 1
unfolding spacing
spacing_exact n h = rw (lt→ltb n 9007199254740992 h) refl

round_to_one : (n : ℕ) → round_to 1 n ≡ n
unfolding round_to
round_to_one n = ground arith

-- Below 2^53 nothing is lost.
pub as_double_lem : (n : ℕ) → n < 9007199254740992 → as_double n ≡ pos n
unfolding as_double
as_double_lem n h =
    rw (spacing_exact n h, round_to_one n, lt→ltb n 9223372036854775808 (omega arith)) refl

-- A number stands for the item's `valueint`, all that get_parameters reads of it: an int64_t in this copy of cJSON.
-- An int is exact as a double.
pub data Value : Type 0 where
  true_value false_value : Value
  number : ℤ → Value
  string : String → Value

abbrev pub Object : Type 0
Object = List (String × Value)

-- `case_insensitive_strcmp` of cJSON, on ASCII: the keys of `cJSON_GetObjectItem`.
abbrev lower : ℕ → ℕ
lower c = if leb 65 c && leb c 90 then c + 32 else c

abbrev pub same_key : String → String → Bool
same_key String.[] String.[] = true
same_key String.[] (String.◌∷◌ d t) = false
same_key (String.◌∷◌ c s) String.[] = false
same_key (String.◌∷◌ c s) (String.◌∷◌ d t) = lower (code c) == lower (code d) && same_key s t

-- `cJSON_GetObjectItem`: the first member of that name.
unfoldable pub get_object_item : {V : Type 0} → String → List (String × V) → Option V
get_object_item key [] = none
get_object_item key ((k, v) ∷ rest) = if same_key k key then some v else get_object_item key rest

-- The value behind a member that must have a type; another type is as if the member were absent.
abbrev pub as_bool : Value → Option Bool
as_bool true_value = some true
as_bool false_value = some true
as_bool _ = none

abbrev pub as_number : Value → Option ℤ
as_number (number n) = some n
as_number _ = none

abbrev pub as_string : Value → Option String
as_string (string s) = some s
as_string _ = none

-- `valueint`: the parser sets it to 1 for `true`, and leaves the 0 of a new item otherwise.
abbrev pub value_int : Value → ℤ
value_int (number n) = n
value_int true_value = pos 1
value_int _ = pos 0

abbrev pub and_then : {V A : Type 0} → Option V → (V → Option A) → Option A
and_then none f = none
and_then (some v) f = f v

-- `iperf_cJSON_GetObjectItemType` with cJSON_True: also `false` passes, since the test is cJSON_IsBool.
unfoldable pub has_bool : String → Object → Bool
has_bool key j = elim (and_then (get_object_item key j) as_bool) [ none ↦ false | some _ ↦ true ]

unfoldable pub get_number : String → Object → Option ℤ
get_number key j = and_then (get_object_item key j) as_number

unfoldable pub get_string : String → Object → Option String
get_string key j = and_then (get_object_item key j) as_string

abbrev pub or_keep : {A : Type 0} → Option A → A → A
or_keep none old = old
or_keep (some new) old = new

-- Members that are added under conditions, `none` for one that is not.
abbrev pub Slots : Type 0
Slots = List (String × Option Value)

unfoldable pub build : {V : Type 0} → List (String × Option V) → List (String × V)
build [] = []
build ((k, none) ∷ rest) = build rest
build ((k, some v) ∷ rest) = (k, v) ∷ build rest

abbrev pub or_else : {V : Type 0} → Option V → Option V → Option V
or_else none other = other
or_else (some v) other = some v

-- What a key finds, read off the slots.
abbrev pub find_slot : {V : Type 0} → String → List (String × Option V) → Option V
find_slot key [] = none
find_slot key ((k, o) ∷ rest) =
    if same_key k key then or_else o (find_slot key rest) else find_slot key rest

pub get_object_item-build :
    {V : Type 0} (key : String) (slots : List (String × Option V))
    → get_object_item key (build slots) ≡ find_slot key slots
unfolding get_object_item build
get_object_item-build key [] = refl
get_object_item-build key ((k, none) ∷ rest) = ground (arith, get_object_item-build key rest)
get_object_item-build key ((k, some v) ∷ rest) = ground (arith, get_object_item-build key rest)

pub get_number-build :
    (key : String) (slots : Slots)
    → get_number key (build slots) ≡ and_then (find_slot key slots) as_number
unfolding get_number
get_number-build key slots = rw (get_object_item-build key slots)

pub get_string-build :
    (key : String) (slots : Slots)
    → get_string key (build slots) ≡ and_then (find_slot key slots) as_string
unfolding get_string
get_string-build key slots = rw (get_object_item-build key slots)

abbrev pub finds_bool : Option Value → Bool
finds_bool o = elim (and_then o as_bool) [ none ↦ false | some _ ↦ true ]

pub has_bool-build :
    (key : String) (slots : Slots) → has_bool key (build slots) ≡ finds_bool (find_slot key slots)
unfolding has_bool
has_bool-build key slots = ap finds_bool (get_object_item-build key slots)
