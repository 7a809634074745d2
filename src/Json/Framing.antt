-- ===== src/Json/Framing.antt =====
-- src/iperf_api.c: `JSON_write` and `JSON_read`, which send an object as its length in four bytes and its
-- text. `print` and `parse` are cJSON's; `Nwrite` and `Nread` are the interface `Net` over the state of the
-- connection.
use mathlib.Core.List.{append_assoc}
use iperf.Base.{
  take-append, ℕ, ◌<◌, ◌≡◌, refl, ap, ◌∙◌, Bool, true, false, ◌&&◌, ◌||◌, Option, none, some, List,
  [], ◌∷◌, ◌++◌, length, ltb, leb, ◌==◌, if◌then◌else◌, u32, take, drop, arith,
}
use iperf.Net.{Io, bytes}
use iperf.Udp.{be32, from_be32}

pub record Connection (W : Type 0) : Type 0 where
  pub nwrite : List ℕ → W → Io × W
  pub nread : ℕ → W → (Io × List ℕ) × W

abbrev is_error : Io → Bool
is_error (bytes n) = false
is_error _ = true

-- `rc == n` of the int that a read returns, where no error is reported.
abbrev returned : Io → ℕ → Bool
returned (bytes r) n = ltb r 2147483648 && r == n
returned _ n = false

abbrev size_allowed : ℕ → ℕ → Bool
size_allowed max_size hsize = ltb 0 hsize && (max_size == 0 || leb hsize max_size)

module _ {J W : Type 0} (net : Connection W) where
  -- `none` of `print` is an object that cJSON cannot print.
  unfoldable pub json_write : (J → Option (List ℕ)) → J → W → Bool × W
  unfolding be32
  json_write print j w = elim (print j) [
    | none ↦ (false, w)
    | some str ↦
        let (rc, w1) = net.nwrite (be32 (u32 (length str))) w in
        if is_error rc
        then (false, w1)
        else let (rc', w2) = net.nwrite (take (u32 (length str)) str) w1 in
          (if is_error rc' then false else true, w2)
  ]

  -- The text behind the length.
  unfoldable pub read_text : (List ℕ → Option J) → ℕ → W → Option J × W
  read_text parse hsize w =
      let ((rc, str), w') = net.nread hsize w in (if returned rc hsize then parse str else none, w')

  unfoldable pub json_read : (List ℕ → Option J) → ℕ → W → Option J × W
  unfolding read_text from_be32
  json_read parse max_size w =
      let ((rc, nsize), w1) = net.nread 4 w in
      if returned rc 4 && size_allowed max_size (from_be32 nsize 0)
      then read_text parse (from_be32 nsize 0) w1
      else (none, w1)

-- A connection in order without loss: the bytes under way. A read gives what is there up to its count.
abbrev pub pipe : Connection (List ℕ)
pipe = record {
  nwrite = λ buf w. (bytes (length buf), w ++ buf);
  nread = λ count w. ((bytes (length (take count w)), take count w), drop count w);
}

take_all : {A : Type 0} (xs : List A) → take (length xs) xs ≡ xs
take_all [] = refl
take_all (x ∷ xs) = ap (◌∷◌ x) (take_all xs)

drop-append : {A : Type 0} (xs ys : List A) → drop (length xs) (xs ++ ys) ≡ ys
drop-append [] ys = refl
drop-append (x ∷ xs) ys = drop-append xs ys

from_be32-be32 :
    (n : ℕ) (rest : List ℕ) → n < 4294967296 → from_be32 (take 4 (be32 n ++ rest)) 0 ≡ n
unfolding from_be32 be32
from_be32-be32 n rest h = omega (arith, h)

-- What is written over a pipe is the length in four bytes and the text.
json_write-pipe :
    {J : Type 0} (print : J → Option (List ℕ)) (j : J) (str w : List ℕ)
    → print j ≡ some str
    → length str < 4294967296
    → json_write pipe print j w ≡ (true, (w ++ be32 (length str)) ++ str)
unfolding json_write
json_write-pipe print j str w e h =
    let same : u32 (length str) ≡ length str = omega (arith, h) in
    rw (json_write, e, same, take_all str)

read_text-pipe :
    {J : Type 0} (parse : List ℕ → Option J) (str rest : List ℕ)
    → length str < 2147483648
    → read_text pipe parse (length str) (str ++ rest) ≡ (parse str, rest)
unfolding read_text
read_text-pipe parse str rest h =
    let ok : (ltb (length str) 2147483648 && length str == length str) ≡ true = ground (arith, h) in
    rw (take-append str rest, drop-append str rest, ok)

json_read-pipe :
    {J : Type 0} (parse : List ℕ → Option J) (n max_size : ℕ) (tail : List ℕ)
    → n < 4294967296
    → json_read pipe parse max_size (be32 n ++ tail)
      ≡ (if size_allowed max_size n then read_text pipe parse n tail else (none, tail))
unfolding json_read be32
json_read-pipe parse n max_size tail h = rw (from_be32-be32 n tail h)

-- Over a connection without loss, a text below 2^31 bytes that was written is read back if its length is not 0 and
-- within `max_size`, where 0 is no limit, and what was written behind it stays for the next read. A longer text is refused
-- after the four bytes of its length, and none of it is read.
pub json_read-json_write :
    {J : Type 0} (print : J → Option (List ℕ)) (parse : List ℕ → Option J) (j : J)
    (str rest : List ℕ) (max_size : ℕ)
    → print j ≡ some str
    → parse str ≡ some j
    → length str < 2147483648
    → json_read pipe parse max_size ((json_write pipe print j []).1 ++ rest)
      ≡ (if size_allowed max_size (length str) then (some j, rest) else (none, str ++ rest))
json_read-json_write print parse j str rest max_size e p h =
    let sent = ap (λ z. z.1 ++ rest) (json_write-pipe print j str [] e (omega arith)) in
    let text : read_text pipe parse (length str) (str ++ rest) ≡ (some j, rest) =
      read_text-pipe parse str rest h ∙ ap (λ o. (o, rest)) p in
    ap (json_read pipe parse max_size) (sent ∙ append_assoc (be32 (length str)) str rest)
    ∙ json_read-pipe parse (length str) max_size (str ++ rest) (omega arith)
    ∙ ap (λ z. if size_allowed max_size (length str) then z else (none, str ++ rest)) text
