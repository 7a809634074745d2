-- ===== src/Auth/Users.antt =====
-- src/iperf_auth.c: who is authorized by a file of users.
use iperf.Base.{
  ◌≡◌, refl, ap, ◌∙◌, Bool, true, false, not, ◌&&◌, ◌||◌, Option, none, some, List, [], ◌∷◌, ◌++◌,
  map, if◌then◌else◌, ◌==◌, arith, All,
}
use iperf.Base.Int.{ℤ}
use iperf.Auth.{
  Text, same_text, strip, has_comma, is_skipped, skip_commas, token, strtok, compare_user,
  compare_password, Checked, authorized, wrong_time, refused, crash, check_line, or_next,
  check_lines, is_skewed, salted, check_authentication,
}

-- A line of the file, as it is meant: a comment, an empty line, or a user with a hash.
pub data Line : Type 0 where
  comment : Text → Line
  empty : Line
  user : Text → Text → Line

unfoldable pub print : Line → Text
print (comment text) = 35 ∷ (text ++ (10 ∷ []))
print empty = 10 ∷ []
print (user name hash) = name ++ (44 ∷ (hash ++ (10 ∷ [])))

-- No comma, and no end of a line.
unfoldable pub is_plain : Text → Bool
is_plain [] = true
is_plain (c ∷ cs) = not (c == 44) && not (c == 10) && not (c == 13) && is_plain cs

abbrev pub is_filled : Text → Bool
is_filled [] = false
is_filled (c ∷ cs) = true

abbrev pub no_hash_sign : Text → Bool
no_hash_sign [] = false
no_hash_sign (c ∷ cs) = not (c == 35)

abbrev pub IsWritten : Line → Type 0
IsWritten (user name hash) =
    (is_plain name ≡ true)
    × (no_hash_sign name ≡ true)
    × (is_plain hash ≡ true)
    × (is_filled hash ≡ true)
IsWritten _ = true ≡ true

-- The file has the user with this hash.
unfoldable pub has_user : Text → Text → List Line → Bool
has_user name hash [] = false
has_user name hash (user n h ∷ rest) =
    (same_text name n && same_text hash h) || has_user name hash rest
has_user name hash (_ ∷ rest) = has_user name hash rest

strip-plain : (xs ys : Text) → is_plain xs ≡ true → strip (xs ++ (10 ∷ ys)) ≡ xs
unfolding strip is_plain
strip-plain [] ys h = refl
strip-plain (c ∷ cs) ys h = ground (arith, strip-plain cs ys)

strip-append : (xs ys : Text) → is_plain xs ≡ true → strip (xs ++ ys) ≡ xs ++ strip ys
unfolding strip is_plain
strip-append [] ys h = refl
strip-append (c ∷ cs) ys h = ground (arith, strip-append cs ys)

token-plain : (xs ys : Text) → is_plain xs ≡ true → token (xs ++ (44 ∷ ys)) ≡ (xs, ys)
unfolding token is_plain
token-plain [] ys h = refl
token-plain (c ∷ cs) ys h = ground (arith, token-plain cs ys)

token-last : (xs : Text) → is_plain xs ≡ true → token xs ≡ (xs, [])
unfolding token is_plain
token-last [] h = refl
token-last (c ∷ cs) h = ground (arith, token-last cs)

has_comma-append : (xs ys : Text) → has_comma (xs ++ (44 ∷ ys)) ≡ true
has_comma-append [] ys = refl
has_comma-append (c ∷ cs) ys = ground (arith, has_comma-append cs ys)

strtok-first :
    (xs ys : Text)
    → is_plain xs ≡ true
    → no_hash_sign xs ≡ true
    → strtok (xs ++ (44 ∷ ys)) ≡ some (xs, ys)
unfolding strtok skip_commas is_plain
strtok-first [] ys h k = absurd cc
strtok-first (c ∷ cs) ys h k = ground (arith, token-plain (c ∷ cs) ys)

strtok-last : (xs : Text) → is_plain xs ≡ true → is_filled xs ≡ true → strtok xs ≡ some (xs, [])
unfolding strtok skip_commas is_plain
strtok-last [] h k = absurd cc
strtok-last (c ∷ cs) h k = ground (arith, token-last (c ∷ cs))

strip-comma : (s : Text) → strip (44 ∷ s) ≡ 44 ∷ strip s
unfolding strip
strip-comma s = refl

line_of_user :
    (name hash : Text)
    → IsWritten (user name hash)
    → strip (print (user name hash)) ≡ name ++ (44 ∷ hash)
unfolding print
line_of_user name hash (a, b, c, d) =
    strip-append name (44 ∷ (hash ++ (10 ∷ []))) a
    ∙ ap (λ z. name ++ z)
        (strip-comma (hash ++ (10 ∷ [])) ∙ ap (λ z. 44 ∷ z) (strip-plain hash [] c))

user_not_skipped :
    (name hash : Text) → no_hash_sign name ≡ true → is_skipped (name ++ (44 ∷ hash)) ≡ false
unfolding is_skipped
user_not_skipped [] hash h = absurd cc
user_not_skipped (c ∷ cs) hash h = ground (arith, has_comma-append (c ∷ cs) hash)

same_text_refl : (s : Text) → same_text s s ≡ true
same_text_refl [] = refl
same_text_refl (c ∷ s) = ground (arith, same_text_refl s)

-- A line that is not skipped.
check_line-token :
    (u p line stripped : Text) (t : Text × Text)
    → strip line ≡ stripped
    → is_skipped stripped ≡ false
    → strtok stripped ≡ some t
    → check_line u p line ≡ compare_user u p (some t)
unfolding check_line
check_line-token u p line stripped t e k h =
    ap (λ z. if is_skipped z then none else compare_user u p (strtok z)) e
    ∙ ap (λ b. if b then none else compare_user u p (strtok stripped)) k
    ∙ ap (compare_user u p) h

compare_password-last :
    (u p name : Text) (o : Option (Text × Text)) (hash : Text)
    → o ≡ some (hash, [])
    → (if same_text u name then compare_password p o else none)
      ≡ (if same_text u name && same_text p hash then some authorized else none)
compare_password-last u p name o hash e =
    ap (λ o. if same_text u name then compare_password p o else none) e ∙ ground arith

check_line-user :
    (u p name hash : Text)
    → IsWritten (user name hash)
    → check_line u p (print (user name hash))
      ≡ (if same_text u name && same_text p hash then some authorized else none)
check_line-user u p name hash (a, b, c, d) =
    check_line-token u p (print (user name hash)) (name ++ (44 ∷ hash)) (name, hash)
      (line_of_user name hash (a, b, c, d)) (user_not_skipped name hash b)
      (strtok-first name hash a b)
    ∙ compare_password-last u p name (strtok hash) hash (strtok-last hash c d)

check_line-comment : (u p text : Text) → check_line u p (print (comment text)) ≡ none
unfolding check_line print strip is_skipped
check_line-comment u p text = ground arith

check_line-empty : (u p : Text) → check_line u p (print empty) ≡ none
unfolding check_line print strip is_skipped
check_line-empty u p = refl

or_next-if :
    (a b : Bool) (o : Option Checked) (next : Checked)
    → o ≡ (if a then some authorized else none)
    → next ≡ (if b then authorized else refused)
    → or_next o next ≡ (if a || b then authorized else refused)
or_next-if a b o next h k = ground arith

check_lines-print :
    (u p : Text) (file : List Line)
    → All IsWritten file
    → check_lines u p (map print file) ≡ (if has_user u p file then authorized else refused)
unfolding check_lines has_user
check_lines-print u p [] w = refl
check_lines-print u p (comment text ∷ rest) (w, ws) =
    or_next-if false (has_user u p rest) _ _ (check_line-comment u p text)
      (check_lines-print u p rest ws)
check_lines-print u p (empty ∷ rest) (w, ws) =
    or_next-if false (has_user u p rest) _ _ (check_line-empty u p) (check_lines-print u p rest ws)
check_lines-print u p (user name hash ∷ rest) (w, ws) =
    or_next-if (same_text u name && same_text p hash) (has_user u p rest) _ _
      (check_line-user u p name hash w) (check_lines-print u p rest ws)

-- With a file of users as it is meant to be written, of which every line fits the buffer, a client is authorized if
-- and only if the time of its token is not off by more than the threshold and the file has its name with the
-- hash of its name and password. Otherwise the answer tells which of the two fails, the time first.
pub check_authentication_lem :
    (sha256 : Text → Text) (utc : ℤ) (username password : Text) (ts : ℤ) (file : List Line)
    (threshold : ℤ)
    → All IsWritten file
    → check_authentication sha256 utc username password ts (some (map print file)) threshold ≡ (
        if is_skewed utc ts threshold
        then wrong_time
        else if has_user username (sha256 (salted username password)) file
        then authorized
        else refused)
unfolding check_authentication
check_authentication_lem sha256 utc username password ts file threshold w =
    ground (arith, check_lines-print username (sha256 (salted username password)) file w)

strip-comma_end : (rest : Text) → strip (44 ∷ 10 ∷ rest) ≡ 44 ∷ []
unfolding strip
strip-comma_end rest = refl

strtok-nothing : strtok [] ≡ none
unfolding strtok skip_commas
strtok-nothing = refl

-- A line with a user name and a comma but nothing behind the comma ends the server when this user logs in.
pub check_line-crash :
    (name hash rest : Text)
    → is_plain name ≡ true
    → no_hash_sign name ≡ true
    → check_line name hash (name ++ (44 ∷ 10 ∷ rest)) ≡ some crash
check_line-crash name hash rest a b =
    check_line-token name hash (name ++ (44 ∷ 10 ∷ rest)) (name ++ (44 ∷ [])) (name, [])
      (strip-append name (44 ∷ 10 ∷ rest) a ∙ ap (λ z. name ++ z) (strip-comma_end rest))
      (user_not_skipped name [] b) (strtok-first name [] a b)
    ∙ ap (λ t. if t then compare_password hash (strtok []) else none) (same_text_refl name)
    ∙ ap (compare_password hash) strtok-nothing
