-- ===== src/Auth.antt =====
-- src/iperf_auth.c: `check_authentication`, the check of a user against the file of the authorized users. A text is
-- the list of its characters, and the file the list of its lines, as `fgets` gives them. The hash is an argument.
use iperf.Base.{
  ℕ, zero, suc, ◌+◌, Bool, true, false, not, ◌&&◌, ◌||◌, Option, none, some, List, [], ◌∷◌, ◌++◌,
  if◌then◌else◌, ◌==◌,
}
use iperf.Base.Int.{ℤ, pos, negsuc, ltb_ℤ, ◌+ℤ◌}
pub mod Users

abbrev pub Text : Type 0
Text = List ℕ

abbrev pub same_text : Text → Text → Bool
same_text [] [] = true
same_text [] (d ∷ t) = false
same_text (c ∷ s) [] = false
same_text (c ∷ s) (d ∷ t) = c == d && same_text s t

-- Up to the first end of a line.
unfoldable pub strip : Text → Text
strip [] = []
strip (c ∷ cs) = let rest = strip cs in if c == 10 || c == 13 then [] else c ∷ rest

abbrev pub has_comma : Text → Bool
has_comma [] = false
has_comma (c ∷ cs) = c == 44 || has_comma cs

abbrev starts_comment : Text → Bool
starts_comment [] = false
starts_comment (c ∷ cs) = c == 35

-- Empty lines, comments and lines without a comma.
unfoldable pub is_skipped : Text → Bool
is_skipped [] = true
is_skipped (c ∷ cs) = not (has_comma (c ∷ cs)) || starts_comment (c ∷ cs)

unfoldable pub skip_commas : Text → Text
skip_commas [] = []
skip_commas (c ∷ cs) = let rest = skip_commas cs in if c == 44 then rest else c ∷ cs

-- The text up to a comma, and what follows the comma.
unfoldable pub token : Text → Text × Text
token [] = ([], [])
token (c ∷ cs) = let rest = token cs in if c == 44 then ([], cs) else (c ∷ rest.0, rest.1)

abbrev token_of : Text → Option (Text × Text)
token_of [] = none
token_of (c ∷ cs) = some (token (c ∷ cs))

-- `strtok` for a comma: none is NULL.
unfoldable pub strtok : Text → Option (Text × Text)
unfolding skip_commas token
strtok s = token_of (skip_commas s)

-- 0 to 3, and the comparison with NULL, which ends the server.
pub data Checked : Type 0 where
  authorized wrong_time no_file refused crash : Checked

-- One line: none is the next one.
abbrev compare_password : Text → Option (Text × Text) → Option Checked
compare_password hash none = some crash
compare_password hash (some (s_password, rest)) =
    if same_text hash s_password then some authorized else none

abbrev compare_user : Text → Text → Option (Text × Text) → Option Checked
compare_user username hash none = some crash
compare_user username hash (some (s_username, rest)) =
    if same_text username s_username then compare_password hash (strtok rest) else none

unfoldable pub check_line : Text → Text → Text → Option Checked
unfolding strip is_skipped strtok
check_line username hash line =
    if is_skipped (strip line) then none else compare_user username hash (strtok (strip line))

abbrev pub or_next : Option Checked → Checked → Checked
or_next none next = next
or_next (some r) next = r

unfoldable pub check_lines : Text → Text → List Text → Checked
unfolding check_line
check_lines username hash [] = refused
check_lines username hash (line ∷ rest) =
    or_next (check_line username hash line) (check_lines username hash rest)

abbrev pub neg_ℤ : ℤ → ℤ
neg_ℤ (pos zero) = pos 0
neg_ℤ (pos (suc n)) = negsuc n
neg_ℤ (negsuc n) = pos (suc n)

abbrev pub is_skewed : ℤ → ℤ → ℤ → Bool
is_skewed utc ts threshold =
    ltb_ℤ threshold (utc +ℤ neg_ℤ ts) || ltb_ℤ (utc +ℤ neg_ℤ ts) (neg_ℤ threshold)

-- The hash is that of the user name in braces and the password.
abbrev pub salted : Text → Text → Text
salted username password = 123 ∷ (username ++ (125 ∷ password))

abbrev check_users_file : Text → Text → Option (List Text) → Checked
check_users_file username hash none = no_file
check_users_file username hash (some lines) = check_lines username hash lines

unfoldable pub check_authentication :
    (Text → Text) → ℤ → Text → Text → ℤ → Option (List Text) → ℤ → Checked
unfolding check_lines
check_authentication sha256 utc username password ts file threshold =
    if is_skewed utc ts threshold
    then wrong_time
    else check_users_file username (sha256 (salted username password)) file
