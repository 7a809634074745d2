-- ===== src/Tests/Auth.antt =====
-- src/iperf_auth.c: a file of two users and a comment.
use iperf.Base.{ℕ, ◌+◌, ◌≡◌, refl, some, List, [], ◌∷◌, map}
use iperf.Base.Int.{pos, ◌+ℤ◌}
use iperf.Auth.{Text, authorized, check_authentication}
use iperf.Auth.Users.{
  is_plain, has_user, Line, comment, empty, user, print, check_authentication_lem,
}

abbrev file : List Line
file =
    comment (97 ∷ 44 ∷ 98 ∷ [])
    ∷ user (97 ∷ []) (98 ∷ [])
    ∷ empty
    ∷ user (99 ∷ []) (100 ∷ 101 ∷ [])
    ∷ []

-- A hash that forgets all but the length.
abbrev count : Text → ℕ
count [] = 94
count (c ∷ s) = count s + 1

check_authentication_lem_example :
    check_authentication
      (λ s. count s ∷ [])
      (pos 100)
      (97 ∷ [])
      (1 ∷ [])
      (pos 95)
      (some (map print file))
      (pos 10)
    ≡ authorized
unfolding is_plain ◌+ℤ◌ has_user
check_authentication_lem_example =
    check_authentication_lem (λ s. count s ∷ []) (pos 100) (97 ∷ []) (1 ∷ []) (pos 95) file (pos 10)
      (refl, ((refl, refl, refl, refl), (refl, ((refl, refl, refl, refl), tt))))
