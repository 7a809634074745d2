-- ===== src/Options/Outcome.antt =====
-- src/iperf_api.c: what an option of `iperf_parse_arguments` comes to, the test so far or an error, and the tests
-- of ranges and roles that the options share.
use iperf.Base.{
  ℕ, Bool, true, false, ◌&&◌, not, Option, none, some, ◌⊎◌, inl, inr, if◌then◌else◌, leb,
}
use iperf.Base.Int.{ℤ, pos, negsuc, ltb_ℤ}
use iperf.Test.{Role, client, server, TestSettings, Test}
use iperf.Options.{Parsing, OptionError, unitval}

abbrev pub Outcome : Type 0
Outcome = Parsing ⊎ OptionError

-- `lo` to `hi`.
abbrev pub between : ℕ → ℕ → ℤ → Bool
between lo hi (pos n) = leb lo n && leb n hi
between lo hi (negsuc n) = false

abbrev pub at_most : ℕ → ℤ → Bool
at_most hi z = not (ltb_ℤ (pos hi) z)

abbrev pub is_role_client : Role → Bool
is_role_client client = true
is_role_client _ = false

abbrev pub is_role_server : Role → Bool
is_role_server server = true
is_role_server _ = false

abbrev pub for_client : Parsing → Parsing
for_client p = record p { client_flag = true }

abbrev pub for_server : Parsing → Parsing
for_server p = record p { server_flag = true }

abbrev pub with_test : Parsing → Test → Parsing
with_test p t = record p { test = t }

abbrev pub with_settings : Parsing → TestSettings → Parsing
with_settings p s = record p { test = record p.test { settings = s } }

abbrev pub accept_if : Bool → OptionError → Parsing → Outcome
accept_if b e p = if b then inl p else inr e

abbrev pub or_unitval : {A : Type 0} → Option A → (A → Outcome) → Outcome
or_unitval none f = inr unitval
or_unitval (some n) f = f n

abbrev pub and_then_set : Outcome → (Parsing → Outcome) → Outcome
and_then_set (inl p) f = f p
and_then_set (inr e) f = inr e

abbrev pub otherwise : Option Outcome → Outcome → Outcome
otherwise none o = o
otherwise (some o) _ = o
