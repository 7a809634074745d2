-- ===== src/Tests/Readers.antt =====
-- src/units.c and src/dscp.c on texts: 5K, and the code point of cs3.
use iperf.Base.{ℕ, ◌*◌, ◌≡◌, refl, false, Option, none, some}
use iperf.Base.Int.{pos}
use iperf.Options.Units.{unit_atoi, exponent}
use iperf.Options.Dscp.{parse_qos, value_of, ipqos}

abbrev five_kilo : Option (ℕ × ℕ)
five_kilo = some (5, 75)

reads_kilo : unit_atoi ℕ 0 ◌*◌ (λ n. n) five_kilo ≡ (5120, false)
unfolding unit_atoi exponent
reads_kilo = refl

reads_cs3 : parse_qos "CS3" none ≡ pos 96
unfolding parse_qos value_of ipqos
reads_cs3 = refl
