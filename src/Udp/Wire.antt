-- ===== src/Udp/Wire.antt =====
-- src/iperf_udp.c: the header that the receiver reads is the one that the sender wrote.
use iperf.Base.{ℕ, ◌+◌, ◌*◌, ◌/◌, ◌%◌, ◌<◌, ◌≡◌, true, false, List, u32, arith}
use iperf.Udp.{copy_over, Header, put_header, get_header}

join32 :
    (n : ℕ)
    → n < 4294967296
    → n / 16777216 % 256 * 16777216 + n / 65536 % 256 * 65536 + n / 256 % 256 * 256 + n % 256 ≡ n
join32 n h = omega arith

same_header :
    (a b : Header)
    → a.sent_time.secs ≡ b.sent_time.secs
    → a.sent_time.usecs ≡ b.sent_time.usecs
    → a.pcount ≡ b.pcount
    → a ≡ b
same_header a b p q r = ground arith

-- With wide counters the receiver gets the sender's time and packet number back, over any buffer.
pub get_header-put_header :
    (h : Header) (buffer : List ℕ)
    → h.sent_time.secs < 4294967296
    → h.sent_time.usecs < 4294967296
    → h.pcount < 18446744073709551616
    → get_header true (put_header true h buffer) ≡ h
unfolding get_header put_header
get_header-put_header h buffer s u p =
    same_header _ h (join32 h.sent_time.secs s) (join32 h.sent_time.usecs u) (omega arith)

-- With narrow counters it gets the time back, and the packet number modulo 2^32.
pub get_header-put_header_narrow :
    (h : Header) (buffer : List ℕ)
    → h.sent_time.secs < 4294967296
    → h.sent_time.usecs < 4294967296
    → get_header false (put_header false h buffer) ≡ record h { pcount = u32 h.pcount }
unfolding get_header put_header
get_header-put_header_narrow h buffer s u =
    same_header _ _ (join32 h.sent_time.secs s) (join32 h.sent_time.usecs u) (omega arith)

-- So too after the datagram has been copied into the receiver's buffer.
pub get_header-copy_over :
    (h : Header) (buffer other : List ℕ)
    → h.sent_time.secs < 4294967296
    → h.sent_time.usecs < 4294967296
    → h.pcount < 18446744073709551616
    → get_header true (copy_over (put_header true h buffer) other) ≡ h
unfolding get_header put_header
get_header-copy_over h buffer other s u p =
    same_header _ h (join32 h.sent_time.secs s) (join32 h.sent_time.usecs u) (omega arith)
