-- ===== src/Udp.antt =====
-- src/iperf_udp.c, the accounting of a UDP stream: `iperf_udp_recv` and `iperf_udp_send`, with the
-- packet header. Buffers are lists of bytes. What read(2) and write(2) gave, and the clock, are
-- arguments.
use iperf.Base.{
  ℕ, zero, suc, get_or, length, take, drop, ◌+◌, ◌-◌, ◌*◌, ◌/◌, ◌%◌, ◌<◌, Bool, true, false, ◌&&◌,
  Option, none, some, List, [], ◌∷◌, ◌++◌, ltb, leb, ◌==◌, if◌then◌else◌, u32, u64, sub64,
}
use iperf.Time.{IperfTime, time_diff}
use iperf.State.{State, test_running}
use iperf.Net.{Io, bytes, soft_error, hard_error, Read, Write, nwrite, nrecv_no_select}
pub mod Wire
pub mod Loss
pub mod Send

-- `double`, which is not the language's own, with the operations that the jitter takes.
pub record Double : Type 1 where
  pub Carrier : Type 0
  pub zero_double : Carrier
  pub time_in_secs : IperfTime → Carrier
  pub minus : Carrier → Carrier → Carrier
  pub plus : Carrier → Carrier → Carrier
  pub over_16 : Carrier → Carrier
  pub negate : Carrier → Carrier
  pub is_negative : Carrier → Bool

-- The sequence numbers of a stream: int64_t words.
pub record Sequence : Type 0 where
  pub packet_count : ℕ
  pub outoforder_packets : ℕ
  pub cnt_error : ℕ

-- `sp->cnt_error > 0` of an int64_t.
abbrev pub is_positive : ℕ → Bool
is_positive w = ltb 0 w && ltb w 9223372036854775808

-- What a packet's number does to the counters; the comparisons are of uint64_t.
unfoldable pub count_packet : ℕ → Sequence → Sequence
count_packet pcount s =
    let expected = u64 (s.packet_count + 1) in
    if leb expected pcount
    then record s {
      cnt_error =
          if ltb expected pcount
          then u64 (s.cnt_error + sub64 (sub64 pcount 1) s.packet_count)
          else s.cnt_error;
      packet_count = pcount;
    }
    else record s {
      outoforder_packets = u64 (s.outoforder_packets + 1);
      cnt_error = if is_positive s.cnt_error then sub64 s.cnt_error 1 else s.cnt_error;
    }

-- A word's bytes in network order, and back.
unfoldable pub be32 : ℕ → List ℕ
be32 n = n / 16777216 % 256 ∷ n / 65536 % 256 ∷ n / 256 % 256 ∷ n % 256 ∷ []

pub be64 : ℕ → List ℕ
unfolding be32
be64 n = be32 (n / 4294967296) ++ be32 (n % 4294967296)

unfoldable pub from_be32 : List ℕ → ℕ → ℕ
from_be32 b i =
    get_or b i 0 * 16777216
    + get_or b (i + 1) 0 * 65536
    + get_or b (i + 2) 0 * 256
    + get_or b (i + 3) 0

-- memcpy over the start of a buffer.
pub copy_over : List ℕ → List ℕ → List ℕ
copy_over xs buffer = xs ++ drop (length xs) buffer

-- The header: the time of sending and the number of the packet.
pub record Header : Type 0 where
  pub sent_time : IperfTime
  pub pcount : ℕ

-- `wide` is `udp_counters_64bit`; a narrow header holds the low 32 bits of the number.
unfoldable pub put_header : Bool → Header → List ℕ → List ℕ
unfolding be32 be64 copy_over
put_header wide h buffer =
    copy_over
      (be32 h.sent_time.secs
        ++ be32 h.sent_time.usecs
        ++ (if wide then be64 h.pcount else be32 (u32 h.pcount)))
      buffer

pub get_header : Bool → List ℕ → Header
unfolding from_be32
get_header wide b = record {
  sent_time = record { secs = from_be32 b 0; usecs = from_be32 b 4 };
  pcount = if wide then from_be32 b 8 * 4294967296 + from_be32 b 12 else from_be32 b 8;
}

-- What the two functions read of the test and its settings.
pub record Settings : Type 0 where
  pub blksize : ℕ
  pub skip_rx_copy : Bool
  pub udp_counters_64bit : Bool

module _ (D : Double) where
  open D use {Carrier, zero_double, time_in_secs, minus, plus, over_16, negate, is_negative}

  -- The fields of a stream and of its result that the two functions use.
  pub record Stream : Type 0 where
    pub buffer : List ℕ
    pub sequence : Sequence
    pub jitter : Carrier
    pub prev_transit : Carrier
    pub bytes_received : ℕ
    pub bytes_received_this_interval : ℕ
    pub bytes_sent : ℕ
    pub bytes_sent_this_interval : ℕ

  -- The jitter of RFC 1889, with `first` for the first packet.
  pub measure_jitter : Bool → Carrier → Stream → Stream
  measure_jitter first transit sp =
      let difference = minus transit (if first then transit else sp.prev_transit) in
      let d = if is_negative difference then negate difference else difference in
      record sp { prev_transit = transit; jitter = plus sp.jitter (over_16 (minus d sp.jitter)) }

  -- A datagram of `r` counted bytes that stands in the buffer.
  pub account : Settings → IperfTime → ℕ → Stream → Stream
  unfolding measure_jitter
  account set arrival r sp =
      let h = get_header set.udp_counters_64bit sp.buffer in
      measure_jitter (sp.bytes_received == 0) (time_in_secs (time_diff arrival h.sent_time).0)
        (record sp {
          bytes_received = u64 (sp.bytes_received + r);
          bytes_received_this_interval = u64 (sp.bytes_received_this_interval + r);
          sequence = count_packet h.pcount sp.sequence;
        })

  -- After the read: nothing is counted of an error, of an empty read or outside TEST_RUNNING.
  pub received : Settings → State → IperfTime → Io → Stream → Io × Stream
  unfolding account
  received set state arrival soft_error sp = (soft_error, sp)
  received set state arrival hard_error sp = (hard_error, sp)
  received set state arrival (bytes zero) sp = (bytes zero, sp)
  received set test_running arrival (bytes (suc r)) sp =
      (bytes (suc r), account set arrival (suc r) sp)
  received set _ arrival (bytes (suc r)) sp = (bytes (suc r), sp)

  unfoldable pub udp_recv : Settings → State → IperfTime → List Read → Stream → Option (Io × Stream)
  unfolding received
  udp_recv set state arrival script sp =
      let size = if set.skip_rx_copy then 16 else set.blksize in
      elim (nrecv_no_select set.skip_rx_copy size script) [
        | none ↦ none
        | some (io, stored) ↦
            some (received set state arrival io (record sp { buffer = copy_over stored sp.buffer }))
      ]

  abbrev set_count : ℕ → Stream → Stream
  set_count n sp = record sp { sequence = record (sp.sequence) { packet_count = n } }

  -- After the write: a packet that was not sent gives its number back.
  pub sent : ℕ → Io → Stream → Io × Stream
  sent old soft_error sp = (soft_error, set_count old sp)
  sent old hard_error sp = (hard_error, set_count old sp)
  sent old (bytes zero) sp = (bytes zero, set_count old sp)
  sent old (bytes (suc r)) sp = (
    bytes (suc r),
    record sp {
      bytes_sent = u64 (sp.bytes_sent + suc r);
      bytes_sent_this_interval = u64 (sp.bytes_sent_this_interval + suc r);
    },
  )

  -- The stream after numbering and stamping the next packet.
  unfoldable pub stamp : Settings → IperfTime → Stream → Stream
  stamp set now sp =
      let n = u64 (sp.sequence.packet_count + 1) in
      record sp {
        sequence = record (sp.sequence) { packet_count = n };
        buffer =
            put_header set.udp_counters_64bit (record { sent_time = now; pcount = n }) sp.buffer;
      }

  -- The result holds the bytes that the kernel took too.
  unfoldable pub udp_send :
      Settings → IperfTime → List Write → Stream → Option (Io × Stream × List ℕ)
  unfolding sent stamp
  udp_send set now script sp =
      let sp' = stamp set now sp in
      elim (nwrite sp'.buffer set.blksize script) [
        | none ↦ none
        | some (io, wire) ↦
            let r = sent (sub64 sp'.sequence.packet_count 1) io sp' in some (r.0, r.1, wire)
      ]
