-- ===== src/Results/Reading.antt =====
-- src/iperf_api.c: what `get_results` reads in the object that `send_results` makes of a stream, where the
-- doubles are exact for the numbers that were counted.
use iperf.Base.{◌<◌, ◌≤◌, ◌≡◌, some, arith}
use iperf.Base.Int.{ℤ, pos, negsuc, IsInt, to_int, to_int_lem, to_u64}
use iperf.Json.{get_object_item}
use iperf.Time.{time_diff}
use iperf.Results.{Double, IperfStream}
use iperf.Results.Report.{stream_object, in_secs, bytes_transferred, reported_retransmits}
use iperf.Results.Receive.{StreamReport, read_stream}

-- The integers that a double holds exactly: up to 2^53 either way.
abbrev pub IsExact : ℤ → Type 0
IsExact (pos n) = n ≤ 9007199254740992
IsExact (negsuc n) = n < 9007199254740992

-- What C and cJSON promise of doubles: an integer of at most 53 bits comes back as it was.
pub record KeepsIntegers (D : Double) : Type 0 where
  pub value_int-of_int : (z : ℤ) → IsExact z → D.value_int (D.of_int z) ≡ z

IsInt-IsExact : (z : ℤ) → IsInt z → IsExact z
IsInt-IsExact (pos n) h = omega (arith, h)
IsInt-IsExact (negsuc n) h = omega (arith, h)

to_int-IsInt : (z : ℤ) → IsInt (to_int z)
unfolding to_int
to_int-IsInt (pos n) = ground arith
to_int-IsInt (negsuc n) = ground arith

module _ (D : Double) where
  -- Counts of a stream in range: the id is an int, the rest is exact as a double.
  pub record Fits (sp : IperfStream D) : Type 0 where
    pub id : IsInt sp.id
    pub bytes : bytes_transferred D sp ≤ 9007199254740992
    pub errors : IsExact sp.cnt_error
    pub omitted_errors : IsExact sp.omitted_cnt_error
    pub packets : IsExact sp.packet_count
    pub omitted_packets : IsExact sp.omitted_packet_count

  -- The values that a stream's object carries.
  abbrev pub report : ℤ → IperfStream D → StreamReport D
  report has sp = record {
    id = sp.id;
    bytes = bytes_transferred D sp;
    retransmits = reported_retransmits D has sp;
    jitter = sp.jitter;
    errors = sp.cnt_error;
    packets = sp.packet_count;
    omitted = some (sp.omitted_cnt_error, sp.omitted_packet_count);
    times = some (
      in_secs D (time_diff sp.start_time sp.start_time).0,
      in_secs D (time_diff sp.start_time sp.end_time).0,
    );
  }

  reported_retransmits-IsInt :
      (has : ℤ) (sp : IperfStream D) → IsInt (reported_retransmits D has sp)
  unfolding reported_retransmits
  reported_retransmits-IsInt has sp = ground (arith, to_int-IsInt sp.stream_retrans)

  pub read_stream-stream_object :
      KeepsIntegers D
      → (has : ℤ) (sp : IperfStream D) → Fits sp
      → read_stream D (stream_object D has sp) ≡ some (report has sp)
  unfolding read_stream stream_object get_object_item
  read_stream-stream_object keeps has sp f =
      let back = keeps.value_int-of_int in
      let same : to_u64 (pos (bytes_transferred D sp)) ≡ bytes_transferred D sp =
        omega (arith, f.bytes) in
      let retransmits = reported_retransmits-IsInt has sp in
      rw (
        back sp.id (IsInt-IsExact sp.id f.id),
        to_int_lem sp.id f.id,
        back (pos (bytes_transferred D sp)) f.bytes,
        back (reported_retransmits D has sp) (IsInt-IsExact _ retransmits),
        to_int_lem _ retransmits,
        back sp.cnt_error f.errors,
        back sp.omitted_cnt_error f.omitted_errors,
        back sp.packet_count f.packets,
        back sp.omitted_packet_count f.omitted_packets,
        same,
      )

  pub to_int-value_int : KeepsIntegers D → (z : ℤ) → IsInt z → to_int (D.value_int (D.of_int z)) ≡ z
  to_int-value_int keeps z h = rw (keeps.value_int-of_int z (IsInt-IsExact z h), to_int_lem z h)
