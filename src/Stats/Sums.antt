-- ===== src/Stats/Sums.antt =====
-- src/iperf_api.c: the intervals of one stream, taken together.
use iperf.Base.{
  ℕ, ◌+◌, ◌<◌, ◌≡◌, refl, ap, ◌∙◌, Bool, true, false, ◌&&◌, Option, none, some, List, [], ◌∷◌, ◌++◌,
  ◌⊎◌, if◌then◌else◌, u64, arith,
}
use iperf.Time.{IperfTime}
use iperf.Test.{Protocol, tcp}
use iperf.Stats.{IntervalResults, Stream}
use iperf.Stats.Tcp.{tcp_stats, sctp_stats, add_retrans, add_rtt, add_windows}
use iperf.Stats.Callback.{
  Round, Reading, last, all_but_last, add_to_interval_list, udp_stats, protocol_stats, interval,
  stream_stats,
}

-- What the intervals that were closed add up to, in words, and when each began and ended, the last one first. `lost`
-- is what was moved between the read of the bytes of an interval and the reset of its counters.
pub record Reported : Type 0 where
  pub bytes : ℕ
  pub lost : ℕ
  pub packets : ℕ
  pub errors : ℕ
  pub outoforder : ℕ
  pub retrans : ℕ
  pub spans : List (IperfTime × IperfTime)

module _ (Jitter : Type 0) where
  -- What happens to a stream: bytes are moved, its packets are counted anew, or an interval ends, with what then
  -- stands on the stack.
  pub data Action : Type 0 where
    move : ℕ → Action
    count : ℕ → ℕ → ℕ → Action
    tick : Reading → IntervalResults Jitter → Action

  abbrev pub Run : Type 0
  Run = Stream Jitter × Reported

  abbrev pub moved_by : Bool → ℕ → Stream Jitter → Stream Jitter
  moved_by true n sp = record sp {
    result = record sp.result {
      bytes_sent = u64 (sp.result.bytes_sent + n);
      bytes_sent_this_interval = u64 (sp.result.bytes_sent_this_interval + n);
    };
  }
  moved_by false n sp = record sp {
    result = record sp.result {
      bytes_received = u64 (sp.result.bytes_received + n);
      bytes_received_this_interval = u64 (sp.result.bytes_received_this_interval + n);
    };
  }

  abbrev pub moved : ℕ → Stream Jitter → Stream Jitter
  moved n sp = moved_by sp.sender n sp

  abbrev pub report : IntervalResults Jitter → Reported → Reported
  report irp r = record {
    bytes = u64 (r.bytes + irp.bytes_transferred);
    lost = r.lost;
    packets = u64 (r.packets + irp.interval_packet_count);
    errors = u64 (r.errors + irp.interval_cnt_error);
    outoforder = u64 (r.outoforder + irp.interval_outoforder_packets);
    retrans = u64 (r.retrans + irp.interval_retrans);
    spans = (irp.interval_start_time, irp.interval_end_time) ∷ r.spans;
  }

  abbrev pub lose : Reading → Reported → Reported
  lose reading r = record r { lost = u64 (r.lost + reading.meanwhile) }

  abbrev pub closed : Reported → IntervalResults Jitter × Stream Jitter → Run
  closed r (irp, sp) = (sp, report irp r)

  unfoldable pub act : Round → Action → Run → Run
  unfolding stream_stats
  act round (move n) (sp, r) = (moved n sp, r)
  act round (count packets errors outoforder) (sp, r) = (
    record sp {
      packet_count = u64 packets;
      cnt_error = u64 errors;
      outoforder_packets = u64 outoforder;
    },
    r,
  )
  act round (tick reading temp) (sp, r) =
      closed (lose reading r) (stream_stats Jitter round reading temp sp)

  unfoldable pub acts : Round → List Action → Run → Run
  unfolding act
  acts round [] s = s
  acts round (a ∷ rest) s = acts round rest (act round a s)

  abbrev pub total : Stream Jitter → ℕ
  total sp = if sp.sender then sp.result.bytes_sent else sp.result.bytes_received

  abbrev pub open_bytes : Stream Jitter → ℕ
  open_bytes sp =
      if sp.sender
      then sp.result.bytes_sent_this_interval
      else sp.result.bytes_received_this_interval

  -- Every byte is in a closed interval or in the open one, or was moved while an interval was closed.
  abbrev pub BytesAgree : Run → Type 0
  BytesAgree (sp, r) = u64 (r.bytes + r.lost + open_bytes sp) ≡ u64 (total sp)

  pub tick-BytesAgree :
      (round : Round) (reading : Reading) (temp : IntervalResults Jitter) (s : Run)
      → BytesAgree s
      → BytesAgree (act round (tick reading temp) s)
  unfolding act protocol_stats add_to_interval_list tcp_stats sctp_stats udp_stats add_rtt
      add_windows add_retrans
  tick-BytesAgree round reading temp s h = ground arith

  -- The sums of the counts of packets are the counts at the end of the last interval.
  abbrev pub LastAgrees : Option (IntervalResults Jitter) → Reported → Type 0
  LastAgrees none r = (r.packets ≡ 0) × (r.errors ≡ 0) × (r.outoforder ≡ 0)
  LastAgrees (some irp) r =
      (r.packets ≡ irp.packet_count)
      × (r.errors ≡ irp.cnt_error)
      × (r.outoforder ≡ irp.outoforder_packets)

  abbrev pub is_tcp : Protocol → Bool
  is_tcp tcp = true
  is_tcp _ = false

  abbrev pub counts_retrans : Round → Bool
  counts_retrans round = is_tcp round.protocol && round.has_tcpinfo && round.sender_has_retransmits

  abbrev pub Words : Stream Jitter → Reported → Type 0
  Words sp r =
      (sp.packet_count < 18446744073709551616)
      × (sp.cnt_error < 18446744073709551616)
      × (sp.outoforder_packets < 18446744073709551616)
      × (r.packets < 18446744073709551616)
      × (r.errors < 18446744073709551616)
      × (r.outoforder < 18446744073709551616)

  abbrev pub PacketsAgree : Round → Run → Type 0
  PacketsAgree round (sp, r) =
      (is_tcp round.protocol ≡ true)
      ⊎ (Words sp r × LastAgrees (last Jitter sp.result.interval_results) r)

  abbrev pub RetransAgree : Round → Run → Type 0
  RetransAgree round (sp, r) =
      (counts_retrans round ≡ false) ⊎ (r.retrans ≡ sp.result.stream_retrans)

  pub tick-RetransAgree :
      (round : Round) (reading : Reading) (temp : IntervalResults Jitter) (s : Run)
      → RetransAgree round s
      → RetransAgree round (act round (tick reading temp) s)
  unfolding act protocol_stats add_to_interval_list tcp_stats sctp_stats udp_stats add_rtt
      add_windows add_retrans
  tick-RetransAgree round reading temp s h = ground arith

  last-snoc :
      (l : List (IntervalResults Jitter)) (x : IntervalResults Jitter)
      → last Jitter (l ++ x ∷ []) ≡ some x
  last-snoc [] x = refl
  last-snoc (y ∷ []) x = refl
  last-snoc (y ∷ z ∷ r) x = last-snoc (z ∷ r) x

  results_after :
      (round : Round) (reading : Reading) (temp : IntervalResults Jitter) (sp : Stream Jitter)
      → let (irp, sp') = stream_stats Jitter round reading temp sp in
        sp'.result.interval_results ≡ all_but_last Jitter sp.result.interval_results ++ irp ∷ []
  unfolding stream_stats protocol_stats add_to_interval_list tcp_stats sctp_stats udp_stats add_rtt
      add_windows add_retrans
  results_after round reading temp sp = ground arith

  pub last_after :
      (round : Round) (reading : Reading) (temp : IntervalResults Jitter) (sp : Stream Jitter)
      → let (irp, sp') = stream_stats Jitter round reading temp sp in
        last Jitter sp'.result.interval_results ≡ some irp
  last_after round reading temp sp =
      ap (last Jitter) (results_after round reading temp sp)
      ∙ last-snoc (all_but_last Jitter sp.result.interval_results)
          (stream_stats Jitter round reading temp sp).0

  -- A new entry by the counts of packets, and the sums with it.
  pub udp_stats-LastAgrees :
      (o : Option (IntervalResults Jitter)) (sp : Stream Jitter) (temp : IntervalResults Jitter)
      (r : Reported)
      → Words sp r
      → LastAgrees o r
      → LastAgrees (some (udp_stats Jitter o sp temp)) (report (udp_stats Jitter o sp temp) r)
  unfolding udp_stats
  udp_stats-LastAgrees none sp temp r w h = omega (arith, w, h)
  udp_stats-LastAgrees (some irp) sp temp r w h = omega (arith, w, h)

  -- The fields of the counts of an entry.
  abbrev pub SameCounts : IntervalResults Jitter → IntervalResults Jitter → Type 0
  SameCounts x y =
      (x.packet_count ≡ y.packet_count)
      × (x.cnt_error ≡ y.cnt_error)
      × (x.outoforder_packets ≡ y.outoforder_packets)
      × (x.interval_packet_count ≡ y.interval_packet_count)
      × (x.interval_cnt_error ≡ y.interval_cnt_error)
      × (x.interval_outoforder_packets ≡ y.interval_outoforder_packets)

  pub counts_after :
      (round : Round) (reading : Reading) (temp : IntervalResults Jitter) (sp : Stream Jitter)
      → is_tcp round.protocol ≡ false
      → let (irp, sp') = stream_stats Jitter round reading temp sp in
        SameCounts irp (
          udp_stats Jitter
            (last Jitter sp.result.interval_results)
            sp
            (interval Jitter round reading sp temp))
        × (sp'.packet_count ≡ sp.packet_count)
        × (sp'.cnt_error ≡ sp.cnt_error)
        × (sp'.outoforder_packets ≡ sp.outoforder_packets)
  unfolding stream_stats protocol_stats add_to_interval_list tcp_stats sctp_stats add_rtt
      add_windows add_retrans
  counts_after round reading temp sp h = ground arith

  pub SameCounts-LastAgrees :
      (x y : IntervalResults Jitter) (r : Reported)
      → SameCounts x y
      → LastAgrees (some y) (report y r)
      → LastAgrees (some x) (report x r)
  SameCounts-LastAgrees x y r same h = omega (arith, same, h)
