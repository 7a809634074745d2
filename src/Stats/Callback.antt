-- ===== src/Stats/Callback.antt =====
-- src/iperf_api.c: `add_to_interval_list`, `iperf_stats_callback` and `iperf_reset_stats`.
use iperf.Base.{
  ℕ, ◌+◌, Bool, ◌&&◌, Option, none, some, List, [], ◌∷◌, ◌++◌, if◌then◌else◌, u64, sub64,
}
use iperf.Base.Int.{pos}
use iperf.Time.{IperfTime, time_diff}
use iperf.Test.{Protocol, tcp, udp, sctp, quic}
use iperf.RateLimit.{RateLimit, check_total_rate}
use iperf.Stats.{TcpInfo, SctpInfo, IntervalResults, StreamResult, Stream}
use iperf.Stats.Tcp.{tcp_stats, sctp_stats}

-- What a round reads of the test and of the build, and of the system for each stream: the clock, TCP_INFO, and
-- the information of SCTP. `meanwhile` is what the stream's own thread moves after its bytes were read and before the
-- counters of the interval are set back. Its counts of packets are taken not to change within a round.
pub record Round : Type 0 where
  pub protocol : Protocol
  pub omitting : Bool
  pub has_tcpinfo : Bool
  pub sender_has_retransmits : Bool
  pub have_snd_wnd : Bool
  pub have_reord_seen : Bool

pub record Reading : Type 0 where
  pub now : IperfTime
  pub tcp_info : TcpInfo
  pub sctp_info : Option SctpInfo
  pub meanwhile : ℕ

module _ (Jitter : Type 0) where
  abbrev pub last : List (IntervalResults Jitter) → Option (IntervalResults Jitter)
  last [] = none
  last (x ∷ []) = some x
  last (x ∷ y ∷ rest) = last (y ∷ rest)

  abbrev pub all_but_last : List (IntervalResults Jitter) → List (IntervalResults Jitter)
  all_but_last [] = []
  all_but_last (x ∷ []) = []
  all_but_last (x ∷ y ∷ rest) = x ∷ all_but_last (y ∷ rest)

  -- The last entry is replaced.
  unfoldable pub add_to_interval_list :
      IntervalResults Jitter → StreamResult Jitter → StreamResult Jitter
  add_to_interval_list new rp = record rp {
    interval_results = all_but_last rp.interval_results ++ (new ∷ []);
  }

  abbrev pub start_of : Option (IntervalResults Jitter) → StreamResult Jitter → IperfTime
  start_of none rp = rp.start_time
  start_of (some irp) rp = rp.end_time

  -- The counts of packets of the interval, by the last one.
  unfoldable pub udp_stats :
      Option (IntervalResults Jitter)
      → Stream Jitter
      → IntervalResults Jitter
      → IntervalResults Jitter
  udp_stats none sp temp = record temp {
    interval_packet_count = sp.packet_count;
    interval_outoforder_packets = sp.outoforder_packets;
    interval_cnt_error = sp.cnt_error;
    packet_count = sp.packet_count;
    jitter = sp.jitter;
    outoforder_packets = sp.outoforder_packets;
    cnt_error = sp.cnt_error;
  }
  udp_stats (some irp) sp temp = record temp {
    interval_packet_count = sub64 sp.packet_count irp.packet_count;
    interval_outoforder_packets = sub64 sp.outoforder_packets irp.outoforder_packets;
    interval_cnt_error = sub64 sp.cnt_error irp.cnt_error;
    packet_count = sp.packet_count;
    jitter = sp.jitter;
    outoforder_packets = sp.outoforder_packets;
    cnt_error = sp.cnt_error;
  }

  -- The branches on the protocol.
  unfoldable pub protocol_stats :
      Round
      → Reading
      → Stream Jitter
      → IntervalResults Jitter
      → StreamResult Jitter
      → IntervalResults Jitter × StreamResult Jitter
  unfolding tcp_stats sctp_stats udp_stats
  protocol_stats round reading sp temp rp = elim round.protocol [
    | tcp ↦
        if round.has_tcpinfo && round.sender_has_retransmits
        then tcp_stats Jitter round.have_snd_wnd round.have_reord_seen reading.tcp_info temp rp
        else (temp, rp)
    | udp ↦ (udp_stats (last sp.result.interval_results) sp temp, rp)
    | quic ↦ (udp_stats (last sp.result.interval_results) sp temp, rp)
    | sctp ↦
        sctp_stats Jitter reading.sctp_info (udp_stats (last sp.result.interval_results) sp temp) rp
  ]

  -- The bytes and the times of the interval, which ends now.
  abbrev pub interval :
      Round → Reading → Stream Jitter → IntervalResults Jitter → IntervalResults Jitter
  interval round reading sp temp =
      let start = start_of (last sp.result.interval_results) sp.result in
      record temp {
        bytes_transferred =
            if sp.sender
            then sp.result.bytes_sent_this_interval
            else sp.result.bytes_received_this_interval;
        interval_start_time = start;
        interval_end_time = reading.now;
        interval_time = (time_diff start reading.now).0;
      }

  -- The entry is added and the counters of the interval are set back, also what was added to them meanwhile.
  abbrev close_interval :
      Reading
      → Stream Jitter
      → IntervalResults Jitter × StreamResult Jitter
      → IntervalResults Jitter × Stream Jitter
  close_interval reading sp (temp, rp) = (
    temp,
    record sp {
      result = record (add_to_interval_list temp rp) {
        bytes_sent = if sp.sender then u64 (rp.bytes_sent + reading.meanwhile) else rp.bytes_sent;
        bytes_received =
            if sp.sender then rp.bytes_received else u64 (rp.bytes_received + reading.meanwhile);
        bytes_sent_this_interval = 0;
        bytes_received_this_interval = 0;
      };
    },
  )

  -- One stream. `temp` comes from the stream before, as far as it is not set here.
  unfoldable pub stream_stats :
      Round
      → Reading
      → IntervalResults Jitter
      → Stream Jitter
      → IntervalResults Jitter × Stream Jitter
  unfolding add_to_interval_list protocol_stats
  stream_stats round reading temp sp = close_interval reading sp (
      protocol_stats round reading sp (interval round reading sp temp)
        (record sp.result { end_time = reading.now }))

  -- The loop, with what is read for each stream, and the bytes of all of them.
  unfoldable pub streams_stats :
      Round → List (Reading × Stream Jitter) → IntervalResults Jitter → ℕ → List (Stream Jitter) × ℕ
  unfolding stream_stats
  streams_stats round [] temp total = ([], total)
  streams_stats round ((reading, sp) ∷ rest) temp total =
      let (temp', sp') = stream_stats round reading temp sp in
      let moved =
        u64 (sp.result.bytes_sent_this_interval + sp.result.bytes_received_this_interval) in
      let (sps, total') = streams_stats round rest temp' (u64 (total + moved)) in
      (sp' ∷ sps, total')

  -- `temp` is what stands on the stack, up to the four fields that are set.
  abbrev cleared : Round → IntervalResults Jitter → IntervalResults Jitter
  cleared round temp = record temp {
    omitted = round.omitting;
    rtt = pos 0;
    rttvar = pos 0;
    pmtu = pos 0;
  }

  abbrev limit_total :
      (ℕ → ℕ)
      → Bool
      → Bool
      → RateLimit
      → List (Stream Jitter) × ℕ
      → Option (List (Stream Jitter) × RateLimit)
  limit_total bits_per_second is_server done limit (sps, total) =
      if is_server
      then (elim (check_total_rate bits_per_second done total limit) [
        | none ↦ none
        | some limit' ↦ some (sps, limit')
      ])
      else some (sps, limit)

  unfoldable pub stats_callback :
      (ℕ → ℕ)
      → Bool
      → Bool
      → Round
      → IntervalResults Jitter
      → List (Reading × Stream Jitter)
      → RateLimit
      → Option (List (Stream Jitter) × RateLimit)
  unfolding streams_stats
  stats_callback bits_per_second is_server done round temp streams limit =
      limit_total bits_per_second is_server done limit
        (streams_stats round streams (cleared round temp) 0)

  -- The end of the omitted time, for one stream; `no_jitter` is 0.
  unfoldable pub reset_stats : Jitter → Bool → Reading → Stream Jitter → Stream Jitter
  reset_stats no_jitter sender_has_retransmits reading sp = record sp {
    omitted_packet_count = sp.packet_count;
    omitted_cnt_error = sp.cnt_error;
    omitted_outoforder_packets = sp.outoforder_packets;
    jitter = no_jitter;
    result = record sp.result {
      bytes_sent_omit = sp.result.bytes_sent;
      bytes_received = 0;
      bytes_sent_this_interval = 0;
      bytes_received_this_interval = 0;
      stream_prev_total_retrans =
          if sender_has_retransmits
          then reading.tcp_info.tcpi_total_retrans
          else sp.result.stream_prev_total_retrans;
      stream_retrans = 0;
      start_time = reading.now;
    };
  }
