-- ===== src/Stats/Tcp.antt =====
-- src/tcp_info.c on linux, and what `iperf_stats_callback` makes of the information of a protocol.
use iperf.Base.{ℕ, ◌+◌, ◌*◌, Bool, ◌||◌, Option, none, some, if◌then◌else◌, u64, sub64}
use iperf.Base.Int.{ℤ, pos, negsuc, ltb_ℤ, eqb_ℤ, ◌+ℤ◌}
use iperf.Stats.{TcpInfo, SctpInfo, IntervalResults, StreamResult}

unfoldable pub get_snd_cwnd : TcpInfo → ℤ
get_snd_cwnd i = pos (i.tcpi_snd_cwnd * i.tcpi_snd_mss)

-- HAVE_TCP_INFO_SND_WND
unfoldable pub get_snd_wnd : Bool → TcpInfo → ℤ
get_snd_wnd have_snd_wnd i = if have_snd_wnd then pos i.tcpi_snd_wnd else negsuc 0

-- TCP_REPAIR_ON
unfoldable pub get_reorder : Bool → TcpInfo → ℤ
get_reorder have_reord_seen i = if have_reord_seen then pos i.tcpi_reord_seen else negsuc 0

abbrev pub larger : ℤ → ℤ → ℤ
larger new old = if ltb_ℤ old new then new else old

module _ (Jitter : Type 0) where
  -- The least and the largest time, the sum and the count; a least time of 0 stands for none.
  unfoldable pub add_rtt : ℤ → StreamResult Jitter → StreamResult Jitter
  add_rtt rtt rp = record rp {
    stream_max_rtt = larger rtt rp.stream_max_rtt;
    stream_min_rtt =
        if eqb_ℤ rp.stream_min_rtt (pos 0) || ltb_ℤ rtt rp.stream_min_rtt
        then rtt
        else rp.stream_min_rtt;
    stream_sum_rtt = rp.stream_sum_rtt +ℤ rtt;
    stream_count_rtt = rp.stream_count_rtt + 1;
  }

  unfoldable pub add_windows : ℤ → ℤ → StreamResult Jitter → StreamResult Jitter
  add_windows cwnd wnd rp = record rp {
    stream_max_snd_cwnd = larger cwnd rp.stream_max_snd_cwnd;
    stream_max_snd_wnd = larger wnd rp.stream_max_snd_wnd;
  }

  unfoldable pub add_retrans : ℕ → StreamResult Jitter → StreamResult Jitter
  add_retrans total rp = record rp {
    stream_retrans = u64 (rp.stream_retrans + sub64 total rp.stream_prev_total_retrans);
    stream_prev_total_retrans = total;
  }

  -- A stream of TCP that counts retransmits.
  unfoldable pub tcp_stats :
      Bool
      → Bool
      → TcpInfo
      → IntervalResults Jitter
      → StreamResult Jitter
      → IntervalResults Jitter × StreamResult Jitter
  unfolding get_snd_cwnd get_snd_wnd get_reorder add_rtt add_windows add_retrans
  tcp_stats have_snd_wnd have_reord_seen i temp rp = (
    record temp {
      interval_retrans = sub64 i.tcpi_total_retrans rp.stream_prev_total_retrans;
      snd_cwnd = get_snd_cwnd i;
      snd_wnd = get_snd_wnd have_snd_wnd i;
      rtt = pos i.tcpi_rtt;
      rttvar = pos i.tcpi_rttvar;
      pmtu = pos i.tcpi_pmtu;
      reorder = get_reorder have_reord_seen i;
    },
    record (add_rtt (pos i.tcpi_rtt) (
        add_windows (get_snd_cwnd i) (get_snd_wnd have_snd_wnd i)
          (add_retrans i.tcpi_total_retrans rp))) {
            stream_reorder = get_reorder have_reord_seen i;
          },
  )

  -- A stream of SCTP, where the information is there.
  unfoldable pub sctp_stats :
      Option SctpInfo
      → IntervalResults Jitter
      → StreamResult Jitter
      → IntervalResults Jitter × StreamResult Jitter
  unfolding add_rtt add_windows
  sctp_stats none temp rp = (temp, rp)
  sctp_stats (some i) temp rp = (
    record temp { pmtu = i.pmtu; rtt = i.rtt; snd_cwnd = i.cwnd; snd_wnd = i.wnd },
    if ltb_ℤ i.rtt (pos 0)
        then add_windows i.cwnd i.wnd rp
        else add_rtt i.rtt (add_windows i.cwnd i.wnd rp),
  )
