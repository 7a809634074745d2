-- ===== src/Stats/Omit.antt =====
-- src/iperf_api.c: `iperf_reset_stats`, at the end of the omitted time, and what is counted from then on.
use iperf.Base.{
  ℕ, ◌+◌, ◌<◌, ◌≡◌, refl, ap, ◌∙◌, Bool, List, [], ◌∷◌, if◌then◌else◌, u64, sub64, arith,
}
use iperf.Stats.{Stream}
use iperf.Stats.Tcp.{tcp_stats, sctp_stats, add_retrans, add_rtt, add_windows}
use iperf.Stats.Callback.{
  Round, Reading, udp_stats, protocol_stats, add_to_interval_list, stream_stats, reset_stats,
}
use iperf.Stats.Sums.{Reported, Action, move, count, tick, Run, act, acts}

module _ (Jitter : Type 0) where
  -- The bytes that the results of a stream report, `bytes_sent - bytes_sent_omit` at a sender.
  abbrev pub reported_bytes : Stream Jitter → ℕ
  reported_bytes sp =
      if sp.sender
      then sub64 sp.result.bytes_sent sp.result.bytes_sent_omit
      else sp.result.bytes_received

  abbrev pub moves : List (Action Jitter) → ℕ
  moves [] = 0
  moves (move n ∷ rest) = n + moves rest
  moves (count packets errors outoforder ∷ rest) = moves rest
  moves (tick reading temp ∷ rest) = reading.meanwhile + moves rest

  act-reported_bytes :
      (round : Round) (a : Action Jitter) (s : Run Jitter)
      → s.0.result.bytes_sent_omit < 18446744073709551616
      → (u64 (reported_bytes (act Jitter round a s).0) ≡ u64 (reported_bytes s.0 + moves (a ∷ [])))
        × ((act Jitter round a s).0.result.bytes_sent_omit ≡ s.0.result.bytes_sent_omit)
  unfolding act stream_stats protocol_stats add_to_interval_list tcp_stats sctp_stats udp_stats
      add_rtt add_windows add_retrans
  act-reported_bytes round a s h = ground arith

  moves-cons :
      (a : Action Jitter) (rest : List (Action Jitter))
      → moves (a ∷ rest) ≡ moves (a ∷ []) + moves rest
  moves-cons (move n) rest = omega arith
  moves-cons (count packets errors outoforder) rest = omega arith
  moves-cons (tick reading temp) rest = omega arith

  acts-reported_bytes :
      (round : Round) (history : List (Action Jitter)) (s : Run Jitter)
      → s.0.result.bytes_sent_omit < 18446744073709551616
      → u64 (reported_bytes (acts Jitter round history s).0)
        ≡ u64 (reported_bytes s.0 + moves history)
  unfolding acts
  acts-reported_bytes round [] s h = omega arith
  acts-reported_bytes round (a ∷ rest) s h =
      let (here, same) = act-reported_bytes round a s h in
      let later = acts-reported_bytes round rest (act Jitter round a s) (omega (arith, same, h)) in
      later ∙ omega (arith, here, moves-cons a rest)

  reset_zero :
      (no_jitter : Jitter) (retransmits : Bool) (reading : Reading) (sp : Stream Jitter)
      → sp.result.bytes_sent < 18446744073709551616
      → reported_bytes (reset_stats Jitter no_jitter retransmits reading sp) ≡ 0
  unfolding reset_stats
  reset_zero no_jitter retransmits reading sp h = ground arith

  -- What a stream reports at the end of a test leaves out the omitted time: from the reset on, whatever the order
  -- of the traffic and of the intervals, it reports the bytes that were moved since, in words of 64 bits. The reset
  -- clears its retransmits and sets aside the packets and the lost packets so far.
  pub reset_stats-omits :
      (no_jitter : Jitter) (retransmits : Bool) (reading : Reading) (round : Round)
      (history : List (Action Jitter)) (sp : Stream Jitter) (r : Reported)
      → sp.result.bytes_sent < 18446744073709551616
      → let start = reset_stats Jitter no_jitter retransmits reading sp in
        (u64 (reported_bytes (acts Jitter round history (start, r)).0) ≡ u64 (moves history))
        × (start.result.stream_retrans ≡ 0)
        × (start.omitted_packet_count ≡ start.packet_count)
        × (start.omitted_cnt_error ≡ start.cnt_error)
  unfolding reset_stats
  reset_stats-omits no_jitter retransmits reading round history sp r h =
      let start = reset_stats Jitter no_jitter retransmits reading sp in
      let all = acts-reported_bytes round history (start, r) h in
      (
        all
            ∙ ap (λ z. u64 (z + moves history)) (reset_zero no_jitter retransmits reading sp h)
            ∙ omega arith,
        refl,
        refl,
        refl,
      )
