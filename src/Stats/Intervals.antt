-- ===== src/Stats/Intervals.antt =====
-- src/iperf_api.c: the intervals of a stream partition its test.
use iperf.Base.{
  ℕ, ◌≡◌, refl, sym, ◌∙◌, Bool, true, false, Option, none, some, List, [], ◌∷◌, inl, inr,
  Bool-cases, subst, arith,
}
use iperf.Time.{IperfTime}
use iperf.Stats.{IntervalResults, StreamResult, Stream}
use iperf.Stats.Tcp.{tcp_stats, sctp_stats, add_retrans, add_rtt, add_windows}
use iperf.Stats.Callback.{
  Round, Reading, last, udp_stats, protocol_stats, add_to_interval_list, interval, stream_stats,
  start_of,
}
use iperf.Stats.Sums.{
  Reported, Action, move, count, tick, Run, report, lose, moved, moved_by, act, acts, is_tcp,
  BytesAgree, PacketsAgree, RetransAgree, LastAgrees, tick-BytesAgree, tick-RetransAgree,
  last_after, udp_stats-LastAgrees, counts_after, SameCounts-LastAgrees,
}

module _ (Jitter : Type 0) where
  tick-PacketsAgree :
      (round : Round) (reading : Reading) (temp : IntervalResults Jitter) (s : Run Jitter)
      → PacketsAgree Jitter round s
      → PacketsAgree Jitter round (act Jitter round (tick reading temp) s)
  unfolding act
  tick-PacketsAgree round reading temp (sp, r) (inl t) = inl t
  tick-PacketsAgree round reading temp (sp, r) (inr (w, h)) =
      elim (Bool-cases (is_tcp Jitter round.protocol)) [
        | inl t ↦ inl t
        | inr t ↦
            let (irp, sp') = stream_stats Jitter round reading temp sp in
            let (same, packets, errors, outoforder) = counts_after Jitter round reading temp sp t in
            let o = last Jitter sp.result.interval_results in
            let entry = interval Jitter round reading sp temp in
            let agree : LastAgrees Jitter (some irp) (report Jitter irp (lose Jitter reading r)) =
              SameCounts-LastAgrees Jitter irp (udp_stats Jitter o sp entry) r same
                (udp_stats-LastAgrees Jitter o sp entry r w h) in
            inr (
              omega (arith, w),
              subst (λ o. LastAgrees Jitter o (report Jitter irp (lose Jitter reading r)))
                  (sym (last_after Jitter round reading temp sp)) agree,
            )
      ]

  -- Each interval begins where the one before has ended, and the first at the start.
  abbrev pub Chained : IperfTime → List (IperfTime × IperfTime) → Type 0
  Chained start [] = true ≡ true
  Chained start ((s, e) ∷ []) = s ≡ start
  Chained start ((s, e) ∷ (s', e') ∷ rest) = (s ≡ e') × Chained start ((s', e') ∷ rest)

  -- The end of the last interval is kept in `end_time`.
  abbrev EndKept :
      Option (IntervalResults Jitter) → List (IperfTime × IperfTime) → IperfTime → Type 0
  EndKept none [] end_time = true ≡ true
  EndKept (some irp) ((s, e) ∷ rest) end_time = end_time ≡ e
  EndKept _ _ end_time = true ≡ false

  abbrev pub SpansAgree : Run Jitter → Type 0
  SpansAgree (sp, r) =
      Chained sp.result.start_time r.spans
      × EndKept (last Jitter sp.result.interval_results) r.spans sp.result.end_time

  Chained-cons :
      (o : Option (IntervalResults Jitter)) (spans : List (IperfTime × IperfTime))
      (rp : StreamResult Jitter) (e : IperfTime)
      → Chained rp.start_time spans
      → EndKept o spans rp.end_time
      → Chained rp.start_time ((start_of Jitter o rp, e) ∷ spans)
  Chained-cons none [] rp e c k = refl
  Chained-cons none (x ∷ spans) rp e c k = absurd cc
  Chained-cons (some irp) [] rp e c k = absurd cc
  Chained-cons (some irp) ((s', e') ∷ spans) rp e c k = (k, c)

  times_after :
      (round : Round) (reading : Reading) (temp : IntervalResults Jitter) (sp : Stream Jitter)
      → let (irp, sp') = stream_stats Jitter round reading temp sp in
        (irp.interval_start_time
          ≡ start_of Jitter (last Jitter sp.result.interval_results) sp.result)
        × (irp.interval_end_time ≡ reading.now)
        × (sp'.result.end_time ≡ reading.now)
        × (sp'.result.start_time ≡ sp.result.start_time)
  unfolding stream_stats protocol_stats add_to_interval_list tcp_stats sctp_stats udp_stats add_rtt
      add_windows add_retrans
  times_after round reading temp sp = ground arith

  tick-SpansAgree :
      (round : Round) (reading : Reading) (temp : IntervalResults Jitter) (s : Run Jitter)
      → SpansAgree s
      → SpansAgree (act Jitter round (tick reading temp) s)
  unfolding act
  tick-SpansAgree round reading temp (sp, r) (c, k) =
      let (irp, sp') = stream_stats Jitter round reading temp sp in
      let (starts, ends, kept, same) = times_after round reading temp sp in
      let o = last Jitter sp.result.interval_results in
      let chained = Chained-cons o r.spans sp.result irp.interval_end_time c k in
      (
        subst (λ z. Chained z ((irp.interval_start_time, irp.interval_end_time) ∷ r.spans))
            (sym same)
            (subst (λ z. Chained sp.result.start_time ((z, irp.interval_end_time) ∷ r.spans))
              (sym starts) chained),
        subst
            (λ o.
              EndKept o ((irp.interval_start_time, irp.interval_end_time) ∷ r.spans)
                sp'.result.end_time)
            (sym (last_after Jitter round reading temp sp)) (kept ∙ sym ends),
      )

  -- What the closed intervals of a stream, and the open one, have to do with its counters.
  pub record IsAccounted (round : Round) (s : Run Jitter) : Type 0 where
    pub bytes_agree : BytesAgree Jitter s
    pub packets_agree : PacketsAgree Jitter round s
    pub retrans_agree : RetransAgree Jitter round s
    pub spans_agree : SpansAgree s

  move-BytesAgree :
      (n : ℕ) (sp : Stream Jitter) (r : Reported)
      → BytesAgree Jitter (sp, r)
      → BytesAgree Jitter (moved Jitter n sp, r)
  move-BytesAgree n sp r h = ground arith

  move-SpansAgree :
      (sender : Bool) (n : ℕ) (sp : Stream Jitter) (r : Reported)
      → SpansAgree (sp, r)
      → SpansAgree (moved_by Jitter sender n sp, r)
  move-SpansAgree true n sp r h = h
  move-SpansAgree false n sp r h = h

  act-IsAccounted :
      (round : Round) (a : Action Jitter) (s : Run Jitter)
      → IsAccounted round s
      → IsAccounted round (act Jitter round a s)
  unfolding act
  act-IsAccounted round (move n) (sp, r) i = record {
    bytes_agree = move-BytesAgree n sp r i.bytes_agree;
    packets_agree = ground (arith, i.packets_agree);
    retrans_agree = ground (arith, i.retrans_agree);
    spans_agree = move-SpansAgree sp.sender n sp r i.spans_agree;
  }
  act-IsAccounted round (count packets errors outoforder) (sp, r) i = record {
    bytes_agree = i.bytes_agree;
    packets_agree = elim i.packets_agree [ inl t ↦ inl t | inr (w, h) ↦ inr (omega (arith, w), h) ];
    retrans_agree = i.retrans_agree;
    spans_agree = i.spans_agree;
  }
  act-IsAccounted round (tick reading temp) s i = record {
    bytes_agree = tick-BytesAgree Jitter round reading temp s i.bytes_agree;
    packets_agree = tick-PacketsAgree round reading temp s i.packets_agree;
    retrans_agree = tick-RetransAgree Jitter round reading temp s i.retrans_agree;
    spans_agree = tick-SpansAgree round reading temp s i.spans_agree;
  }

  -- However the traffic of a stream and the ends of its intervals follow one another, the intervals partition its
  -- test: each begins where the one before has ended, and the first at the start. In words of 64 bits the bytes that
  -- were moved are those of the closed intervals and of the open one, and those that the stream's thread moves after
  -- the bytes of an interval are read and before its counters are set back: these are in no interval. Where the
  -- counts of packets stand still while an interval is closed: but for TCP the packets, lost packets and
  -- packets out of order of the closed intervals are the counts at the end of the last one, and for TCP, where
  -- retransmits are counted, those of the intervals are those of the stream.
  pub acts-IsAccounted :
      (round : Round) (history : List (Action Jitter)) (s : Run Jitter)
      → IsAccounted round s
      → IsAccounted round (acts Jitter round history s)
  unfolding acts
  acts-IsAccounted round [] s i = i
  acts-IsAccounted round (a ∷ rest) s i =
      acts-IsAccounted round rest (act Jitter round a s) (act-IsAccounted round a s i)
