-- ===== src/Results/Roundtrip.antt =====
-- src/iperf_api.c: what the two ends know of each other after `iperf_exchange_results`.
use iperf.Base.{
  ◌≡◌, refl, sym, ◌∙◌, ap, Bool, true, false, Option, none, some, List, arith, map, All, subst, not,
  if◌then◌else◌, sub64,
}
use iperf.Base.Int.{ℤ, IsInt, negsuc, is_nonzero, to_int}
use iperf.Test.{Mode, sender, receiver, bidirectional_mode}
use iperf.Results.{Double, Message, StreamObject, number, item_array, IperfStream, IperfTest}
use iperf.Results.Report.{stream_object, bytes_transferred, reported_retransmits}
use iperf.Results.Receive.{
  store_report, store_as_sender, store_as_receiver, take_streams, quic_client,
}
use iperf.Results.Lookup.{lookup}
use iperf.Results.Reading.{KeepsIntegers, Fits, report, to_int-value_int}
use iperf.Results.Storing.{AreDistinct, IsKnown, take_streams-HasStored}
use iperf.Results.Report.{send_results, result_slots, sent_has_retransmits}
use iperf.Results.Receive.{
  get_results, take_message, take_output, take_congestion, take_array, take_has_retransmits,
}
use iperf.Json.{and_then, build, get_object_item, get_object_item-build}

module _ (D : Double) where
  -- A connection that holds one message.
  abbrev pub put_message : Message D → Option (Message D) → Bool × Option (Message D)
  put_message j w = (true, some j)

  abbrev pub take_mail : Option (Message D) → Option (Message D) × Option (Message D)
  take_mail w = (w, none)

  -- What a stream knows of its peer `sp` in the end: the one that sends what was received, the one that
  -- receives what was sent.
  abbrev pub KnowsReceiver : IperfStream D → IperfStream D → Type 0
  KnowsReceiver sp known =
      (known.bytes_received ≡ sp.bytes_received)
      × (known.jitter ≡ sp.jitter)
      × (known.cnt_error ≡ sp.cnt_error)
      × (known.omitted_cnt_error ≡ sp.omitted_cnt_error)
      × (known.peer_packet_count ≡ sp.packet_count)
      × (known.peer_omitted_packet_count ≡ sp.omitted_packet_count)

  abbrev pub KnowsSender : ℤ → IperfStream D → IperfStream D → Type 0
  KnowsSender has sp known =
      (known.bytes_sent ≡ sub64 sp.bytes_sent sp.bytes_sent_omit)
      × (known.stream_retrans ≡ (if is_nonzero has then to_int sp.stream_retrans else negsuc 0))
      × (known.peer_packet_count ≡ sp.packet_count)
      × (known.peer_omitted_packet_count ≡ sp.omitted_packet_count)

  abbrev pub Knows : ℤ → IperfStream D → IperfStream D → Type 0
  Knows has sp known = elim sp.is_sender [
    | true ↦ KnowsSender has sp known
    | false ↦ KnowsReceiver sp known
  ]

  store_report-Knows :
      (q : Bool) (has : ℤ) (sp other : IperfStream D)
      → other.is_sender ≡ not sp.is_sender
      → Knows has sp (store_report D q (report D has sp) other)
  unfolding store_report store_as_sender store_as_receiver bytes_transferred reported_retransmits
  store_report-Knows q has sp other e = ground arith

  sent_has-IsInt : (m : Mode) (has : ℤ) → IsInt has → IsInt (sent_has_retransmits D m has)
  sent_has-IsInt sender has h = h
  sent_has-IsInt bidirectional_mode has h = h
  sent_has-IsInt receiver has h = omega arith

  -- A message whose heads are there.
  take_message_heads :
      (j : Message D) (b : IperfTest D) (total user system has : D.Carrier)
      → get_object_item "cpu_util_total" j ≡ some (number total)
      → get_object_item "cpu_util_user" j ≡ some (number user)
      → get_object_item "cpu_util_system" j ≡ some (number system)
      → get_object_item "sender_has_retransmits" j ≡ some (number has)
      → take_message D j b
        ≡ take_array D j (and_then (get_object_item "streams" j) (item_array D)) (
            take_has_retransmits D b.mode
              (to_int (D.value_int has))
              (record b { remote_cpu_util = (total, user, system) }))
  unfolding take_message
  take_message_heads j b total user system has e1 e2 e3 e4 = rw (e1, e2, e3, e4)

  -- The message of `send_results`, read back.
  take_message-result_slots :
      KeepsIntegers D
      → (a b : IperfTest D) → IsInt a.sender_has_retransmits
      → take_message D (build (result_slots D a)) b
        ≡ take_array D
            (build (result_slots D a))
            (some (map (stream_object D a.sender_has_retransmits) a.streams))
            (take_has_retransmits D b.mode
              (sent_has_retransmits D a.mode a.sender_has_retransmits)
              (record b { remote_cpu_util = a.cpu_util }))
  unfolding result_slots
  take_message-result_slots keeps a b h =
      let slots = result_slots D a in
      let back = to_int-value_int D keeps _ (sent_has-IsInt a.mode a.sender_has_retransmits h) in
      let heads =
        take_message_heads (build slots) b _ _ _ _ (get_object_item-build "cpu_util_total" slots)
          (get_object_item-build "cpu_util_user" slots)
          (get_object_item-build "cpu_util_system" slots)
          (get_object_item-build "sender_has_retransmits" slots) in
      heads ∙ rw (get_object_item-build "streams" slots, back)

  take_output-keeps :
      (j : Message D) (t : IperfTest D)
      → ((take_output D j t).streams ≡ t.streams)
        × ((take_output D j t).remote_cpu_util ≡ t.remote_cpu_util)
  unfolding take_output
  take_output-keeps j t = ground arith

  -- What the loop over the streams gives is what the message leaves.
  take_array-streams :
      (j : Message D) (js : List (StreamObject D)) (t : IperfTest D) (sps : List (IperfStream D))
      → take_streams D js (true, t) ≡ (true, record t { streams = sps })
      → let (ok, t') = take_array D j (some js) t in
        (ok ≡ true) × (t'.streams ≡ sps) × (t'.remote_cpu_util ≡ t.remote_cpu_util)
  unfolding take_array
  take_array-streams j js t sps e =
      let (same, cpu) = take_output-keeps j (take_streams D js (true, t)).1 in
      (ap (λ z. z.0) e, same ∙ ap (λ z. z.1.streams) e, cpu ∙ ap (λ z. z.1.remote_cpu_util) e)

  take_has_retransmits-keeps :
      (m : Mode) (has : ℤ) (t : IperfTest D)
      → ((take_has_retransmits D m has t).streams ≡ t.streams)
        × ((take_has_retransmits D m has t).remote_cpu_util ≡ t.remote_cpu_util)
  take_has_retransmits-keeps m has t = ground arith

  -- One end sends its results and the other stores them. Where the counts fit, the ids of the streams
  -- are distinct and known to the other end, and the stream `y` of the one end is the peer of `x` of the
  -- other, both calls succeed and `y` ends up with what `x` has counted: a receiver's bytes, jitter,
  -- lost and received packets, or a sender's bytes less the omitted ones, retransmits and packets.
  pub get_results-send_results :
      KeepsIntegers D
      → (a b : IperfTest D) → IsInt a.sender_has_retransmits
      → All (Fits D) a.streams
      → AreDistinct D a.streams
      → IsKnown D a.streams b.streams
      → (i : ℤ) (x y : IperfStream D) → lookup D i a.streams ≡ some x
      → lookup D i b.streams ≡ some y
      → y.is_sender ≡ not x.is_sender
      → let (sent, (a', mail)) = send_results D put_message (a, none) in
        let (stored, (b', mail')) = get_results D take_mail (b, mail) in
        (sent ≡ true)
        × (stored ≡ true)
        × (b'.remote_cpu_util ≡ a.cpu_util)
        × ((known : IperfStream D) × (lookup D i b'.streams ≡ some known)
            × Knows a.sender_has_retransmits x known)
  unfolding send_results get_results take_congestion
  get_results-send_results keeps a b h f d k i x y hx hy peer =
      let has = a.sender_has_retransmits in
      let t : IperfTest D =
        take_has_retransmits D b.mode (sent_has_retransmits D a.mode has)
          (record b { remote_cpu_util = a.cpu_util }) in
      let (st, cpu) =
        take_has_retransmits-keeps b.mode (sent_has_retransmits D a.mode has)
          (record b { remote_cpu_util = a.cpu_util }) in
      let k' : IsKnown D a.streams t.streams = subst (λ z. IsKnown D a.streams z) (sym st) k in
      let (sps, e, (stored, kept)) = take_streams-HasStored D keeps has a.streams t f d k' in
      let (ok, same, cpu') =
        take_array-streams (build (result_slots D a)) (map (stream_object D has) a.streams) t sps
          e in
      let out = take_message-result_slots keeps a b h in
      let here = stored i x y hx (ap (lookup D i) st ∙ hy) in
      (
        refl,
        ap (λ z. z.0) out ∙ ok,
        ap (λ z. z.1.remote_cpu_util) out ∙ cpu' ∙ cpu,
        (
          store_report D (quic_client D t) (report D has x) y,
          ap (λ z. lookup D i z.1.streams) out ∙ ap (lookup D i) same ∙ here,
          store_report-Knows (quic_client D t) has x y peer,
        ),
      )
