-- ===== src/Results/Receive.antt =====
-- src/iperf_api.c: `get_results`. What `JSON_read` takes from the connection is an argument.
use mathlib.Core.Option
use iperf.Base.{ℕ, Bool, true, false, ◌&&◌, Option, none, some, List, [], ◌∷◌, if◌then◌else◌}
use iperf.Base.Int.{ℤ, pos, negsuc, is_positive_int, eqb_ℤ, to_int, to_u64}
use iperf.Json.{get_object_item, and_then, or_keep}
use iperf.Test.{Mode, sender, receiver, bidirectional_mode}
use iperf.Results.{
  Double, StreamObject, Message, IperfStream, IperfTest, ierecvresults, iestreamid, is_client,
  entry_of, number_of, item_string, item_array,
}

infixl 5 ◌>>=◌
abbrev ◌>>=◌ : {A B : Type 0} → Option A → (A → Option B) → Option B
none >>= f = none
some a >>= f = f a

module _ (D : Double) where
  open D use {Carrier, of_int, value_int, plus, minus, over_million}

  -- What a stream's object says. `omitted` are the errors and packets of the omitted time and `times` the
  -- start and the end, which an older program does not send.
  pub record StreamReport : Type 0 where
    pub id : ℤ
    pub bytes : ℕ
    pub retransmits : ℤ
    pub jitter : Carrier
    pub errors : ℤ
    pub packets : ℤ
    pub omitted : Option (ℤ × ℤ)
    pub times : Option (Carrier × Carrier)

  -- Both of the two members or neither; one alone is refused.
  abbrev both_or_neither : Option Carrier → Option Carrier → Option (Option (ℤ × ℤ))
  both_or_neither none none = some none
  both_or_neither (some e) (some p) = some (some (value_int e, value_int p))
  both_or_neither _ _ = none

  abbrev both : Option Carrier → Option Carrier → Option (Carrier × Carrier)
  both (some a) (some b) = some (a, b)
  both _ _ = none

  -- The checks of a stream's object; `none` is IERECVRESULTS.
  unfoldable pub read_stream : StreamObject D → Option StreamReport
  read_stream j = do
    sid ← entry_of D "id" j
    bytes ← entry_of D "bytes" j
    retransmits ← entry_of D "retransmits" j
    jitter ← entry_of D "jitter" j
    errors ← entry_of D "errors" j
    packets ← entry_of D "packets" j
    omitted ← both_or_neither (entry_of D "omitted_errors" j) (entry_of D "omitted_packets" j)
    some (record {
      id = to_int (value_int sid);
      bytes = to_u64 (value_int bytes);
      retransmits = to_int (value_int retransmits);
      jitter = jitter;
      errors = value_int errors;
      packets = value_int packets;
      omitted = omitted;
      times = both (entry_of D "start_time" j) (entry_of D "end_time" j);
    })

  -- end_time - start_time, or 0.
  abbrev report_time : StreamReport → Carrier
  report_time r = elim r.times [ none ↦ of_int (pos 0) | some (a, b) ↦ minus b a ]

  -- Without the omitted errors of the peer: -1 is an unknown count.
  abbrev guessed_omitted : ℤ → ℤ → ℤ
  guessed_omitted omitted errors =
      if is_positive_int omitted then if is_positive_int errors then negsuc 0 else pos 0 else errors

  abbrev take_omitted : Option (ℤ × ℤ) → IperfStream D → IperfStream D
  take_omitted (some (e, p)) sp = record sp { omitted_cnt_error = e; peer_omitted_packet_count = p }
  take_omitted none sp = record sp {
    peer_omitted_packet_count = sp.omitted_packet_count;
    omitted_cnt_error = guessed_omitted sp.omitted_packet_count sp.cnt_error;
  }

  -- A stream that sends gets what the receiver has counted; the client of QUIC also takes its totals.
  unfoldable pub store_as_sender : Bool → StreamReport → IperfStream D → IperfStream D
  store_as_sender quic_client r sp =
      let sp1 : IperfStream D = take_omitted r.omitted (record sp {
        jitter = r.jitter;
        cnt_error = r.errors;
        peer_packet_count = r.packets;
        bytes_received = r.bytes;
      }) in
      let sp2 : IperfStream D = record sp1 { receiver_time = report_time r } in
      if quic_client then record sp2 { bytes_sent = r.bytes; sender_time = report_time r } else sp2

  -- A stream that receives gets what the sender has counted.
  unfoldable pub store_as_receiver : StreamReport → IperfStream D → IperfStream D
  store_as_receiver r sp = record sp {
    peer_packet_count = r.packets;
    bytes_sent = r.bytes;
    stream_retrans = r.retransmits;
    peer_omitted_packet_count = elim r.omitted [ none ↦ r.packets | some (e, p) ↦ p ];
    sender_time = report_time r;
  }

  unfoldable pub store_report : Bool → StreamReport → IperfStream D → IperfStream D
  unfolding store_as_sender store_as_receiver
  store_report quic_client r sp =
      if sp.is_sender then store_as_sender quic_client r sp else store_as_receiver r sp

  -- The first stream of that id takes the report; `none` is IESTREAMID.
  unfoldable pub find_and_store :
      Bool → StreamReport → List (IperfStream D) → Option (List (IperfStream D))
  unfolding store_report
  find_and_store quic_client r [] = none
  find_and_store quic_client r (sp ∷ sps) =
      if eqb_ℤ sp.id r.id
      then some (store_report quic_client r sp ∷ sps)
      else Option.map (◌∷◌ sp) (find_and_store quic_client r sps)

  abbrev refuse : ℕ → IperfTest D → Bool × IperfTest D
  refuse e t = (false, record t { i_errno = e })

  abbrev pub quic_client : IperfTest D → Bool
  quic_client t = t.over_quic && is_client t.role

  -- A round of the loop over the streams, and the loop: a stream that is refused does not end it.
  unfoldable pub take_stream : StreamObject D → Bool × IperfTest D → Bool × IperfTest D
  unfolding read_stream find_and_store
  take_stream j (ok, t) = elim (read_stream j) [
    | none ↦ refuse ierecvresults t
    | some r ↦ elim (find_and_store (quic_client t) r t.streams) [
      | none ↦ refuse iestreamid t
      | some sps ↦ (ok, record t { streams = sps })
    ]
  ]

  unfoldable pub take_streams : List (StreamObject D) → Bool × IperfTest D → Bool × IperfTest D
  unfolding take_stream
  take_streams [] rt = rt
  take_streams (j ∷ js) rt = take_streams js (take_stream j rt)

  abbrev pub take_has_retransmits : Mode → ℤ → IperfTest D → IperfTest D
  take_has_retransmits receiver has t = record t {
    sender_has_retransmits = has;
    other_side_has_retransmits = pos 0;
  }
  take_has_retransmits bidirectional_mode has t = record t { other_side_has_retransmits = has }
  take_has_retransmits sender has t = t

  -- The output of the server, where the client has asked for it.
  unfoldable pub take_output : Message D → IperfTest D → IperfTest D
  take_output j t =
      if is_client t.role && t.get_server_output
      then elim (get_object_item "server_output_json" j) [
        | some output ↦ record t { json_server_output = some output }
        | none ↦ record t {
          server_output_text =
              or_keep
                (Option.map some
                  (and_then (get_object_item "server_output_text" j) (item_string D)))
                t.server_output_text;
        }
      ]
      else t

  unfoldable pub take_array :
      Message D → Option (List (StreamObject D)) → IperfTest D → Bool × IperfTest D
  unfolding take_streams take_output
  take_array j none t = refuse ierecvresults t
  take_array j (some js) t = let (ok, t') = take_streams js (true, t) in (ok, take_output j t')

  -- The members before the streams, all of which must be there.
  abbrev pub heads :
      Option Carrier
      → Option Carrier
      → Option Carrier
      → Option Carrier
      → Option ((Carrier × Carrier × Carrier) × ℤ)
  heads (some total) (some user) (some system) (some has) =
      some ((total, user, system), to_int (value_int has))
  heads _ _ _ _ = none

  abbrev read_heads : Message D → Option ((Carrier × Carrier × Carrier) × ℤ)
  read_heads j =
      heads (number_of D "cpu_util_total" j) (number_of D "cpu_util_user" j)
        (number_of D "cpu_util_system" j) (number_of D "sender_has_retransmits" j)

  unfoldable pub take_heads :
      Message D → IperfTest D → Option ((Carrier × Carrier × Carrier) × ℤ) → Bool × IperfTest D
  unfolding take_array
  take_heads j t none = refuse ierecvresults t
  take_heads j t (some (cpu, has)) =
      take_array j (and_then (get_object_item "streams" j) (item_array D))
        (take_has_retransmits t.mode has (record t { remote_cpu_util = cpu }))

  unfoldable pub take_message : Message D → IperfTest D → Bool × IperfTest D
  unfolding take_heads
  take_message j t = take_heads j t (read_heads j)

  -- In the end the congestion control of the other side, whatever came before.
  unfoldable pub take_congestion : Message D → IperfTest D → IperfTest D
  take_congestion j t = record t {
    remote_congestion_used =
        or_keep (Option.map some (and_then (get_object_item "congestion_used" j) (item_string D)))
          t.remote_congestion_used;
  }

  unfoldable pub get_results :
      {W : Type 0} → (W → Option (Message D) × W) → IperfTest D × W → Bool × (IperfTest D × W)
  unfolding take_message take_congestion
  get_results json_read (t, w) =
      let (read, w') = json_read w in
      elim read [
        | none ↦ (false, (record t { i_errno = ierecvresults }, w'))
        | some j ↦ let (ok, t') = take_message j t in (ok, (take_congestion j t', w'))
      ]
