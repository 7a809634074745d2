-- ===== src/Results/Report.antt =====
-- src/iperf_api.c: `send_results`. What `JSON_write` does with the connection is an argument.
use Prim.Native.String.{String}
use mathlib.Core.Option
use iperf.Base.{
  ℕ, Bool, true, false, ◌&&◌, Option, none, some, List, [], ◌∷◌, if◌then◌else◌, map, sub64,
}
use iperf.Base.Int.{ℤ, pos, negsuc, is_nonzero, to_int}
use iperf.Time.{IperfTime, time_diff}
use iperf.Json.{build}
use iperf.Test.{Mode, receiver}
use iperf.Results.{
  Double, Item, number, string, array, json, StreamObject, Message, IperfStream, IperfTest,
  iesendresults, is_server,
}

abbrev append : String → String → String
append String.[] t = t
append (String.◌∷◌ c s) t = String.◌∷◌ c (append s t)

-- The text of the lines that the server has printed.
pub concat_lines : List String → String
concat_lines [] = ""
concat_lines (line ∷ lines) = append line (concat_lines lines)

module _ (D : Double) where
  open D use {Carrier, of_int, value_int, plus, minus, over_million}

  -- `iperf_time_in_secs`.
  unfoldable pub in_secs : IperfTime → Carrier
  in_secs t = plus (of_int (pos t.secs)) (over_million (of_int (pos t.usecs)))

  -- What a stream reports as its bytes and its retransmits; a `long` becomes an int.
  unfoldable pub bytes_transferred : IperfStream D → ℕ
  bytes_transferred sp =
      if sp.is_sender then sub64 sp.bytes_sent sp.bytes_sent_omit else sp.bytes_received

  unfoldable pub reported_retransmits : ℤ → IperfStream D → ℤ
  reported_retransmits has sp =
      if sp.is_sender && is_nonzero has then to_int sp.stream_retrans else negsuc 0

  unfoldable pub stream_object : ℤ → IperfStream D → StreamObject D
  unfolding bytes_transferred reported_retransmits in_secs
  stream_object has sp =
      ("id", number (of_int sp.id))
      ∷ ("bytes", number (of_int (pos (bytes_transferred sp))))
      ∷ ("retransmits", number (of_int (reported_retransmits has sp)))
      ∷ ("jitter", number sp.jitter)
      ∷ ("errors", number (of_int sp.cnt_error))
      ∷ ("omitted_errors", number (of_int sp.omitted_cnt_error))
      ∷ ("packets", number (of_int sp.packet_count))
      ∷ ("omitted_packets", number (of_int sp.omitted_packet_count))
      ∷ ("start_time", number (in_secs (time_diff sp.start_time sp.start_time).0))
      ∷ ("end_time", number (in_secs (time_diff sp.start_time sp.end_time).0))
      ∷ []

  abbrev pub sent_has_retransmits : Mode → ℤ → ℤ
  sent_has_retransmits receiver has = negsuc 0
  sent_has_retransmits _ has = has

  -- The output of the server, as JSON or as text.
  abbrev sends_output : IperfTest D → Bool
  sends_output t = is_server t.role && t.get_server_output

  abbrev output_json : IperfTest D → Option (Item D)
  output_json t = if sends_output t && t.json_output then some (json t.json_top) else none

  abbrev output_text : IperfTest D → Option (Item D)
  output_text t =
      if sends_output t
      then if t.json_output then none else some (string (concat_lines t.server_output_list))
      else none

  unfoldable pub result_slots : IperfTest D → List (String × Option (Item D))
  unfolding concat_lines
  result_slots t =
      ("cpu_util_total", some (number t.cpu_util.0))
      ∷ ("cpu_util_user", some (number t.cpu_util.1))
      ∷ ("cpu_util_system", some (number t.cpu_util.2))
      ∷ (
        "sender_has_retransmits",
        some (number (of_int (sent_has_retransmits t.mode t.sender_has_retransmits))),
      )
      ∷ ("congestion_used", Option.map string t.congestion_used)
      ∷ ("server_output_json", output_json t)
      ∷ ("server_output_text", output_text t)
      ∷ ("streams", some (array (map (stream_object t.sender_has_retransmits) t.streams)))
      ∷ []

  -- `written` is what `JSON_write` says; the connection `W` then carries the message.
  unfoldable pub send_results :
      {W : Type 0} → (Message D → W → Bool × W) → IperfTest D × W → Bool × (IperfTest D × W)
  unfolding result_slots
  send_results json_write (t, w) =
      let (written, w') = json_write (build (result_slots t)) w in
      if written then (true, (t, w')) else (false, (record t { i_errno = iesendresults }, w'))
