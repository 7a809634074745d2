-- ===== src/Results.antt =====
-- src/iperf_api.c, the results of a test: the fields of a stream and of a test that `send_results` and
-- `get_results` use, and the message between them. At the end of a test each end sends what its streams
-- counted as a JSON object, and stores what the other end counted. A number of JSON is a double, with the
-- integer that cJSON keeps beside it.
use Prim.Native.String.{String}
use iperf.Base.{ℕ, Bool, true, false, Option, none, some, List, [], ◌∷◌}
use iperf.Base.Int.{ℤ}
use iperf.Time.{IperfTime}
use iperf.Json.{get_object_item, and_then}
use iperf.Test.{Role, client, server, Mode}
pub mod Report
pub mod Receive
pub mod Exchange
pub mod Lookup
pub mod Reading
pub mod Storing
pub mod Roundtrip
pub mod Refusing
pub mod Agreement

-- `double`: `of_int` is the conversion to it, and `value_int` the integer of a cJSON number.
pub record Double : Type 1 where
  pub Carrier : Type 0
  pub of_int : ℤ → Carrier
  pub value_int : Carrier → ℤ
  pub plus : Carrier → Carrier → Carrier
  pub minus : Carrier → Carrier → Carrier
  pub over_million : Carrier → Carrier

abbrev pub iepackageresults : ℕ
iepackageresults = 115

abbrev pub iesendresults : ℕ
iesendresults = 116

abbrev pub ierecvresults : ℕ
ierecvresults = 117

abbrev pub iestreamid : ℕ
iestreamid = 208

abbrev pub is_server : Role → Bool
is_server server = true
is_server _ = false

abbrev pub is_client : Role → Bool
is_client client = true
is_client _ = false

module _ (D : Double) where
  open D use {Carrier, of_int, value_int, plus, minus, over_million}

  -- The members of a stream's object, and those of the whole message. `json` stands for an object that
  -- is passed on as it is.
  pub data Entry : Type 0 where
    number : Carrier → Entry
    string : String → Entry

  pub data Item : Type 0 where
    number : Carrier → Item
    string : String → Item
    array : List (List (String × Entry)) → Item
    json : ℕ → Item

  abbrev pub StreamObject : Type 0
  StreamObject = List (String × Entry)

  abbrev pub Message : Type 0
  Message = List (String × Item)

  -- The fields of `struct iperf_stream` and of its result that the exchange uses.
  pub record IperfStream : Type 0 where
    pub id : ℤ
    pub is_sender : Bool
    pub jitter : Carrier
    pub cnt_error : ℤ
    pub omitted_cnt_error : ℤ
    pub packet_count : ℤ
    pub omitted_packet_count : ℤ
    pub peer_packet_count : ℤ
    pub peer_omitted_packet_count : ℤ
    pub bytes_sent : ℕ
    pub bytes_sent_omit : ℕ
    pub bytes_received : ℕ
    pub stream_retrans : ℤ
    pub start_time : IperfTime
    pub end_time : IperfTime
    pub sender_time : Carrier
    pub receiver_time : Carrier

  pub record IperfTest : Type 0 where
    pub role : Role
    pub mode : Mode
    pub over_quic : Bool
    pub i_errno : ℕ
    pub sender_has_retransmits : ℤ
    pub other_side_has_retransmits : ℤ
    pub cpu_util : Carrier × Carrier × Carrier
    pub remote_cpu_util : Carrier × Carrier × Carrier
    pub congestion_used : Option String
    pub remote_congestion_used : Option String
    pub get_server_output : Bool
    pub json_output : Bool
    pub json_top : ℕ
    pub server_output_list : List String
    pub server_output_text : Option String
    pub json_server_output : Option Item
    pub streams : List IperfStream

  -- `iperf_cJSON_GetObjectItemType` with cJSON_Number, cJSON_String and cJSON_Array.
  abbrev entry_number : Entry → Option Carrier
  entry_number (number x) = some x
  entry_number (string _) = none

  abbrev pub item_number : Item → Option Carrier
  item_number (number x) = some x
  item_number _ = none

  abbrev pub item_string : Item → Option String
  item_string (string s) = some s
  item_string _ = none

  abbrev pub item_array : Item → Option (List StreamObject)
  item_array (array a) = some a
  item_array _ = none

  abbrev pub entry_of : String → StreamObject → Option Carrier
  entry_of key j = and_then (get_object_item key j) entry_number

  abbrev pub number_of : String → Message → Option Carrier
  number_of key j = and_then (get_object_item key j) item_number
