-- ===== src/Test/Params.antt =====
-- src/iperf_api.c: `send_parameters` and `get_parameters`. The client's test becomes a JSON object, and
-- the server reads it into its own test. What `JSON_write` and `JSON_read` do with the connection, and
-- what `encode_auth_setting` gives, are arguments.
use Prim.Native.String.{String}
use iperf.Base.{
  ℕ, ◌+◌, ◌≡◌, refl, ◌⊎◌, inl, inr, Bool, true, false, Option, none, some, List, [], ◌∷◌,
  if◌then◌else◌, ◌&&◌, ◌||◌, not, ltb, ◌==◌, arith,
}
use mathlib.Core.Option
use iperf.Base.Int.{ltb_ℤ, ◌+ℤ◌, ℤ, pos, negsuc, is_nonzero, is_positive_int, to_u64, to_int}
use iperf.Json.{
  Value, as_double, true_value, number, string, Object, value_int, get_object_item, has_bool,
  get_number, get_string, or_keep, Slots, build,
}
use iperf.Test.{
  Role, client, server, Mode, sender, receiver, bidirectional_mode, Protocol, tcp, udp, sctp, quic,
  same_protocol, TestSettings, Test, Build,
}
use iperf.Test.Roles.{set_protocol, set_test_reverse, set_test_bidirectional}
pub mod Fields
pub mod Roundtrip
pub mod Limits
pub mod Sticky

-- The errors that the two functions report.
pub data ParamError : Type 0 where
  send_params recv_params udp_file_transfer max_server_duration_exceeded : ParamError

abbrev pub is_not_minus_one : ℤ → Bool
is_not_minus_one (negsuc n) = ltb 0 n
is_not_minus_one (pos n) = true

-- A member that is added under a condition.
abbrev pub add_if : Bool → String → Value → String × Option Value
add_if b k v = (k, if b then some v else none)

abbrev pub add_string : String → Option String → String × Option Value
add_string k o = (k, Option.map string o)

-- A number member that is left out when it is 0.
abbrev pub add_nonzero : String → ℤ → String × Option Value
add_nonzero k n = add_if (is_nonzero n) k (number n)

abbrev pub add_size : String → ℕ → String × Option Value
add_size k n = add_if (ltb 0 n) k (number (as_double n))

-- The members of `send_parameters`, in order. `token` is the token of `encode_auth_setting`, where the
-- client has credentials.
pub parameters : Build → String → Option String → Test → Slots
parameters b version token t =
    add_if (same_protocol t.protocol tcp) "tcp" true_value
    ∷ add_if (same_protocol t.protocol udp) "udp" true_value
    ∷ add_if (same_protocol t.protocol sctp) "sctp" true_value
    ∷ add_if (same_protocol t.protocol quic) "quic" true_value
    ∷ add_if (is_positive_int t.quic_port) "quic_port" (number t.quic_port)
    ∷ ("omit", some (number t.omit))
    ∷ add_if (is_not_minus_one t.server_affinity) "server_affinity" (number t.server_affinity)
    ∷ ("time", some (number t.duration))
    ∷ ("num", some (number (as_double s.bytes)))
    ∷ ("blockcount", some (number (as_double s.blocks)))
    ∷ add_nonzero "MSS" s.mss
    ∷ add_if t.no_delay "nodelay" true_value
    ∷ ("parallel", some (number t.num_streams))
    ∷ add_if t.reverse "reverse" true_value
    ∷ add_if t.bidirectional "bidirectional" true_value
    ∷ add_if (b.have_mptcp && t.mptcp) "mptcp" true_value
    ∷ add_nonzero "window" s.socket_bufsize
    ∷ add_nonzero "len" s.blksize
    ∷ add_size "bandwidth" s.rate
    ∷ add_size "fqrate" s.fqrate
    ∷ add_nonzero "pacing_timer" s.pacing_timer
    ∷ add_nonzero "burst" s.burst
    ∷ add_nonzero "TOS" s.tos
    ∷ add_nonzero "flowlabel" s.flowlabel
    ∷ add_string "title" t.title
    ∷ add_string "extra_data" t.extra_data
    ∷ add_string "congestion" t.congestion
    ∷ add_string "congestion_used" t.congestion_used
    ∷ add_if t.get_server_output "get_server_output" (number (pos 1))
    ∷ add_if t.udp_counters_64bit "udp_counters_64bit" (number (pos 1))
    ∷ add_if t.repeating_payload "repeating_payload" (number (pos 1))
    ∷ add_nonzero "zerocopy" t.zerocopy
    ∷ add_if (b.have_dont_fragment && is_nonzero s.dont_fragment) "dont_fragment"
        (number s.dont_fragment)
    ∷ add_string "authtoken" token
    ∷ add_nonzero "skip_rx_copy" s.skip_rx_copy
    ∷ ("client_version", some (string version))
    ∷ []
  where
    open t use {settings as s}

-- What the client's credentials come to: none, or what `encode_auth_setting` gives, which may fail.
pub data Credentials : Type 0 where
  no_credentials : Credentials
  encoded : String → Credentials
  not_encoded : Credentials

-- `written` is the success of `JSON_write`; the object is what is on the connection then.
unfoldable pub send_parameters : Build → String → Credentials → Bool → Test → Object ⊎ ParamError
unfolding parameters
send_parameters b version not_encoded written t = inr send_params
send_parameters b version no_credentials written t =
    if written then inl (build (parameters b version none t)) else inr send_params
send_parameters b version (encoded token) written t =
    if written then inl (build (parameters b version (some token) t)) else inr send_params

-- `set_protocol` where the result is not looked at.
abbrev pub try_protocol : Build → Bool → Protocol → Test → Test
try_protocol b false p t = t
try_protocol b true p t = or_keep (set_protocol b p t) t

-- A chain of "if the member is there, store it in the field".
abbrev pub int_or : String → Object → ℤ → ℤ
int_or key j old = or_keep (Option.map to_int (get_number key j)) old

-- A member of any type, by its `valueint`.
abbrev pub valueint_or : String → Object → ℤ → ℤ
valueint_or key j old = or_keep (Option.map (λ v. to_int (value_int v)) (get_object_item key j)) old

abbrev pub size_or : String → Object → ℕ → ℕ
size_or key j old = or_keep (Option.map to_u64 (get_number key j)) old

abbrev pub string_or : String → Object → Option String → Option String
string_or key j old = or_keep (Option.map some (get_string key j)) old

abbrev pub is_some : {A : Type 0} → Option A → Bool
is_some none = false
is_some (some _) = true

abbrev pub number_is_there : String → Object → Bool
number_is_there key j = is_some (get_number key j)

-- The protocols of the object, in the order of the source; UDP is refused where a file is given.
pub get_protocol_members : Build → Object → Test → Test
get_protocol_members b j t =
    let t1 = try_protocol b (has_bool "tcp" j) tcp t in
    let t2 = try_protocol b (has_bool "udp" j && not (is_some t.diskfile_name)) udp t1 in
    let t3 = try_protocol b (has_bool "sctp" j) sctp t2 in
    try_protocol b (has_bool "quic" j) quic t3

-- The members that are stored in one field each.
unfoldable pub get_fields : Build → Object → Test → Test
get_fields b j t = record t {
  quic_port = int_or "quic_port" j t.quic_port;
  omit = int_or "omit" j t.omit;
  server_affinity = int_or "server_affinity" j t.server_affinity;
  duration = int_or "time" j t.duration;
  no_delay = has_bool "nodelay" j || t.no_delay;
  num_streams = int_or "parallel" j t.num_streams;
  mptcp = (b.have_mptcp && has_bool "mptcp" j) || t.mptcp;
  title = string_or "title" j t.title;
  extra_data = string_or "extra_data" j t.extra_data;
  congestion = string_or "congestion" j t.congestion;
  congestion_used = string_or "congestion_used" j t.congestion_used;
  get_server_output = number_is_there "get_server_output" j || t.get_server_output;
  udp_counters_64bit = number_is_there "udp_counters_64bit" j || t.udp_counters_64bit;
  repeating_payload = number_is_there "repeating_payload" j || t.repeating_payload;
  zerocopy = int_or "zerocopy" j t.zerocopy;
  settings = record {
    bytes = size_or "num" j 0;
    blocks = size_or "blockcount" j 0;
    mss = int_or "MSS" j s.mss;
    socket_bufsize = int_or "window" j s.socket_bufsize;
    blksize = int_or "len" j s.blksize;
    rate = size_or "bandwidth" j s.rate;
    fqrate = size_or "fqrate" j s.fqrate;
    pacing_timer = int_or "pacing_timer" j s.pacing_timer;
    burst = int_or "burst" j s.burst;
    tos = int_or "TOS" j s.tos;
    flowlabel = int_or "flowlabel" j s.flowlabel;
    dont_fragment =
        if b.have_dont_fragment then int_or "dont_fragment" j s.dont_fragment else s.dont_fragment;
    authtoken = string_or "authtoken" j s.authtoken;
    skip_rx_copy = valueint_or "skip_rx_copy" j s.skip_rx_copy;
  };
}
  where
    open t use {settings as s}

-- The direction members go through the setters.
pub get_direction : Build → Object → Test → Test
get_direction b j t =
    let t1 = if has_bool "reverse" j then set_test_reverse b true t else t in
    if has_bool "bidirectional" j then set_test_bidirectional b true t1 else t1

-- `test->mode` is 0 for a receiver only.
abbrev mode_is_nonzero : Mode → Bool
mode_is_nonzero receiver = false
mode_is_nonzero _ = true

pub note_retransmits : Build → Test → Test
note_retransmits b t =
    if mode_is_nonzero t.mode && same_protocol t.protocol tcp && b.has_tcpinfo_retransmits
    then record t { sender_has_retransmits = true }
    else t

-- The test of the duration: an int addition that wraps around.
pub exceeds_max_duration : Test → Bool
exceeds_max_duration t =
    is_positive_int t.max_server_duration
    && (ltb_ℤ t.max_server_duration (to_int (t.duration +ℤ t.omit)) || not (is_nonzero t.duration))

-- The test afterwards, and the error if the result is -1: the last one that was set.
unfoldable pub get_parameters : Build → Option Object → Test → Test × Option ParamError
unfolding get_protocol_members get_fields get_direction note_retransmits exceeds_max_duration
get_parameters b none t = (t, some recv_params)
get_parameters b (some j) t =
    let t' = note_retransmits b (get_direction b j (get_fields b j (get_protocol_members b j t))) in
    let refused = has_bool "udp" j && is_some t.diskfile_name in
    (
      t',
      if exceeds_max_duration t'
          then some max_server_duration_exceeded
          else if refused
          then some udp_file_transfer
          else none,
    )
