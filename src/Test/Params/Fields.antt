-- ===== src/Test/Params/Fields.antt =====
-- src/iperf_api.c: `send_parameters` and `get_parameters` on the members that stand in one field each.
use Prim.Native.String.{String}
use mathlib.Core.Option
use iperf.Base.{
  ℕ, zero, suc, ◌<◌, ◌≡◌, true, false, Option, none, some, lt→ltb, if◌then◌else◌, ltb, arith,
}
use iperf.Base.Int.{ℤ, pos, negsuc, is_nonzero, to_u64, to_int, to_int_lem, IsInt}
use iperf.Json.{
  Value, value_int, as_string, string, get_object_item-build, get_string-build, number, as_double,
  as_double_lem, or_keep, Slots, build, get_number-build, has_bool-build, and_then, as_number,
  or_else,
}
use iperf.Test.{server, receiver, Test, Build}
use iperf.Test.Params.{parameters, get_fields, is_not_minus_one}

-- A number that is left out when it is 0, read over a 0.
int_or_fresh :
    (x : ℤ) (o : Option ℤ)
    → IsInt x
    → o ≡ and_then (or_else (if is_nonzero x then some (number x) else none) none) as_number
    → or_keep (Option.map to_int o) (pos 0) ≡ x
int_or_fresh (pos zero) o h e = rw e
int_or_fresh (pos (suc n)) o h e = rw (e, to_int_lem (pos (suc n)) h)
int_or_fresh (negsuc n) o h e = rw (e, to_int_lem (negsuc n) h)

-- A number that is always sent.
int_or_sent :
    (x old : ℤ) (o : Option ℤ) → IsInt x → o ≡ some x → or_keep (Option.map to_int o) old ≡ x
int_or_sent x old o h e = rw (e, to_int_lem x h)

size_or_sent :
    (n old : ℕ) (o : Option ℤ)
    → n < 9007199254740992
    → o ≡ some (as_double n)
    → or_keep (Option.map to_u64 o) old ≡ n
size_or_sent n old o h e = rw (e, as_double_lem n h) (omega arith)

size_or_fresh :
    (n : ℕ) (o : Option ℤ)
    → n < 9007199254740992
    → o ≡ and_then (or_else (if ltb 0 n then some (number (as_double n)) else none) none) as_number
    → or_keep (Option.map to_u64 o) 0 ≡ n
size_or_fresh zero o h e = rw e
size_or_fresh (suc n) o h e =
    rw (e, lt→ltb 0 (suc n) (omega arith), as_double_lem (suc n) h) (omega arith)

-- A number that is left out when it is -1, read over -1.
affinity_or_fresh :
    (x : ℤ) (o : Option ℤ)
    → IsInt x
    → o ≡ and_then (or_else (if is_not_minus_one x then some (number x) else none) none) as_number
    → or_keep (Option.map to_int o) (negsuc 0) ≡ x
affinity_or_fresh (pos n) o h e = rw (e, to_int_lem (pos n) h)
affinity_or_fresh (negsuc zero) o h e = rw e
affinity_or_fresh (negsuc (suc n)) o h e =
    rw (e, lt→ltb 0 (suc n) (omega arith), to_int_lem (negsuc (suc n)) h)

-- A number that is not 0, over any other.
int_or_given :
    (x old : ℤ) (o : Option ℤ)
    → IsInt x
    → is_nonzero x ≡ true
    → o ≡ and_then (or_else (if is_nonzero x then some (number x) else none) none) as_number
    → or_keep (Option.map to_int o) old ≡ x
int_or_given (pos zero) old o h z e = absurd cc
int_or_given (pos (suc n)) old o h z e = rw (e, to_int_lem (pos (suc n)) h)
int_or_given (negsuc n) old o h z e = rw (e, to_int_lem (negsuc n) h)

-- The same by the `valueint` of a member of any type.
valueint_or_fresh :
    (x : ℤ) (o : Option Value)
    → IsInt x
    → o ≡ or_else (if is_nonzero x then some (number x) else none) none
    → or_keep (Option.map (λ v. to_int (value_int v)) o) (pos 0) ≡ x
valueint_or_fresh (pos zero) o h e = rw e
valueint_or_fresh (pos (suc n)) o h e = rw (e, to_int_lem (pos (suc n)) h)
valueint_or_fresh (negsuc n) o h e = rw (e, to_int_lem (negsuc n) h)

text_or_fresh :
    (x o : Option String)
    → o ≡ and_then (or_else (Option.map string x) none) as_string
    → or_keep (Option.map some o) none ≡ x
text_or_fresh none o e = rw e
text_or_fresh (some t) o e = rw e

-- The client's values fit the types of their fields, and those of 64 bits are exact as doubles.
pub record Fits (c : Test) : Type 0 where
  pub omit_fits : IsInt c.omit
  pub duration_fits : IsInt c.duration
  pub num_streams_fits : IsInt c.num_streams
  pub bytes_fits : c.settings.bytes < 9007199254740992
  pub blocks_fits : c.settings.blocks < 9007199254740992
  pub rate_fits : c.settings.rate < 9007199254740992
  pub fqrate_fits : c.settings.fqrate < 9007199254740992
  pub mss_fits : IsInt c.settings.mss
  pub socket_bufsize_fits : IsInt c.settings.socket_bufsize
  pub burst_fits : IsInt c.settings.burst
  pub tos_fits : IsInt c.settings.tos
  pub zerocopy_fits : IsInt c.zerocopy
  pub server_affinity_fits : IsInt c.server_affinity
  pub blksize_fits : IsInt c.settings.blksize
  pub blksize_given : is_nonzero c.settings.blksize ≡ true
  pub skip_rx_copy_fits : IsInt c.settings.skip_rx_copy

-- A server between two tests.
pub record IsFresh (s : Test) : Type 0 where
  pub no_mss : s.settings.mss ≡ pos 0
  pub no_bufsize : s.settings.socket_bufsize ≡ pos 0
  pub no_burst : s.settings.burst ≡ pos 0
  pub no_tos : s.settings.tos ≡ pos 0
  pub no_rate : s.settings.rate ≡ 0
  pub no_fqrate : s.settings.fqrate ≡ 0
  pub delays : s.no_delay ≡ false
  pub narrow_counters : s.udp_counters_64bit ≡ false
  pub no_zerocopy : s.zerocopy ≡ pos 0
  pub any_processor : s.server_affinity ≡ negsuc 0
  pub no_skip : s.settings.skip_rx_copy ≡ pos 0
  pub no_title : s.title ≡ none
  pub no_extra_data : s.extra_data ≡ none
  pub no_congestion : s.congestion ≡ none
  pub is_server : s.role ≡ server
  pub receives : s.mode ≡ receiver
  pub not_reverse : s.reverse ≡ false
  pub not_bidirectional : s.bidirectional ≡ false

-- The server's test has the client's values.
pub record Agrees (c s : Test) : Type 0 where
  pub omit_agrees : s.omit ≡ c.omit
  pub duration_agrees : s.duration ≡ c.duration
  pub num_streams_agrees : s.num_streams ≡ c.num_streams
  pub bytes_agrees : s.settings.bytes ≡ c.settings.bytes
  pub blocks_agrees : s.settings.blocks ≡ c.settings.blocks
  pub rate_agrees : s.settings.rate ≡ c.settings.rate
  pub fqrate_agrees : s.settings.fqrate ≡ c.settings.fqrate
  pub mss_agrees : s.settings.mss ≡ c.settings.mss
  pub socket_bufsize_agrees : s.settings.socket_bufsize ≡ c.settings.socket_bufsize
  pub burst_agrees : s.settings.burst ≡ c.settings.burst
  pub tos_agrees : s.settings.tos ≡ c.settings.tos
  pub no_delay_agrees : s.no_delay ≡ c.no_delay
  pub zerocopy_agrees : s.zerocopy ≡ c.zerocopy
  pub server_affinity_agrees : s.server_affinity ≡ c.server_affinity
  pub blksize_agrees : s.settings.blksize ≡ c.settings.blksize
  pub skip_rx_copy_agrees : s.settings.skip_rx_copy ≡ c.settings.skip_rx_copy
  pub title_agrees : s.title ≡ c.title
  pub extra_data_agrees : s.extra_data ≡ c.extra_data
  pub congestion_agrees : s.congestion ≡ c.congestion
  pub udp_counters_64bit_agrees : s.udp_counters_64bit ≡ c.udp_counters_64bit

module _ (b : Build) (version : String) (token : Option String) (c s : Test) where
  abbrev slots : Slots
  slots = parameters b version token c

  pub get_fields-Agrees : Fits c → IsFresh s → Agrees c (get_fields b (build slots) s)
  unfolding get_fields parameters
  get_fields-Agrees f i = record {
    omit_agrees = int_or_sent c.omit s.omit _ f.omit_fits (get_number-build "omit" slots);
    duration_agrees =
        int_or_sent c.duration s.duration _ f.duration_fits (get_number-build "time" slots);
    num_streams_agrees =
        int_or_sent c.num_streams s.num_streams _ f.num_streams_fits
          (get_number-build "parallel" slots);
    bytes_agrees = size_or_sent c.settings.bytes 0 _ f.bytes_fits (get_number-build "num" slots);
    blocks_agrees =
        size_or_sent c.settings.blocks 0 _ f.blocks_fits (get_number-build "blockcount" slots);
    rate_agrees =
        rw i.no_rate
          (size_or_fresh c.settings.rate _ f.rate_fits (get_number-build "bandwidth" slots));
    fqrate_agrees =
        rw i.no_fqrate
          (size_or_fresh c.settings.fqrate _ f.fqrate_fits (get_number-build "fqrate" slots));
    mss_agrees =
        rw i.no_mss (int_or_fresh c.settings.mss _ f.mss_fits (get_number-build "MSS" slots));
    socket_bufsize_agrees = rw i.no_bufsize (
        int_or_fresh c.settings.socket_bufsize _ f.socket_bufsize_fits
          (get_number-build "window" slots));
    burst_agrees =
        rw i.no_burst
          (int_or_fresh c.settings.burst _ f.burst_fits (get_number-build "burst" slots));
    tos_agrees =
        rw i.no_tos (int_or_fresh c.settings.tos _ f.tos_fits (get_number-build "TOS" slots));
    no_delay_agrees = rw (has_bool-build "nodelay" slots, i.delays) (ground arith);
    zerocopy_agrees =
        rw i.no_zerocopy
          (int_or_fresh c.zerocopy _ f.zerocopy_fits (get_number-build "zerocopy" slots));
    server_affinity_agrees = rw i.any_processor (
        affinity_or_fresh c.server_affinity _ f.server_affinity_fits
          (get_number-build "server_affinity" slots));
    blksize_agrees =
        int_or_given c.settings.blksize s.settings.blksize _ f.blksize_fits f.blksize_given
          (get_number-build "len" slots);
    skip_rx_copy_agrees = rw i.no_skip (
        valueint_or_fresh c.settings.skip_rx_copy _ f.skip_rx_copy_fits
          (get_object_item-build "skip_rx_copy" slots));
    title_agrees = rw i.no_title (text_or_fresh c.title _ (get_string-build "title" slots));
    extra_data_agrees =
        rw i.no_extra_data (text_or_fresh c.extra_data _ (get_string-build "extra_data" slots));
    congestion_agrees =
        rw i.no_congestion (text_or_fresh c.congestion _ (get_string-build "congestion" slots));
    udp_counters_64bit_agrees =
        rw (get_number-build "udp_counters_64bit" slots, i.narrow_counters) (ground arith);
  }
