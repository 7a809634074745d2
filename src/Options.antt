-- ===== src/Options.antt =====
-- src/iperf_api.c: the options of the command line, as `getopt_long` gives them to `iperf_parse_arguments`,
-- and what has been read of them. The text of an argument is what the readers of numbers make of it.
use Prim.Native.String.{String}
use iperf.Base.{ℕ, Bool, Option}
use iperf.Base.Int.{ℤ}
use iperf.Time.{IperfTime}
use iperf.Test.{Test, Build}
pub mod Outcome
pub mod Parse
pub mod Finish
pub mod Given
pub mod Directions
pub mod Bounds
pub mod Defaults
pub mod Ranges
pub mod Dscp
pub mod Units

-- An argument: `int` is what the option's reader, `atoi` or `strtol`, makes of it, with whether `strtol` reads
-- a number at all; then `parse_qos`, the readers of src/units.c, `unit_atoi`, `unit_atof_rate` and `unit_atof`,
-- where `none` is an error, and what `atoi` makes of what follows a slash or a comma. `amount` is a double, as its
-- whole part and whether a fraction is left. `setting_ok` is whether an option that sets a string or a number outside
-- this model takes it.
pub record Argument : Type 0 where
  pub text : String
  pub int : ℤ
  pub is_number : Bool
  pub qos : ℤ
  pub units : Option ℕ
  pub rate : Option ℕ
  pub amount : Option (ℤ × Bool)
  pub behind_slash : Option ℤ
  pub behind_comma : Option ℤ
  pub setting_ok : Bool

-- The options. `common_setting`, `client_setting` and `server_setting` stand for those that set strings and
-- flags elsewhere, by the role that they are for. The options that end the program are left out.
pub data Flag : Type 0 where
  serve connect server_port client_port udp_flag sctp_flag quic_flag quic_port_flag mptcp_flag :
      Flag
  nstreams bitrate time bytes_flag blockcount len parallel reverse_flag bidir : Flag
  window set_mss nodelay set_tos dscp extra flow zerocopy_flag repeating omit_flag file : Flag
  set_idle_timeout server_max_duration set_rcv_timeout set_snd_timeout set_affinity : Flag
  set_title set_congestion server_output counters_64bit no_fq_socket_pacing fq_rate : Flag
  set_dont_fragment skip_copy pacing set_connect_timeout : Flag
  common_setting client_setting server_setting : Flag

-- What the build has.
pub record Features : Type 0 where
  pub build : Build
  pub have_sctp : Bool
  pub have_msquic : Bool
  pub have_ostreams : Bool
  pub have_flowlabel : Bool
  pub have_sendfile : Bool
  pub have_cpu_affinity : Bool
  pub have_tcp_congestion : Bool
  pub have_so_max_pacing_rate : Bool

-- The test so far, fields that only the options set, and the local variables of the loop.
pub record Parsing : Type 0 where
  pub test : Test
  pub port : ℤ
  pub bind_port : ℤ
  pub num_ostreams : ℤ
  pub idle_timeout : ℤ
  pub rcv_timeout : IperfTime
  pub snd_timeout : ℤ
  pub connect_timeout : ℤ
  pub affinity : ℤ
  pub blksize : ℤ
  pub server_flag : Bool
  pub client_flag : Bool
  pub rate_flag : Bool
  pub duration_flag : Bool
  pub rcv_timeout_flag : Bool

-- The errors. `setting_error` stands for those of the settings outside this model.
pub data OptionError : Type 0 where
  servclient norole serveronly clientonly duration_error numstreams blocksize bufsize mss_error :
      OptionError
  nosendfile omit_error unimp burst_error endconditions udpblocksize badtos reversebidir :
      OptionError
  badport idletimeout rcvtimeout revrsonlyrcvtimeout sndtimeout udpfiletransfer unitval :
      OptionError
  setflow affinity_error setting_error : OptionError
