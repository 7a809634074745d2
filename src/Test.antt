-- ===== src/Test.antt =====
-- src/iperf.h: `struct iperf_test` and `struct iperf_settings`, the fields that the options, the
-- exchange of parameters and the roles work on. An int is an integer, a uint64_t a number; an int that
-- the source uses as a flag and only ever sets to 0 or 1 is a Bool, and a string may be NULL.
use Prim.Native.String.{String}
use iperf.Base.{ℕ, Bool, true, false, Option, none, some, List, [], ◌∷◌, if◌then◌else◌, ◌&&◌, not}
use iperf.Base.Int.{ℤ, pos, negsuc}
pub mod Roles
pub mod Params
pub mod Reset

pub data Role : Type 0 where
  no_role client server : Role

pub data Mode : Type 0 where
  sender receiver bidirectional_mode : Mode

-- The ids of the protocols: Ptcp, Pudp, Psctp, Pquic.
pub data Protocol : Type 0 where
  tcp udp sctp quic : Protocol

abbrev pub same_protocol : Protocol → Protocol → Bool
same_protocol tcp tcp = true
same_protocol udp udp = true
same_protocol sctp sctp = true
same_protocol quic quic = true
same_protocol _ _ = false

pub record TestSettings : Type 0 where
  pub socket_bufsize : ℤ
  pub blksize : ℤ
  pub rate : ℕ
  pub fqrate : ℕ
  pub pacing_timer : ℤ
  pub burst : ℤ
  pub mss : ℤ
  pub tos : ℤ
  pub flowlabel : ℤ
  pub bytes : ℕ
  pub blocks : ℕ
  pub dont_fragment : ℤ
  pub authtoken : Option String
  pub skip_rx_copy : ℤ

pub record Test : Type 0 where
  pub role : Role
  pub mode : Mode
  pub sender_has_retransmits : Bool
  pub protocol : Protocol
  pub protocols : List Protocol
  pub settings : TestSettings
  pub quic_port : ℤ
  pub omit : ℤ
  pub duration : ℤ
  pub max_server_duration : ℤ
  pub diskfile_name : Option String
  pub server_affinity : ℤ
  pub title : Option String
  pub extra_data : Option String
  pub congestion : Option String
  pub congestion_used : Option String
  pub no_delay : Bool
  pub reverse : Bool
  pub bidirectional : Bool
  pub zerocopy : ℤ
  pub get_server_output : Bool
  pub udp_counters_64bit : Bool
  pub repeating_payload : Bool
  pub mptcp : Bool
  pub num_streams : ℤ

-- What the build and the platform decide: `has_tcpinfo_retransmits()`, and HAVE_IPPROTO_MPTCP and
-- HAVE_DONT_FRAGMENT, which cut members out of the exchange.
pub record Build : Type 0 where
  pub has_tcpinfo_retransmits : Bool
  pub have_mptcp : Bool
  pub have_dont_fragment : Bool
