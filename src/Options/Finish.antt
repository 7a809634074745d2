-- ===== src/Options/Finish.antt =====
-- src/iperf_api.c, `iperf_parse_arguments` after its loop: the checks of the options together, and the
-- defaults. The credentials and the certificate of QUIC are arguments, as is the size of a file.
use Prim.Native.String.{String}
use iperf.Base.{
  ℕ, Bool, true, false, ◌&&◌, ◌||◌, not, Option, none, some, List, inl, inr, if◌then◌else◌, ◌==◌,
}
use iperf.Base.Int.{ℤ, pos, ltb_ℤ, eqb_ℤ, ◌+ℤ◌}
use iperf.Test.{Mode, sender, Protocol, udp, sctp, quic, same_protocol}
use iperf.Options.{
  Argument, Flag, Features, Parsing, OptionError, serveronly, clientonly, norole, blocksize,
  udpblocksize, udpfiletransfer, endconditions, revrsonlyrcvtimeout,
}
use iperf.Options.Outcome.{Outcome, between, is_role_client, is_role_server, and_then_set}
use iperf.Options.Parse.{parse_options}

-- What the end of the function calls: the checks of credentials, `ensure_default_quic_p12` where no
-- certificate is given, and `stat`.
pub record Outside : Type 0 where
  pub have_ssl : Bool
  pub check_credentials : Parsing → Option OptionError
  pub default_p12 : Parsing → Option OptionError
  pub file_size : String → Option ℕ

abbrev is_sender : Mode → Bool
is_sender sender = true
is_sender _ = false

abbrev refuse_if : Bool → OptionError → Parsing → Outcome
refuse_if b e p = if b then inr e else inl p

abbrev failing : Option OptionError → Parsing → Outcome
failing none p = inl p
failing (some e) p = inr e

abbrev is_udp : Parsing → Bool
is_udp p = same_protocol p.test.protocol udp

-- "Check flag / role compatibility".
unfoldable pub check_roles : Parsing → Outcome
check_roles p =
    if is_role_client p.test.role && p.server_flag
    then inr serveronly
    else refuse_if (is_role_server p.test.role && p.client_flag) clientonly p

-- The port of QUIC is the next one, where that is a port.
unfoldable pub default_quic_port : Parsing → Parsing
default_quic_port p =
    if eqb_ℤ p.test.quic_port (pos 0)
    then record p {
      test = record p.test {
        quic_port = if between 1 65535 (p.port +ℤ pos 1) then p.port +ℤ pos 1 else p.port;
      };
    }
    else p

unfoldable pub quic_defaults : Outside → Parsing → Outcome
unfolding default_quic_port
quic_defaults out p =
    if same_protocol p.test.protocol quic
    then (let p' = default_quic_port p in
        if is_role_server p.test.role then failing (out.default_p12 p') p' else inl p')
    else inl p

unfoldable pub check_auth : Outside → Parsing → Outcome
check_auth out p =
    if out.have_ssl
    then and_then_set (failing (out.check_credentials p) p) (λ q.
      refuse_if (is_role_client q.test.role && q.rcv_timeout_flag && is_sender q.test.mode)
        revrsonlyrcvtimeout q)
    else inl p

abbrev pub is_some : {A : Type 0} → Option A → Bool
is_some none = false
is_some (some a) = true

unfoldable pub check_file : Parsing → Outcome
check_file p = refuse_if (is_some p.test.diskfile_name && is_udp p) udpfiletransfer p

-- DEFAULT_SCTP_BLKSIZE and DEFAULT_TCP_BLKSIZE; of UDP the size is found later.
abbrev pub default_blksize : Protocol → ℤ
default_blksize udp = pos 0
default_blksize sctp = pos 65536
default_blksize _ = pos 131072

unfoldable pub chosen_blksize : Parsing → ℤ
chosen_blksize p = if eqb_ℤ p.blksize (pos 0) then default_blksize p.test.protocol else p.blksize

abbrev is_over_zero : ℤ → Bool
is_over_zero z = ltb_ℤ (pos 0) z

unfoldable pub check_blksize : Parsing → Outcome
unfolding chosen_blksize
check_blksize p =
    let size = chosen_blksize p in
    if (not (is_udp p) && not (is_over_zero size)) || ltb_ℤ (pos 1048576) size
    then inr blocksize
    else if is_udp p && is_over_zero size && not (between 16 65507 size)
    then inr udpblocksize
    else inl
        (record p { test = record p.test { settings = record p.test.settings { blksize = size } } })

-- UDP_RATE without -b.
unfoldable pub default_rate : Parsing → Parsing
default_rate p = if p.rate_flag then p else record p {
  test = record p.test {
    settings = record p.test.settings { rate = if is_udp p then 1048576 else 0 };
  };
}

abbrev size_of : Outside → Option String → Option ℕ
size_of out none = none
size_of out (some name) = out.file_size name

-- A client that sends a file and has no end condition takes the file's size.
unfoldable pub bytes_of_file : Outside → Parsing → Parsing
bytes_of_file out p =
    if p.test.settings.bytes == 0
      && p.test.settings.blocks == 0
      && not p.duration_flag
      && is_role_client p.test.role
    then elim (size_of out p.test.diskfile_name) [
      | none ↦ p
      | some n ↦ record p {
        test = record p.test { settings = record p.test.settings { bytes = n } };
      }
    ]
    else p

abbrev pub ends_by_amount : Parsing → Bool
ends_by_amount p = not (p.test.settings.bytes == 0) || not (p.test.settings.blocks == 0)

unfoldable pub no_duration : Parsing → Parsing
no_duration p =
    if ends_by_amount p && not p.duration_flag
    then record p { test = record p.test { duration = pos 0 } }
    else p

unfoldable pub check_end_conditions : Parsing → Outcome
check_end_conditions p =
    refuse_if
      ((p.duration_flag && not (p.test.settings.bytes == 0))
        || (p.duration_flag && not (p.test.settings.blocks == 0))
        || (not (p.test.settings.bytes == 0) && not (p.test.settings.blocks == 0)))
      endconditions p

unfoldable pub check_role_given : Parsing → Outcome
check_role_given p =
    refuse_if (not (is_role_client p.test.role) && not (is_role_server p.test.role)) norole p

-- From the defaults of the rate to the end.
unfoldable pub finish_amounts : Outside → Parsing → Outcome
unfolding default_rate bytes_of_file no_duration check_end_conditions check_role_given
finish_amounts out p =
    and_then_set (check_end_conditions (no_duration (bytes_of_file out (default_rate p))))
      check_role_given

unfoldable pub finish : Outside → Parsing → Outcome
unfolding check_roles quic_defaults check_auth check_file check_blksize finish_amounts
finish out p = and_then_set (check_roles p) λ p1. and_then_set (quic_defaults out p1) λ p2.
    and_then_set (check_auth out p2)
      λ p3. and_then_set (check_file p3) λ p4. and_then_set (check_blksize p4) (finish_amounts out)

unfoldable pub parse_arguments : Features → Outside → List (Flag × Argument) → Parsing → Outcome
unfolding parse_options finish
parse_arguments f out args p = and_then_set (parse_options f args p) (finish out)
