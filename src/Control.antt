-- ===== src/Control.antt =====
-- The control connection: the state of a test (src/iperf.h, src/iperf_api.c) and the handlers of its
-- messages in src/iperf_client_api.c and src/iperf_server_api.c. What the handlers call in other parts
-- of the program, and what the kernel answers, is the interface `Calls` over the rest `W` of the
-- program's state.
use iperf.Base.{
  ℕ, ◌+◌, ◌<◌, ◌≡◌, Bool, true, false, Option, none, some, List, [], ◌∷◌, if◌then◌else◌, ltb, ◌==◌,
  ◌&&◌, ◌||◌, leb, not,
}
use iperf.State.{State, display_results}
use iperf.Test.{
  Mode, sender, receiver, bidirectional_mode, Protocol, tcp, udp, sctp, quic, same_protocol,
}
pub mod Trace
pub mod Wire
pub mod Client
pub mod Server
pub mod Exchange
pub mod Session

-- The fields of `struct iperf_test` that the handlers themselves read or write. `ctrl_sck` is none for
-- -1; `bytes` and `blocks` are those of the settings.
pub record Control : Type 0 where
  pub state : State
  pub done : Bool
  pub omitting : Bool
  pub ctrl_sck : Option ℕ
  pub i_errno : ℕ
  pub mode : Mode
  pub protocol : Protocol
  pub one_off : Bool
  pub summary_printed : Bool
  pub bytes : ℕ
  pub blocks : ℕ
  pub bytes_sent : ℕ
  pub blocks_sent : ℕ
  pub bytes_received : ℕ
  pub blocks_received : ℕ

-- What the control socket gives: a byte, the end of the stream, or an error.
pub data Incoming : Type 0 where
  message : ℕ → Incoming
  closed read_error : Incoming

-- An operation that may fail, and one that may not.
abbrev pub Op : Type 0 → Type 0
Op W = Control × W → Bool × (Control × W)

abbrev pub Act : Type 0 → Type 0
Act W = Control × W → Control × W

-- The calls that both ends make. `write_state` writes a byte to the control socket; `read_int` reads four.
pub record Calls (W : Type 0) : Type 0 where
  pub write_state : State → W → Bool × W
  pub read_int : W → Option ℕ × W
  pub cpu_util : W → W
  pub close_streams : W → W
  pub quic_reset : W → W
  pub close_control : W → W
  pub exchange_parameters : Op W
  pub exchange_results : Op W
  pub init_test : Op W
  pub create_timers : Op W
  pub create_omit_timer : Op W
  pub create_send_timers : Op W
  pub create_streams : Bool → Op W
  pub cancel_senders : Op W
  pub on_connect : Act W
  pub on_test_finish : Act W
  pub stats_callback : Act W
  pub reporter_callback : Act W
  pub print_results : Act W

-- The numbers of the errors that the handlers report.
abbrev pub iectrlwrite : ℕ
iectrlwrite = 107

abbrev pub ieauthtest : ℕ
ieauthtest = 142

abbrev pub iectrlread : ℕ
iectrlread = 108

abbrev pub iectrlclose : ℕ
iectrlclose = 109

abbrev pub iemessage : ℕ
iemessage = 110

abbrev pub iesendmessage : ℕ
iesendmessage = 111

abbrev pub ierecvmessage : ℕ
ierecvmessage = 112

abbrev pub ieclientterm : ℕ
ieclientterm = 119

abbrev pub ieserverterm : ℕ
ieserverterm = 120

abbrev pub ieaccessdenied : ℕ
ieaccessdenied = 121

abbrev pub ieaccept : ℕ
ieaccept = 104

abbrev pub ieaffinity : ℕ
ieaffinity = 132

abbrev pub iesetnodelay : ℕ
iesetnodelay = 122

abbrev pub iesetusertimeout : ℕ
iesetusertimeout = 148

abbrev pub ierecvcookie : ℕ
ierecvcookie = 106

abbrev pub ietotalrate : ℕ
ietotalrate = 27

abbrev pub is_quic : Control → Bool
is_quic c = same_protocol c.protocol quic

module _ {W : Type 0} where
  -- One operation after another, until one fails.
  infixl 5 ◌then_do◌
  abbrev pub ◌then_do◌ : Op W → Op W → Op W
  ◌then_do◌ f g s = let (ok, s') = f s in if ok then g s' else (false, s')

  abbrev pub act : Act W → Op W
  act f s = (true, f s)

  abbrev pub world : (W → W) → Op W
  world f (c, w) = (true, (c, f w))

  abbrev pub set_state : State → Op W
  set_state st (c, w) = (true, (record c { state = st }, w))

  abbrev pub fail_with : ℕ → Op W
  fail_with e (c, w) = (false, (record c { i_errno = e }, w))

  abbrev pub skip : Op W
  skip s = (true, s)

  module _ (calls : Calls W) where
    -- `iperf_set_send_state`: the state is set before the write, and stays set if that fails.
    unfoldable pub set_send_state : State → Op W
    set_send_state st (c, w) = elim c.ctrl_sck [
      | none ↦ (true, (c, w))
      | some _ ↦
          let (written, w') = calls.write_state st w in
          if written
          then (true, (record c { state = st }, w'))
          else (false, (record c { state = st; i_errno = iesendmessage }, w'))
    ]

    -- The statistics of an interrupted test are shown as if in DISPLAY_RESULTS.
    unfoldable pub show_terminated : State → Op W
    show_terminated old =
        world calls.cpu_util
        then_do set_state display_results
        then_do act calls.reporter_callback
        then_do set_state old
