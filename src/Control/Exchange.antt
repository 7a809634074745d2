-- ===== src/Control/Exchange.antt =====
-- src/iperf_api.c: `iperf_exchange_parameters`, and the report of a server's error to the client.
use iperf.Base.{
  ℕ, ◌≡◌, refl, Bool, true, false, Option, none, some, List, [], ◌∷◌, ◌++◌, if◌then◌else◌, arith,
}
use iperf.State.{State, create_streams, server_error, to_byte, of_byte}
use iperf.Test.{Role, no_role, client, server}
use iperf.Control.{Control, message, Op, Calls, iectrlwrite, ieauthtest, ◌then_do◌, set_send_state}
pub mod Report

-- What the exchange calls; `write_int` writes four bytes to the control socket, and `errno` is the
-- system's error number.
pub record Exchange (W : Type 0) : Type 0 where
  pub send_parameters : Op W
  pub get_parameters : Op W
  pub is_authorized : Op W
  pub listen : Op W
  pub write_int : ℕ → W → Bool × W
  pub errno : W → ℕ

module _ {W : Type 0} (calls : Calls W) (exchange : Exchange W) where
  write_number : (Control × W → ℕ) → Op W
  write_number number (c, w) =
      let (ok, w') = exchange.write_int (number (c, w)) w in
      if ok then (true, (c, w')) else (false, (record c { i_errno = iectrlwrite }, w'))

  abbrev set_errno : Option ℕ → Op W
  set_errno none cw = (true, cw)
  set_errno (some e) (c, w) = (true, (record c { i_errno = e }, w))

  abbrev fail_now : Op W
  fail_now cw = (false, cw)

  -- SERVER_ERROR, `i_errno` and `errno`; the result is -1 in any case.
  pub send_error : Option ℕ → Op W
  unfolding write_number set_send_state
  send_error e =
      set_send_state calls server_error
      then_do set_errno e
      then_do write_number (λ s. s.0.i_errno)
      then_do write_number (λ s. exchange.errno s.1)
      then_do fail_now

  -- `step` or the report of its failure.
  abbrev or_report : Op W → Option ℕ → Op W
  or_report step e cw = let (ok, cw') = step cw in if ok then (true, cw') else send_error e cw'

  -- `have_ssl` is HAVE_SSL.
  unfoldable pub exchange_parameters : Bool → Role → Op W
  unfolding send_error set_send_state
  exchange_parameters have_ssl client cw = exchange.send_parameters cw
  exchange_parameters have_ssl _ cw =
      (or_report exchange.get_parameters none
          then_do (λ s.
              if have_ssl then or_report exchange.is_authorized (some ieauthtest) s else (true, s))
          then_do or_report exchange.listen none
          then_do set_send_state calls create_streams)
        cw
