-- ===== src/Control/Server/Accepting.antt =====
-- src/iperf_server_api.c: what a connection attempt does to a running test, and which tests start.
use iperf.Base.{
  ℕ, suc, zero, ◌*◌, ◌<◌, ◌≤◌, ◌≡◌, ◌≢◌, ◌⊎◌, refl, true, false, none, some, if◌then◌else◌, arith,
}
use iperf.Test.{Mode, sender, receiver, bidirectional_mode}
use iperf.Control.{Control, Op, Act, Calls}
use iperf.Control.Server.{
  Sockets, Limits, iperf_accept, begin_test, exceeds_total_rate, total_requested_rate,
}

module _ {W : Type 0} (calls : Calls W) (sockets : Sockets W) (limits : Limits) where
  -- Connection attempts one after another, up to the first failure.
  pub attempts : ℕ → Op W
  unfolding iperf_accept
  attempts zero cw = (true, cw)
  attempts (suc n) cw =
      let (ok, cw') = iperf_accept calls sockets limits cw in
      let rest = attempts n cw' in if ok then rest else (false, cw')

  -- One client that comes while a test has its control connection.
  accept-keeps :
      (c : Control) (w : W) (s : ℕ)
      → c.ctrl_sck ≡ some s
      → (sockets.accept w).0 ≢ none
      → iperf_accept calls sockets limits (c, w)
        ≡ (true, (c, (iperf_accept calls sockets limits (c, w)).1.1))
  unfolding iperf_accept
  accept-keeps c w s k ok = ground arith

  -- While a test has its control connection, and `accept` does not fail, any number of further clients is
  -- turned away without a failure and without a change to the test.
  pub iperf_accept_busy :
      (n : ℕ) (c : Control) (w : W) (s : ℕ)
      → c.ctrl_sck ≡ some s
      → ((v : W) → (sockets.accept v).0 ≢ none)
      → ((attempts n (c, w)).0 ≡ true) × ((attempts n (c, w)).1.0 ≡ c)
  unfolding attempts
  iperf_accept_busy zero c w s k ok = (refl, refl)
  iperf_accept_busy (suc n) c w s k ok =
      rw (accept-keeps c w s k (ok w))
        (iperf_accept_busy n c ((iperf_accept calls sockets limits (c, w)).1.1) s k ok)

  -- The directions in which a mode sends.
  abbrev pub directions : Mode → ℕ
  directions bidirectional_mode = 2
  directions _ = 1

  within :
      (m : Mode)
      → limits.num_streams * limits.rate * directions m < 18446744073709551616
      → exceeds_total_rate calls sockets limits m ≡ false
      → (limits.bitrate_limit ≡ 0)
        ⊎ (limits.num_streams * limits.rate * directions m ≤ limits.bitrate_limit)
  unfolding exceeds_total_rate total_requested_rate
  within sender small e = ground arith
  within receiver small e = ground arith
  within bidirectional_mode small e = ground arith

  started-within :
      (cleanup : Act W) (c : Control) (w : W)
      → (begin_test calls sockets limits cleanup (c, w)).0 ≡ true
      → exceeds_total_rate calls sockets limits c.mode ≡ false
  unfolding begin_test
  started-within cleanup c w started = ground arith

  -- A test starts only if the rate that the client asks for, over all its streams and directions, is within
  -- the server's limit, where there is one, as long as that product is below 2^64.
  pub begin_test_within_limit :
      (cleanup : Act W) (c : Control) (w : W)
      → limits.num_streams * limits.rate * directions c.mode < 18446744073709551616
      → (begin_test calls sockets limits cleanup (c, w)).0 ≡ true
      → (limits.bitrate_limit ≡ 0)
        ⊎ (limits.num_streams * limits.rate * directions c.mode ≤ limits.bitrate_limit)
  begin_test_within_limit cleanup c w small started =
      within c.mode small (started-within cleanup c w started)
