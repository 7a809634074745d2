-- ===== src/Sending.antt =====
-- src/iperf_api.c: `iperf_send_mt` and `iperf_recv_mt`, the work of a stream's thread, and
-- `iperf_check_throttle`, which holds a sender to its rate, where clock_nanosleep is there. What a protocol
-- sends and receives, the clock, the arithmetic of doubles and the sleep are the interface `StreamIo`.
use iperf.Base.{
  ℕ, zero, suc, ◌+◌, ◌*◌, ◌/◌, ◌<◌, ◌≤◌, Bool, true, false, not, ◌&&◌, ◌||◌, if◌then◌else◌, ltb,
  leb, ◌==◌, u64, sub64,
}
use iperf.Base.Int.{ℤ, pos, negsuc, to_u64}
use iperf.Time.{IperfTime}
use iperf.Net.{Io, bytes, soft_error, hard_error}
pub mod Bounds
pub mod Throttle
pub mod Tcp
pub mod Blocks

-- The fields of the stream, the test and its settings that the two functions use.
pub record Sender : Type 0 where
  pub green_light : Bool
  pub done : Bool
  pub rate : ℕ
  pub burst : ℕ
  pub multisend : ℕ
  pub bytes_limit : ℕ
  pub blocks_limit : ℕ
  pub bytes_sent : ℕ
  pub blocks_sent : ℕ
  pub bytes_received : ℕ
  pub blocks_received : ℕ
  pub stream_bytes_sent : ℕ
  pub pending_size : ℕ
  pub i_errno : ℕ

-- `elapsed` is the time since the start of the stream up to now. `bits_per_second` and `surplus` are the
-- arithmetic in doubles: the average rate of a number of bits, and the bits sent beyond a rate. `sleep` tells
-- whether the sleep of that many nanoseconds came to its end.
pub record StreamIo (W : Type 0) : Type 0 where
  pub snd : Sender × W → Io × (Sender × W)
  pub rcv : Sender × W → Io × (Sender × W)
  pub elapsed : W → IperfTime × W
  pub bits_per_second : ℕ → IperfTime → ℕ
  pub surplus : ℕ → IperfTime → ℕ → ℤ
  pub sleep : ℕ → W → Bool × W

abbrev pub iestreamwrite : ℕ
iestreamwrite = 205

abbrev pub iestreamread : ℕ
iestreamread = 206

-- The sign of an int64_t.
pub data Sign : Type 0 where
  negative null positive : Sign

abbrev pub sign_of : ℕ → Sign
sign_of w = if w == 0 then null else if ltb w 9223372036854775808 then positive else negative

-- What the loop comes to: it goes on to the end of the function, or returns an error.
pub data Sent (W : Type 0) : Type 0 where
  sending_over : Bool → Sender × W → Sent W
  failed : Sender × W → Sent W

module _ {W : Type 0} (io : StreamIo W) where
  abbrev pub set_light : Bool → Sender × W → Sender × W
  set_light b (s, w) = (record s { green_light = b }, w)

  -- `SEC_TO_NS * delta_bits / rate`, a division of uint64_t whose result is an int64_t.
  pub time_to_green_light : ℕ → IperfTime → ℕ → ℕ
  time_to_green_light bits_sent seconds rate =
      u64 (1000000000 * to_u64 (io.surplus bits_sent seconds rate)) / rate

  pub wait_for_light : ℕ → Sender × W → Sender × W
  wait_for_light ns (s, w) =
      if ltb ns 9223372036854775808
      then (let (slept, w') = io.sleep ns w in
          (record s { green_light = slept || s.green_light }, w'))
      else (s, w)

  -- From the missing rate on.
  pub throttle : Sign → IperfTime → Sender × W → Sender × W
  unfolding time_to_green_light wait_for_light
  throttle positive seconds sw = set_light true sw
  throttle null seconds sw = set_light false sw
  throttle negative seconds (s, w) =
      wait_for_light (time_to_green_light (u64 (s.stream_bytes_sent * 8)) seconds s.rate)
        (record s { green_light = false }, w)

  pub check_throttle : Sender × W → Sender × W
  unfolding throttle
  check_throttle (s, w) =
      if s.done || (s.rate == 0)
      then (s, w)
      else let (seconds, w') = io.elapsed w in
        throttle
          (sign_of
            (sub64 s.rate (u64 (io.bits_per_second (u64 (s.stream_bytes_sent * 8)) seconds))))
          seconds (s, w')

  -- How many messages a call may send.
  pub burst_size : Sender → ℕ
  burst_size s = if not (s.burst == 0) then s.burst else if s.rate == 0 then s.multisend else 1

  abbrev pub throttle_check_per_message : Sender → Bool
  throttle_check_per_message s = not (s.rate == 0) && (s.burst == 0)

  -- A message more only if no limit is reached, but the last of a burst in any case.
  pub stops : ℕ → Sender → Bool
  stops n s =
      (ltb 1 n && not (s.bytes_limit == 0) && leb s.bytes_limit s.bytes_sent)
      || (ltb 1 n && not (s.blocks_limit == 0) && leb s.blocks_limit s.blocks_sent)

  -- The counters after a message of `r` bytes.
  pub count_message : ℕ → Sender → Sender
  count_message r s = record s {
    bytes_sent = u64 (s.bytes_sent + r);
    blocks_sent = if s.pending_size == 0 then u64 (s.blocks_sent + 1) else s.blocks_sent;
  }

  abbrev pub after_message : Bool → Sender × W → Sender × W
  after_message per_message sw = if per_message then check_throttle sw else sw

  -- The loop, with the number of messages left and whether one has been sent. Where the throttle is
  -- checked for each message there is one message, so that the clock is read once.
  pub send_loop : Bool → ℕ → Bool → Sender × W → Sent W
  unfolding stops count_message check_throttle
  send_loop per_message zero message_sent sw = sending_over message_sent sw
  send_loop per_message (suc n) message_sent (s, w) =
      let (r, (s', w')) = io.snd (s, w) in
      let rest = λ (k : ℕ).
        send_loop per_message n true (after_message per_message (count_message k s', w')) in
      if not s.green_light || stops (suc n) s then sending_over message_sent (s, w) else elim r [
        | soft_error ↦ sending_over message_sent (s', w')
        | hard_error ↦ failed (record s' { i_errno = iestreamwrite }, w')
        | bytes k ↦ rest k
      ]

  -- The last check, where there was none for a message.
  pub finish_sending : Bool → Bool → Sent W → Bool × (Sender × W)
  unfolding check_throttle
  finish_sending throttle_check per_message (failed sw) = (false, sw)
  finish_sending throttle_check per_message (sending_over message_sent sw) =
      if throttle_check && (not per_message || not message_sent)
      then (true, check_throttle sw)
      else (true, sw)

  pub send_mt : Sender × W → Bool × (Sender × W)
  unfolding send_loop burst_size finish_sending
  send_mt (s, w) =
      finish_sending (not (s.rate == 0)) (throttle_check_per_message s)
        (send_loop (throttle_check_per_message s) (burst_size s) false (s, w))

  pub recv_mt : Sender × W → Bool × (Sender × W)
  recv_mt sw =
      let (r, (s, w)) = io.rcv sw in
      elim r [
        | soft_error ↦ (false, (record s { i_errno = iestreamread }, w))
        | hard_error ↦ (false, (record s { i_errno = iestreamread }, w))
        | bytes zero ↦ (true, (s, w))
        | bytes (suc k) ↦ (
          true,
          (
            record s {
              bytes_received = u64 (s.bytes_received + suc k);
              blocks_received = u64 (s.blocks_received + 1);
            },
            w,
          ),
        )
      ]
