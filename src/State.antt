-- ===== src/State.antt =====
-- src/iperf_api.h, the states of a test, and the byte that stands for each on the control connection.
use iperf.Base.{ℕ, ◌≡◌, Bool, ◌&&◌, if◌then◌else◌, ltb, ◌==◌, arith}

-- `unset` is the 0 of a fresh test, `other` any value that has no name.
pub data State : Type 0 where
  unset test_start test_running result_request test_end stream_begin stream_running : State
  stream_end all_streams_end param_exchange create_streams server_terminate : State
  client_terminate exchange_results display_results iperf_start iperf_done : State
  access_denied server_error : State
  other : ℕ → State

-- The signed char as an unsigned byte: -1 is 255, and -2 is 254.
unfoldable pub to_byte : State → ℕ
to_byte unset = 0
to_byte test_start = 1
to_byte test_running = 2
to_byte result_request = 3
to_byte test_end = 4
to_byte stream_begin = 5
to_byte stream_running = 6
to_byte stream_end = 7
to_byte all_streams_end = 8
to_byte param_exchange = 9
to_byte create_streams = 10
to_byte server_terminate = 11
to_byte client_terminate = 12
to_byte exchange_results = 13
to_byte display_results = 14
to_byte iperf_start = 15
to_byte iperf_done = 16
to_byte access_denied = 255
to_byte server_error = 254
to_byte (other n) = n

-- The state that a byte names.
unfoldable pub of_byte : ℕ → State
of_byte b =
    if b == 0
    then unset
    else if b == 1
    then test_start
    else if b == 2
    then test_running
    else if b == 3
    then result_request
    else if b == 4
    then test_end
    else if b == 5
    then stream_begin
    else if b == 6
    then stream_running
    else if b == 7
    then stream_end
    else if b == 8
    then all_streams_end
    else if b == 9
    then param_exchange
    else if b == 10
    then create_streams
    else if b == 11
    then server_terminate
    else if b == 12
    then client_terminate
    else if b == 13
    then exchange_results
    else if b == 14
    then display_results
    else if b == 15
    then iperf_start
    else if b == 16
    then iperf_done
    else if b == 255
    then access_denied
    else if b == 254
    then server_error
    else other b

-- Reading a byte and writing it again changes nothing.
pub to_byte-of_byte : (b : ℕ) → to_byte (of_byte b) ≡ b
unfolding to_byte of_byte
to_byte-of_byte b = ground arith

-- `test->state > 0`.
unfoldable pub is_positive_state : State → Bool
unfolding to_byte
is_positive_state s = ltb 0 (to_byte s) && ltb (to_byte s) 128
