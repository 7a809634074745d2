-- ===== src/Control/Wire.antt =====
-- The calls of src/iperf_client_api.c and src/iperf_server_api.c over a working control connection: what is
-- written is appended to a list, a number as one entry, and nothing fails.
use iperf.Base.{ℕ, Bool, true, Option, none, some, List, [], ◌∷◌, ◌++◌}
use iperf.State.{to_byte}
use iperf.Control.{Op, Calls}

abbrev pub next_int : List ℕ → Option ℕ × List ℕ
next_int [] = (none, [])
next_int (n ∷ ns) = (some n, ns)

abbrev pub write_number : ℕ → List ℕ → Bool × List ℕ
write_number n w = (true, w ++ (n ∷ []))

abbrev pub working : Op (List ℕ)
working s = (true, s)

-- `exchange` is the end's part of the exchange of parameters.
abbrev pub wire : Op (List ℕ) → Calls (List ℕ)
wire exchange = record {
  write_state = λ s. write_number (to_byte s);
  read_int = next_int;
  cpu_util = λ w. w;
  close_streams = λ w. w;
  quic_reset = λ w. w;
  close_control = λ w. w;
  exchange_parameters = exchange;
  exchange_results = working;
  init_test = working;
  create_timers = working;
  create_omit_timer = working;
  create_send_timers = working;
  create_streams = λ sending. working;
  cancel_senders = working;
  on_connect = λ s. s;
  on_test_finish = λ s. s;
  stats_callback = λ s. s;
  reporter_callback = λ s. s;
  print_results = λ s. s;
}
