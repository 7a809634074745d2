-- ===== src/Control/Trace.antt =====
-- The calls of src/iperf_client_api.c and src/iperf_server_api.c as a script of failures that records
-- what is called, to state the order of the calls of a handler.
use iperf.Base.{Bool, true, none, List, [], ◌∷◌, if◌then◌else◌, not, ◌&&◌, ◌++◌}
use iperf.State.{State}
use iperf.Control.{Op, Act, Calls}

-- What cannot fail.
pub data Task : Type 0 where
  cpu_util close_streams quic_reset close_control on_connect on_test_finish : Task
  stats_callback reporter_callback print_results : Task

-- What can.
pub data Attempt : Type 0 where
  send : State → Attempt
  exchange_parameters exchange_results init_test create_timers create_omit_timer : Attempt
  create_send_timers create_sending_streams create_receiving_streams cancel_senders : Attempt

pub data Event : Type 0 where
  ran : Task → Event
  tried : Attempt → Event

module _ (fails : Attempt → Bool) where
  abbrev attempt : Attempt → Op (List Event)
  attempt a (c, es) = (not (fails a), (c, es ++ (tried a ∷ [])))

  abbrev task : Task → List Event → List Event
  task t es = es ++ (ran t ∷ [])

  abbrev on_test : Task → Act (List Event)
  on_test t (c, es) = (c, es ++ (ran t ∷ []))

  -- The calls, each of which only records itself.
  abbrev pub tracing : Calls (List Event)
  tracing = record {
    write_state = λ s es. (not (fails (send s)), es ++ (tried (send s) ∷ []));
    read_int = λ es. (none, es);
    cpu_util = task cpu_util;
    close_streams = task close_streams;
    quic_reset = task quic_reset;
    close_control = task close_control;
    exchange_parameters = attempt exchange_parameters;
    exchange_results = attempt exchange_results;
    init_test = attempt init_test;
    create_timers = attempt create_timers;
    create_omit_timer = attempt create_omit_timer;
    create_send_timers = attempt create_send_timers;
    create_streams = λ sending.
        if sending then attempt create_sending_streams else attempt create_receiving_streams;
    cancel_senders = attempt cancel_senders;
    on_connect = on_test on_connect;
    on_test_finish = on_test on_test_finish;
    stats_callback = on_test stats_callback;
    reporter_callback = on_test reporter_callback;
    print_results = on_test print_results;
  }

  -- A sequence as it runs up to its first failure, and whether there is none.
  unfoldable pub until : List Event → List Event
  until [] = []
  until (ran t ∷ es) = ran t ∷ until es
  until (tried a ∷ es) = tried a ∷ (if fails a then [] else until es)

  unfoldable pub passes : List Event → Bool
  passes [] = true
  passes (ran _ ∷ es) = passes es
  passes (tried a ∷ es) = not (fails a) && passes es
