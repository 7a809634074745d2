-- ===== src/Lib.antt =====
-- A verification of iperf3: its timers, its socket loops, its UDP streams, the exchanges of
-- parameters and of results, the control connection between a client and a server, and its command line.
--
-- The program. A test is run by two processes. The client opens a control connection (src/net.c) and the
-- two ends go through the states of a test by sending single bytes over it (src/iperf_client_api.c,
-- src/iperf_server_api.c); the client sends its parameters as a JSON object that the server reads into its
-- own test, and at the end both exchange their results in the same way (src/iperf_api.c). Periodic work
-- hangs on timers (src/timer.c) over struct iperf_time (src/iperf_time.c), and a UDP stream numbers its
-- datagrams and counts what is lost (src/iperf_udp.c).
--
-- Which file models what.
--   Base.antt, Base/: Boolean tests, lists measured by native numbers, machine words, C integers.
--   Time.antt: src/iperf_time.c. iperf_time_add_usecs is add_usecs, iperf_time_in_usecs in_usecs,
--     iperf_time_compare compare_time, iperf_time_diff time_diff. Time/Order.antt and Time/Arithmetic.antt
--     relate them to the arithmetic of microseconds.
--   Timer.antt: src/timer.c, one function for each of tmr_create, tmr_timeout, tmr_run, tmr_reset,
--     tmr_cancel, tmr_cleanup, tmr_destroy and the list functions, over the record of the two global lists.
--     Timer/Sorted.antt is the order of the list, Timer/Content.antt what is on it, Timer/Run.antt a run,
--     Timer/Timeout.antt the wait and Timer/Cancel.antt the undoing of a creation. Timer/Schedule.antt is
--     what the module promises, a schedule of timers in no order, and Timer/Refinement.antt each function
--     against it.
--   Net.antt: Nwrite, Nrecv, Nread, Nrecv_no_select and Nread_no_select of src/net.c. What the kernel
--     answers is a list of events; Net/Writing.antt, Net/Reading.antt and Net/Waiting.antt are about them.
--   Udp.antt: iperf_udp_recv is udp_recv and iperf_udp_send udp_send, over the record Stream of the fields
--     they use. Udp/Wire.antt is the packet header, Udp/Loss.antt the loss count, Udp/Send.antt both ends.
--   State.antt: the states of src/iperf_api.h. Json.antt: iperf_cJSON_GetObjectItemType of
--     src/iperf_util.c over JSON objects.
--   Test.antt: struct iperf_test and struct iperf_settings of src/iperf.h. Test/Roles.antt:
--     iperf_set_test_role, iperf_set_test_reverse, iperf_set_test_bidirectional and set_protocol.
--     Test/Params.antt: send_parameters and get_parameters, with Test/Params/Fields.antt,
--     Test/Params/Roundtrip.antt, Test/Params/Limits.antt and Test/Params/Sticky.antt about them.
--     Test/Reset.antt: iperf_reset_test.
--   Json/Framing.antt: JSON_write and JSON_read of src/iperf_api.c as json_write and json_read.
--   Results.antt: the fields of a stream and of a test that the exchange of results works on, and its
--     message. Results/Report.antt is send_results, Results/Receive.antt get_results, Results/Exchange.antt
--     iperf_exchange_results, all of src/iperf_api.c. Results/Lookup.antt, Results/Reading.antt and
--     Results/Storing.antt follow a stream's object from one end into the other's list of streams,
--     Results/Roundtrip.antt is about what arrives, Results/Refusing.antt about what is refused, and
--     Results/Agreement.antt about both ends together.
--   Sending.antt: iperf_send_mt, iperf_recv_mt and iperf_check_throttle of src/iperf_api.c as send_mt,
--     recv_mt and check_throttle. Sending/Bounds.antt is how far a burst goes beyond the limit in bytes,
--     Sending/Throttle.antt when a stream may send. Sending/Tcp.antt is iperf_tcp_send and iperf_tcp_recv of
--     src/iperf_tcp.c, Sending/Blocks.antt the blocks that are counted with them.
--   RateLimit.antt: iperf_check_total_rate of src/iperf_api.c as check_total_rate. RateLimit/Window.antt is
--     its cyclic array, RateLimit/Average.antt when the limit is exceeded.
--   Control.antt: the fields of a test that the handlers of messages use, and the interface Calls of what
--     they call elsewhere. Control/Client.antt: iperf_handle_message_client is handle_message_client,
--     iperf_client_end client_end, and the end of the loop of iperf_run_client end_if_finished.
--     Control/Server.antt: iperf_accept, iperf_handle_message_server as handle_message_server, and the
--     start of a test in iperf_run_server as begin_test. Control/Exchange.antt is
--     iperf_exchange_parameters, and Control/Exchange/Report.antt how its errors travel. Control/Session.antt
--     puts the two ends together over a working connection, Control/Wire.antt; Control/Session/Phases.antt
--     and Control/Session/Finishing.antt are about all orders of their actions. Control/Trace.antt is an
--     instance of the interface that records what is called and lets any call fail;
--     Control/Client/Handling.antt, Control/Server/Ending.antt and Control/Server/Accepting.antt are about
--     the handlers. Control/Server/Waiting.antt is the wait in the main loop of iperf_run_server and the
--     check of its progress. Control/Server/Streams.antt is its accept of streams: accept_stream for one
--     connection, drain for the loop over QUIC. Control/Server/Counting.antt, Control/Server/Assigning.antt
--     and Control/Server/Directions.antt are about the streams that come of it.
--     Control/Server/Cleanup.antt is cleanup_server, and Control/Server/Cleanup/Closing.antt what it closes.
--   Options.antt: the options of the command line, each with what its readers make of its argument.
--     Options/Outcome.antt is what an option comes to, Options/Parse.antt the loop of iperf_parse_arguments of
--     src/iperf_api.c, parse_option its switch, Options/Finish.antt what follows the loop, and parse_arguments
--     both; Options/Defaults.antt has iperf_defaults as defaults. Options/Bounds.antt is about the checks of the
--     options together, Options/Directions.antt about the role and the direction, Options/Given.antt about the
--     options that only one role takes, and Options/Ranges.antt about the numbers. Options/Units.antt is
--     src/units.c, and Options/Dscp.antt src/dscp.c.
--   Quic.antt: src/iperf_quic.c, its lists, its counters and what MsQuic tells it. Quic/Streams.antt is
--     stream_cb, iperf_quic_send and iperf_quic_recv as quic_send and quic_recv, and the end of a stream;
--     Quic/Context.antt is conn_cb, iperf_quic_accept, iperf_quic_attach_stream and iperf_quic_connect.
--     Quic/Receiving.antt and Quic/Waiting.antt are about what is received, Quic/Pipe.antt and Quic/Sends.antt
--     about the orders in which the callbacks and a thread take a stream's lock, Quic/Announcing.antt and
--     Quic/Naming.antt about the streams that a server accepts, Quic/Connecting.antt about the handshake and
--     Quic/Closing.antt about the close of a handle.
--   Stats.antt: the fields of a stream that the statistics work on. Stats/Callback.antt is
--     iperf_stats_callback of src/iperf_api.c as stats_callback, add_to_interval_list and the loop of
--     iperf_reset_stats as reset_stats; Stats/Tcp.antt has the parts of TCP and SCTP, with src/tcp_info.c.
--     Stats/Sums.antt and Stats/Intervals.antt are about the intervals of a stream, Stats/Omit.antt about the
--     omitted time.
--   Auth.antt: check_authentication of src/iperf_auth.c. Auth/Users.antt is about the file of users.
--   Sockets.antt: the sockets of a process and a kernel whose every answer may depend on the calls before.
--     Sockets/Net.antt is create_socket, timeout_connect, netdial and netannounce of src/net.c,
--     Sockets/Tcp.antt iperf_tcp_connect, iperf_tcp_listen and iperf_tcp_accept of src/iperf_tcp.c as
--     tcp_connect, tcp_listen and tcp_accept, Sockets/Datagrams.antt iperf_udp_buffercheck, iperf_udp_listen,
--     iperf_udp_connect and iperf_udp_accept of src/iperf_udp.c. Sockets/Triples.antt composes steps;
--     Sockets/Releasing.antt, Sockets/Dialling.antt, Sockets/Connections.antt, Sockets/Listening.antt and
--     Sockets/Leaving.antt are about what stays open, Sockets/Buffers.antt about the sizes of the buffers.
--   Tests.antt, Tests/: the theorems at concrete inputs.
--
-- Conventions. A machine word is a native number with its wrap-around written out; an int is an integer. A
-- pointer to a timer is a number, its id. A loop that waits for the kernel is a recursion on the list of the
-- kernel's answers, and gives none where the list ends first; the theorems about such a loop say how long a
-- list is enough: an answer for each byte. tmr_run has fuel, a round for each timer and one more being
-- enough for timers that fire once. A size that is sent as a parameter is rounded to a double by as_double of
-- Json.antt, and a member is its 64-bit valueint. Other arithmetic in doubles is an argument: the record
-- Double of Udp.antt, and functions in Sending.antt and RateLimit.antt; Results.antt has a record Double of its own, with the
-- conversions from and to the integers of cJSON. The build has HAVE_TCP_USER_TIMEOUT, HAVE_TCP_KEEPALIVE,
-- HAVE_MSG_TRUNC and HAVE_CLOCK_NANOSLEEP; HAVE_SSL and what the exchange depends on are arguments.
-- Stats/ has the struct tcp_info of linux.
-- In Quic/ a wait on a condition is a list of what is seen each time that it wakes, for the handshake all the
-- events that have come by then; the ids of streams do not reach 2^31, and the pipe is not full. In Stats/ a
-- round closes the interval of a stream with the bytes that its thread moves meanwhile as an argument, and its
-- counts of packets standing still.
--
-- What is outside. The JSON library, OpenSSL and the QUIC library are other projects'; threads and the clock
-- are the system's. Of the main loops the threads and, for the client, the wait, then the callbacks of the
-- timers and the reports are not modelled, nor, of the command line, the credentials and the printing of
-- numbers in units.c, nor are messages for debugging. The handlers take exchange_results, the creation of
-- streams and of timers, and the callbacks of a test as arguments.
pub mod Auth
pub mod Base
pub mod Json
pub mod State
pub mod Stats
pub mod Sockets
pub mod Test
pub mod Control
pub mod Time
pub mod Timer
pub mod Net
pub mod Udp
pub mod Sending
pub mod Options
pub mod Quic
pub mod RateLimit
pub mod Results
pub mod Tests
