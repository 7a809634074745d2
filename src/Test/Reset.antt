-- ===== src/Test/Reset.antt =====
-- src/iperf_api.c: `iperf_reset_test`, by which a server gets ready for the next test, on the fields of
-- the exchange.
use iperf.Base.{◌≡◌, true, false, none, some, arith}
use iperf.Base.Int.{pos, negsuc}
use iperf.Json.{Object, or_keep}
use iperf.Test.{server, receiver, tcp, Test, Build}
use iperf.Test.Roles.{set_protocol, supports}
use iperf.Test.Params.{get_parameters}
use iperf.Test.Params.Sticky.{get_parameters-repeating_payload}
use iperf.Test.Params.Fields.{IsFresh}

-- The fields before `set_protocol(test, Ptcp)`, and all that come after it.
pub reset_test : Build → Test → Test
unfolding set_protocol
reset_test b t =
    let t1 : Test = record t {
      congestion = none;
      role = server;
      mode = receiver;
      sender_has_retransmits = false;
    } in
    let t2 : Test = or_keep (set_protocol b tcp t1) t1 in
    record t2 {
      omit = pos 0;
      duration = pos 10;
      server_affinity = negsuc 0;
      reverse = false;
      bidirectional = false;
      no_delay = false;
      num_streams = pos 1;
      zerocopy = pos 0;
      udp_counters_64bit = false;
      title = none;
      extra_data = none;
      settings = record (t2.settings) {
        socket_bufsize = pos 0;
        blksize = pos 131072;
        rate = 0;
        fqrate = 0;
        burst = pos 0;
        mss = pos 0;
        tos = pos 0;
        dont_fragment = pos 0;
        skip_rx_copy = pos 0;
        authtoken = none;
      };
    }

-- After a reset the server is ready to take a client's parameters over, receives, and speaks TCP where
-- it has TCP, whatever the last test was.
pub reset_test-IsFresh :
    (b : Build) (t : Test)
    → supports tcp t.protocols ≡ true
    → IsFresh (reset_test b t)
      × ((reset_test b t).protocol ≡ tcp)
      × ((reset_test b t).protocols ≡ t.protocols)
unfolding reset_test
reset_test-IsFresh b t h = ground arith

-- The payload pattern of a client that asked for it stays with the server: the reset does not clear it,
-- and the parameters of no later client do.
pub repeating_payload_sticks :
    (b : Build) (j : Object) (t : Test)
    → t.repeating_payload ≡ true
    → (get_parameters b (some j) (reset_test b t)).0.repeating_payload ≡ true
unfolding reset_test
repeating_payload_sticks b j t h =
    get_parameters-repeating_payload b j (reset_test b t) (ground arith)
