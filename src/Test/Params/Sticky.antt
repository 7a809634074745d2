-- ===== src/Test/Params/Sticky.antt =====
-- src/iperf_api.c: a flag that `get_parameters` only ever sets.
use iperf.Base.{◌≡◌, refl, Bool, true, false, some, ◌∙◌, arith}
use iperf.Json.{Object}
use iperf.Test.{Protocol, Test, Build, tcp, udp, sctp, quic}
use iperf.Test.Roles.{set_protocol, set_test_reverse, set_test_bidirectional}
use iperf.Test.Params.{
  try_protocol, get_fields, get_direction, get_protocol_members, note_retransmits, get_parameters,
}

try_protocol-repeating_payload :
    (b : Build) (x : Bool) (p : Protocol) (s : Test)
    → (try_protocol b x p s).repeating_payload ≡ s.repeating_payload
unfolding set_protocol
try_protocol-repeating_payload b false p s = refl
try_protocol-repeating_payload b true p s = ground arith

get_protocol_members-repeating_payload :
    (b : Build) (j : Object) (s : Test)
    → (get_protocol_members b j s).repeating_payload ≡ s.repeating_payload
unfolding get_protocol_members
get_protocol_members-repeating_payload b j s =
    try_protocol-repeating_payload b _ quic _
    ∙ try_protocol-repeating_payload b _ sctp _
    ∙ try_protocol-repeating_payload b _ udp _
    ∙ try_protocol-repeating_payload b _ tcp s

get_direction-repeating_payload :
    (b : Build) (j : Object) (s : Test)
    → (get_direction b j s).repeating_payload ≡ s.repeating_payload
unfolding get_direction set_test_reverse set_test_bidirectional
get_direction-repeating_payload b j s = ground arith

note_retransmits-repeating_payload :
    (b : Build) (s : Test) → (note_retransmits b s).repeating_payload ≡ s.repeating_payload
unfolding note_retransmits
note_retransmits-repeating_payload b s = ground arith

-- The payload pattern, once set, is not given up by reading parameters.
pub get_parameters-repeating_payload :
    (b : Build) (j : Object) (s : Test)
    → s.repeating_payload ≡ true
    → (get_parameters b (some j) s).0.repeating_payload ≡ true
unfolding get_parameters get_fields
get_parameters-repeating_payload b j s h =
    note_retransmits-repeating_payload b _
    ∙ (get_direction-repeating_payload b j _
        ∙ ground (arith, get_protocol_members-repeating_payload b j s))
