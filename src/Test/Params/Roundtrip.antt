-- ===== src/Test/Params/Roundtrip.antt =====
-- src/iperf_api.c: what a client sends is what the server takes over.
use Prim.Native.String.{String}
use iperf.Base.{
  ◌≡◌, refl, subst, ◌∙◌, inl, Bool, true, false, Option, none, some, if◌then◌else◌, arith,
}
use iperf.Json.{true_value, Object, has_bool, Slots, build, has_bool-build, finds_bool, or_else}
use iperf.Test.{
  client, server, receiver, Protocol, tcp, udp, sctp, quic, same_protocol, Test, Build,
}
use iperf.Test.Roles.{
  supports, set_protocol, set_test_reverse, set_test_bidirectional, opposite, IsConsistent,
}
use iperf.Test.Params.{
  Credentials, no_credentials, encoded, not_encoded, send_parameters, try_protocol, parameters,
  get_fields, get_direction, get_protocol_members, note_retransmits, get_parameters,
}
use iperf.Test.Params.Fields.{Fits, IsFresh, Agrees, get_fields-Agrees}

try_protocol-IsFresh :
    (b : Build) (x : Bool) (p : Protocol) (s : Test) → IsFresh s → IsFresh (try_protocol b x p s)
unfolding set_protocol
try_protocol-IsFresh b false p s i = i
try_protocol-IsFresh b true p s i = ground arith

get_protocol_members-IsFresh :
    (b : Build) (j : Object) (s : Test) → IsFresh s → IsFresh (get_protocol_members b j s)
unfolding get_protocol_members
get_protocol_members-IsFresh b j s i = try_protocol-IsFresh b _ quic _ (
    try_protocol-IsFresh b _ sctp _
      (try_protocol-IsFresh b _ udp _ (try_protocol-IsFresh b _ tcp s i)))

-- An object that names one protocol.
protocol_of_members :
    (b : Build) (p : Protocol) (j : Object) (s : Test)
    → has_bool "tcp" j ≡ same_protocol p tcp
    → has_bool "udp" j ≡ same_protocol p udp
    → has_bool "sctp" j ≡ same_protocol p sctp
    → has_bool "quic" j ≡ same_protocol p quic
    → s.diskfile_name ≡ none
    → supports p s.protocols ≡ true
    → (get_protocol_members b j s).protocol ≡ p
unfolding get_protocol_members set_protocol
protocol_of_members b tcp j s e1 e2 e3 e4 file known = ground arith
protocol_of_members b udp j s e1 e2 e3 e4 file known = ground arith
protocol_of_members b sctp j s e1 e2 e3 e4 file known = ground arith
protocol_of_members b quic j s e1 e2 e3 e4 file known = ground arith

finds_bool_if : (x : Bool) → finds_bool (or_else (if x then some true_value else none) none) ≡ x
finds_bool_if true = refl
finds_bool_if false = refl

module _ (b : Build) (version : String) (token : Option String) (c s : Test) where
  abbrev slots : Slots
  slots = parameters b version token c

  -- The server takes the client's protocol, where it has it.
  get_protocol_members-protocol :
      s.diskfile_name ≡ none
      → supports c.protocol s.protocols ≡ true
      → (get_protocol_members b (build slots) s).protocol ≡ c.protocol
  unfolding parameters
  get_protocol_members-protocol file known =
      protocol_of_members b c.protocol (build slots) s
        (has_bool-build "tcp" slots ∙ finds_bool_if (same_protocol c.protocol tcp))
        (has_bool-build "udp" slots ∙ finds_bool_if (same_protocol c.protocol udp))
        (has_bool-build "sctp" slots ∙ finds_bool_if (same_protocol c.protocol sctp))
        (has_bool-build "quic" slots ∙ finds_bool_if (same_protocol c.protocol quic)) file known

  get_direction-mode :
      c.role ≡ client
      → IsConsistent c
      → s.role ≡ server
      → s.mode ≡ receiver
      → s.reverse ≡ false
      → (get_direction b (build slots) s).mode ≡ opposite c.mode
  unfolding get_direction set_test_bidirectional set_test_reverse parameters
  get_direction-mode r k role mode reverse =
      rw (has_bool-build "reverse" slots, has_bool-build "bidirectional" slots) (ground arith)

get_direction-Agrees :
    (b : Build) (j : Object) (c s : Test)
    → Agrees c s
    → Agrees c (get_direction b j s) × ((get_direction b j s).protocol ≡ s.protocol)
unfolding get_direction set_test_bidirectional set_test_reverse
get_direction-Agrees b j c s a = ground arith

note_retransmits-Agrees :
    (b : Build) (c s : Test)
    → Agrees c s
    → Agrees c (note_retransmits b s)
      × ((note_retransmits b s).protocol ≡ s.protocol)
      × ((note_retransmits b s).mode ≡ s.mode)
unfolding note_retransmits
note_retransmits-Agrees b c s a = ground arith

-- The parts of `get_parameters` together.
taken_over :
    (b : Build) (version : String) (token : Option String) (c s : Test)
    → Fits c
    → IsFresh s
    → c.role ≡ client
    → IsConsistent c
    → s.diskfile_name ≡ none
    → supports c.protocol s.protocols ≡ true
    → let s' = (get_parameters b (some (build (parameters b version token c))) s).0 in
      Agrees c s' × (s'.protocol ≡ c.protocol) × (s'.mode ≡ opposite c.mode)
unfolding get_parameters get_fields
taken_over b version token c s f i r k file known =
    let j : Object = build (parameters b version token c) in
    let s1 : Test = get_protocol_members b j s in
    let i1 : IsFresh s1 = get_protocol_members-IsFresh b j s i in
    let s2 : Test = get_fields b j s1 in
    let (a3, p3) = get_direction-Agrees b j c s2 (get_fields-Agrees b version token c s1 f i1) in
    let m3 = get_direction-mode b version token c s2 r k i1.is_server i1.receives i1.not_reverse in
    let (a4, p4, m4) = note_retransmits-Agrees b c (get_direction b j s2) a3 in
    (a4, p4 ∙ p3 ∙ get_protocol_members-protocol b version token c s file known, m4 ∙ m3)

-- The object that a client sends, with ints in its int fields, a block size that is not 0, sizes below
-- 2^53, up to which a double is exact, and a mode that agrees with its flags, read by a server that was
-- reset, writes no file and has the client's protocol: the server's test has the client's protocol and the
-- opposite direction. Of the client's values it has the omitted time, the duration, the number of streams,
-- the bytes and blocks to send, the rate and the rate of pacing by the fair queue, the segment size, the
-- window, the burst, the type of service, the block size, the processor of the server, zerocopy and
-- skip_rx_copy, the title, the extra data and the congestion algorithm, and the flags of no delay and of
-- wide UDP counters.
pub get_parameters-send_parameters :
    (b : Build) (version : String) (credentials : Credentials) (written : Bool) (c s : Test)
    (j : Object)
    → send_parameters b version credentials written c ≡ inl j
    → Fits c
    → IsFresh s
    → c.role ≡ client
    → IsConsistent c
    → s.diskfile_name ≡ none
    → supports c.protocol s.protocols ≡ true
    → let s' = (get_parameters b (some j) s).0 in
      Agrees c s' × (s'.protocol ≡ c.protocol) × (s'.mode ≡ opposite c.mode)
unfolding send_parameters
get_parameters-send_parameters b version no_credentials true c s j e f i r k file known =
    let same : build (parameters b version none c) ≡ j = cc in
    subst
      (λ o.
        let s' = (get_parameters b (some o) s).0 in
        Agrees c s' × (s'.protocol ≡ c.protocol) × (s'.mode ≡ opposite c.mode))
      same (taken_over b version none c s f i r k file known)
get_parameters-send_parameters b version (encoded token) true c s j e f i r k file known =
    let same : build (parameters b version (some token) c) ≡ j = cc in
    subst
      (λ o.
        let s' = (get_parameters b (some o) s).0 in
        Agrees c s' × (s'.protocol ≡ c.protocol) × (s'.mode ≡ opposite c.mode))
      same (taken_over b version (some token) c s f i r k file known)
get_parameters-send_parameters b version not_encoded written c s j e f i r k file known =
    absurd (cc)
get_parameters-send_parameters b version no_credentials false c s j e f i r k file known =
    absurd (cc)
get_parameters-send_parameters b version (encoded token) false c s j e f i r k file known =
    absurd (cc)
