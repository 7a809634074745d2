-- ===== src/Test/Roles.antt =====
-- src/iperf_api.c: who sends. `iperf_set_test_role`, `iperf_set_test_reverse`,
-- `iperf_set_test_bidirectional`, `set_protocol` and `check_sender_has_retransmits`.
use iperf.Base.{
  ◌≡◌, Bool, true, false, Option, none, some, List, [], ◌∷◌, if◌then◌else◌, ◌&&◌, not, arith,
}
use iperf.Test.{
  Role, no_role, client, server, Mode, sender, receiver, bidirectional_mode, Protocol, tcp,
  same_protocol, Test, Build,
}

abbrev is_receiver : Mode → Bool
is_receiver receiver = true
is_receiver _ = false

unfoldable pub check_sender_has_retransmits : Build → Test → Test
check_sender_has_retransmits b t = record t {
  sender_has_retransmits =
      not (is_receiver t.mode) && same_protocol t.protocol tcp && b.has_tcpinfo_retransmits;
}

-- The mode of a role that transmits in the direction given; any other role leaves the mode.
unfoldable pub directed : Role → Bool → Mode → Mode
directed client false old = sender
directed client true old = receiver
directed server false old = receiver
directed server true old = sender
directed no_role _ old = old

unfoldable pub set_test_role : Build → Role → Test → Test
unfolding check_sender_has_retransmits directed
set_test_role b role t = check_sender_has_retransmits b (record t {
  role = role;
  mode =
      if t.reverse
      then directed role true t.mode
      else if t.bidirectional
      then bidirectional_mode
      else directed role false t.mode;
})

unfoldable pub set_test_reverse : Build → Bool → Test → Test
unfolding check_sender_has_retransmits directed
set_test_reverse b reverse t =
    check_sender_has_retransmits b
      (record t { reverse = reverse; mode = directed t.role reverse t.mode })

unfoldable pub set_test_bidirectional : Build → Bool → Test → Test
unfolding set_test_reverse
set_test_bidirectional b bidirectional t =
    if bidirectional
    then record t { bidirectional = bidirectional; mode = bidirectional_mode }
    else set_test_reverse b t.reverse (record t { bidirectional = bidirectional })

unfoldable pub supports : Protocol → List Protocol → Bool
supports p [] = false
supports p (q ∷ qs) = if same_protocol q p then true else supports p qs

-- `none` is the -1 with IEPROTOCOL, which leaves the test as it was.
unfoldable pub set_protocol : Build → Protocol → Test → Option Test
unfolding check_sender_has_retransmits
set_protocol b p t =
    if supports p t.protocols
    then some (check_sender_has_retransmits b (record t { protocol = p }))
    else none

-- The mode of the other end.
abbrev pub opposite : Mode → Mode
opposite sender = receiver
opposite receiver = sender
opposite bidirectional_mode = bidirectional_mode

-- What ties role, direction and mode together.
abbrev pub mode_of : Role → Bool → Bool → Mode → Mode
mode_of role reverse true old = bidirectional_mode
mode_of role reverse false old = directed role reverse old

-- The mode is the one of the role and the two flags, which are not both set.
pub record IsConsistent (t : Test) : Type 0 where
  pub mode_agrees : t.mode ≡ mode_of t.role t.reverse t.bidirectional t.mode
  pub exclusive : (t.reverse && t.bidirectional) ≡ false

-- Setting the role of a test that is not both reverse and bidirectional brings the mode in step with
-- the role and the flags.
pub set_test_role-IsConsistent :
    (b : Build) (role : Role) (t : Test)
    → (t.reverse && t.bidirectional) ≡ false
    → IsConsistent (set_test_role b role t)
unfolding set_test_role
set_test_role-IsConsistent b role t h = ground arith

-- Setting the reverse flag of a test that is not bidirectional brings the mode in step with the role and
-- the flags.
pub set_test_reverse-IsConsistent :
    (b : Build) (reverse : Bool) (t : Test)
    → t.bidirectional ≡ false
    → IsConsistent (set_test_reverse b reverse t)
unfolding set_test_reverse
set_test_reverse-IsConsistent b reverse t h = ground arith

-- Setting the bidirectional flag, or clearing it, brings the mode in step with the role and the flags, as
-- long as it is not set on a reverse test.
pub set_test_bidirectional-IsConsistent :
    (b : Build) (bidirectional : Bool) (t : Test)
    → (t.reverse && bidirectional) ≡ false
    → IsConsistent (set_test_bidirectional b bidirectional t)
unfolding set_test_bidirectional
set_test_bidirectional-IsConsistent b bidirectional t h = ground arith
