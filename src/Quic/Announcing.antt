-- ===== src/Quic/Announcing.antt =====
-- src/iperf_quic.c: the pipe that tells the main loop of the server that streams wait.
use iperf.Base.{
  ℕ, ◌+◌, ◌≤◌, ◌<◌, ◌≡◌, Bool, true, false, Option, none, some, List, [], ◌∷◌, arith, length,
  length-append, ltb,
}
use iperf.Quic.Context.{
  QuicContext, conn_cb, ConnEvent, peer_stream_started, drain_byte, take_waiting,
}

-- The thread of the main loop is between two accepts, or in one: it has read the pipe, with or without a byte,
-- and waits for the lock.
pub data Phase : Type 0 where
  idle : Phase
  drained : Bool → Phase

pub record Accepting : Type 0 where
  pub ctx : QuicContext
  pub phase : Phase

-- Whose turn it is: MsQuic's, with an event, or the main loop's.
pub data Turn : Type 0 where
  event : ConnEvent → Turn
  main_loop : Bool → Turn

abbrev has_byte : Option ℕ → Bool
has_byte none = false
has_byte (some n) = ltb 0 n

abbrev main_step : Bool → Phase → QuicContext → Accepting
main_step allocated idle ctx = record { ctx = drain_byte ctx; phase = drained (has_byte ctx.nfd) }
main_step allocated (drained b) ctx = record { ctx = (take_waiting allocated ctx).1; phase = idle }

unfoldable pub turn : Turn → Accepting → Accepting
unfolding conn_cb drain_byte take_waiting
turn (event e) s = record s { ctx = conn_cb e s.ctx }
turn (main_loop allocated) s = main_step allocated s.phase s.ctx

unfoldable pub turns : List Turn → Accepting → Accepting
unfolding turn
turns [] s = s
turns (t ∷ ts) s = turns ts (turn t s)

abbrev owed : Phase → ℕ
owed (drained true) = 1
owed _ = 0

abbrev pub bytes_in : Option ℕ → ℕ
bytes_in none = 0
bytes_in (some n) = n

abbrev pub is_some : Option ℕ → Bool
is_some none = false
is_some (some n) = true

-- The pipe is open, and every waiting stream has a byte in it, except the one that the main loop is about to take.
pub record IsAnnounced (s : Accepting) : Type 0 where
  pub is_open : is_some s.ctx.nfd ≡ true
  pub announced : length s.ctx.accepting ≤ bytes_in s.ctx.nfd + owed s.phase

turn-IsAnnounced : (t : Turn) (s : Accepting) → IsAnnounced s → IsAnnounced (turn t s)
unfolding turn
turn-IsAnnounced (event (peer_stream_started (some sc) true)) s i =
    ground (arith, i, length-append s.ctx.accepting (sc ∷ []))
turn-IsAnnounced (event e) s i = ground arith
turn-IsAnnounced (main_loop allocated) s i = ground arith

keeps_IsAnnounced : (ts : List Turn) (s : Accepting) → IsAnnounced s → IsAnnounced (turns ts s)
unfolding turns
keeps_IsAnnounced [] s i = i
keeps_IsAnnounced (t ∷ ts) s i = keeps_IsAnnounced ts (turn t s) (turn-IsAnnounced t s i)

-- No stream is forgotten: in every interleaving of the callbacks with the main loop, whenever the main loop is
-- back in its `select` and a stream waits to be accepted, a byte in the pipe wakes it up.
pub turns-IsAnnounced :
    (ts : List Turn) (s : Accepting)
    → IsAnnounced s
    → (turns ts s).phase ≡ idle
    → 0 < length (turns ts s).ctx.accepting
    → 0 < bytes_in (turns ts s).ctx.nfd
turns-IsAnnounced ts s i e w = ground (arith, keeps_IsAnnounced ts s i)
