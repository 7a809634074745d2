-- ===== src/Quic.antt =====
-- src/iperf_quic.c: the state that the callbacks of MsQuic and the threads of a test share. What MsQuic does is
-- a list of events; a handle of a stream is a number. A size_t counts bytes in memory, so that it does not wrap.
use iperf.Base.{ℕ, Bool, Option, List}
pub mod Streams
pub mod Receiving
pub mod Waiting
pub mod Pipe
pub mod Sends
pub mod Closing
pub mod Context
pub mod Announcing
pub mod Naming
pub mod Connecting

-- `struct quic_recv_chunk`, without its link: the queue is a list, with `head` first and `tail` last.
pub record Chunk : Type 0 where
  pub contents : List ℕ
  pub off : ℕ

-- `struct iperf_quic_stream_ctx`. `stream` is none where the code has NULL.
pub record StreamCtx : Type 0 where
  pub stream : Option ℕ
  pub chunks : List Chunk
  pub queued : ℕ
  pub pending_sends : ℕ
  pub fin : Bool

-- What MsQuic tells a stream. A buffer comes with whether there is memory for its copy.
pub data StreamEvent : Type 0 where
  send_complete : StreamEvent
  receive : List (List ℕ × Bool) → StreamEvent
  peer_send_shutdown : StreamEvent
  peer_send_aborted : StreamEvent
  shutdown_complete : Bool → StreamEvent

-- The calls of MsQuic that end a stream.
pub data ApiCall : Type 0 where
  shutdown_graceful : ℕ → ApiCall
  shutdown_abort : ℕ → ApiCall
  close : ℕ → ApiCall
