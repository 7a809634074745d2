-- ===== src/Quic/Context.antt =====
-- src/iperf_quic.c: the context of a test, with the streams that wait to be accepted and those that have an id
-- and wait to be attached. The context of a stream is its address.
use iperf.Base.{
  ℕ, ◌+◌, ◌-◌, Bool, true, false, not, ◌&&◌, ◌||◌, Option, none, some, List, [], ◌∷◌, ◌++◌,
  if◌then◌else◌, ◌==◌,
}
use iperf.Quic.{StreamCtx, ApiCall, shutdown_abort, close}

-- `struct iperf_quic_context`. `nfd` is the pipe that wakes `select`: the bytes in it, or none when it is closed.
-- `map` and `accepting` are its two lists, in order.
pub record QuicContext : Type 0 where
  pub listener : Bool
  pub conn : Bool
  pub ready : Bool
  pub done : Bool
  pub nfd : Option ℕ
  pub next_id : ℕ
  pub map : List (ℕ × ℕ)
  pub accepting : List ℕ

abbrev written : Option ℕ → Option ℕ
written none = none
written (some n) = some (n + 1)

abbrev read_one : Option ℕ → Option ℕ
read_one none = none
read_one (some n) = some (n - 1)

unfoldable pub notify_pipe : QuicContext → QuicContext
notify_pipe ctx = record ctx { nfd = written ctx.nfd }

-- Without memory nothing is added, and the caller is not told.
unfoldable pub map_add : Bool → ℕ → ℕ → QuicContext → QuicContext
map_add allocated id sc ctx = if allocated then record ctx { map = (id, sc) ∷ ctx.map } else ctx

abbrev kept : ℕ × ℕ → Option ℕ × List (ℕ × ℕ) → Option ℕ × List (ℕ × ℕ)
kept entry (found, rest) = (found, entry ∷ rest)

unfoldable pub take_entry : ℕ → List (ℕ × ℕ) → Option ℕ × List (ℕ × ℕ)
take_entry id [] = (none, [])
take_entry id ((i, sc) ∷ rest) =
    if i == id then (some sc, rest) else kept (i, sc) (take_entry id rest)

unfoldable pub map_take : ℕ → QuicContext → Option ℕ × QuicContext
unfolding take_entry
map_take id ctx = let (found, rest) = take_entry id ctx.map in (found, record ctx { map = rest })

unfoldable pub accept_enq : Bool → ℕ → QuicContext → QuicContext
unfolding notify_pipe
accept_enq allocated sc ctx =
    if allocated then notify_pipe (record ctx { accepting = ctx.accepting ++ (sc ∷ []) }) else ctx

abbrev first_of : List ℕ → Option ℕ
first_of [] = none
first_of (sc ∷ rest) = some sc

abbrev rest_of : List ℕ → List ℕ
rest_of [] = []
rest_of (sc ∷ rest) = rest

unfoldable pub accept_deq : QuicContext → Option ℕ × QuicContext
accept_deq ctx = (first_of ctx.accepting, record ctx { accepting = rest_of ctx.accepting })

-- What MsQuic tells a connection; a stream that the peer starts comes with its new context, if there is memory.
pub data ConnEvent : Type 0 where
  connected : ConnEvent
  peer_stream_started : Option ℕ → Bool → ConnEvent
  conn_shutdown_complete : ConnEvent
  other_event : ConnEvent

unfoldable pub conn_cb : ConnEvent → QuicContext → QuicContext
unfolding accept_enq
conn_cb connected ctx = record ctx { ready = true }
conn_cb (peer_stream_started none allocated) ctx = ctx
conn_cb (peer_stream_started (some sc) allocated) ctx = accept_enq allocated sc ctx
conn_cb conn_shutdown_complete ctx = record ctx { ready = false; done = true }
conn_cb other_event ctx = ctx

-- The two parts of iperf_quic_accept: a byte of the pipe, and under the lock a stream, which gets an id.
unfoldable pub drain_byte : QuicContext → QuicContext
drain_byte ctx = record ctx { nfd = read_one ctx.nfd }

abbrev give_id : Bool → Option ℕ × QuicContext → Option ℕ × QuicContext
give_id allocated (none, ctx) = (none, ctx)
give_id allocated (some sc, ctx) = (
  some (ctx.next_id + 1),
  map_add allocated (ctx.next_id + 1) sc (record ctx { next_id = ctx.next_id + 1 }),
)

unfoldable pub take_waiting : Bool → QuicContext → Option ℕ × QuicContext
unfolding accept_deq map_add
take_waiting allocated ctx = give_id allocated (accept_deq ctx)

-- none is -1.
unfoldable pub quic_accept : Bool → QuicContext → Option ℕ × QuicContext
unfolding drain_byte take_waiting
quic_accept allocated ctx = take_waiting allocated (drain_byte ctx)

-- The context that becomes `sp->data`.
unfoldable pub attach_stream : ℕ → QuicContext → Option ℕ × QuicContext
unfolding map_take
attach_stream id ctx = map_take id ctx

-- Several events in turn.
unfoldable pub conn_cbs : List ConnEvent → QuicContext → QuicContext
unfolding conn_cb
conn_cbs [] ctx = ctx
conn_cbs (e ∷ events) ctx = conn_cbs events (conn_cb e ctx)

-- A wake of the wait for the handshake, with all the events that come between the start of the wait and the time at
-- which the waiter has the lock again.
pub data ConnWake : Type 0 where
  told : List ConnEvent → ConnWake
  timed_out : List ConnEvent → ConnWake

-- The wait is over when it is ready, or, with a timeout, when that has passed.
unfoldable pub wait_ready : Bool → List ConnWake → QuicContext → Option QuicContext
unfolding conn_cbs
wait_ready timed [] ctx = if ctx.ready then some ctx else none
wait_ready timed (told events ∷ wakes) ctx =
    let rest = wait_ready timed wakes (conn_cbs events ctx) in if ctx.ready then some ctx else rest
wait_ready timed (timed_out events ∷ wakes) ctx =
    let rest = wait_ready timed wakes (conn_cbs events ctx) in
    if ctx.ready then some ctx else if timed then some (conn_cbs events ctx) else rest

-- What the calls of iperf_quic_connect answer, and the events between the wait and the second test of `ready`, which
-- is made without the lock; the new stream's context is given.
pub record ConnectCalls : Type 0 where
  pub unlocked : List ConnEvent
  pub connection_open : Bool
  pub connection_start : Bool
  pub stream_open : Bool
  pub context_allocated : Bool
  pub stream_start : Bool
  pub entry_allocated : Bool

-- After the handshake: one stream, which gets an id. none is -1.
unfoldable pub open_stream : ConnectCalls → ℕ → QuicContext → Option ℕ × QuicContext
unfolding map_add
open_stream calls sc ctx =
    if not ctx.ready
      || not calls.stream_open
      || not calls.context_allocated
      || not calls.stream_start
    then (none, ctx)
    else give_id calls.entry_allocated (some sc, ctx)

abbrev then_open : ConnectCalls → ℕ → Option QuicContext → Option (Option ℕ × QuicContext)
then_open calls sc none = none
then_open calls sc (some ctx) = some (open_stream calls sc (conn_cbs calls.unlocked ctx))

-- none where the wait does not end.
unfoldable pub quic_connect :
    ConnectCalls → Bool → List ConnWake → ℕ → QuicContext → Option (Option ℕ × QuicContext)
unfolding wait_ready open_stream conn_cbs
quic_connect calls timed wakes sc ctx =
    if not ctx.conn && not calls.connection_open
    then some (none, ctx)
    else if not ctx.conn && not calls.connection_start
    then some (none, record ctx { conn = true })
    else then_open calls sc (wait_ready timed wakes (record ctx { conn = true }))

unfoldable pub close_listener : QuicContext → QuicContext
close_listener ctx = record ctx { listener = false; nfd = none }

abbrev aborts : Option ℕ → List ApiCall
aborts none = []
aborts (some h) = shutdown_abort h ∷ close h ∷ []

-- What iperf_quic_free_test does to the streams: those that have an id, then those that wait.
unfoldable pub free_map : (ℕ → StreamCtx) → List (ℕ × ℕ) → List ApiCall
free_map at [] = []
free_map at ((i, sc) ∷ rest) = aborts (at sc).stream ++ free_map at rest

unfoldable pub free_accepting : (ℕ → StreamCtx) → List ℕ → List ApiCall
free_accepting at [] = []
free_accepting at (sc ∷ rest) = aborts (at sc).stream ++ free_accepting at rest

unfoldable pub free_test : (ℕ → StreamCtx) → QuicContext → List ApiCall
unfolding free_map free_accepting
free_test at ctx = free_map at ctx.map ++ free_accepting at ctx.accepting

unfoldable pub quic_shutdown_complete : Option QuicContext → Bool
quic_shutdown_complete none = false
quic_shutdown_complete (some ctx) = ctx.done
