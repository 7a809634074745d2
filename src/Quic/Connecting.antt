-- ===== src/Quic/Connecting.antt =====
-- src/iperf_quic.c: the wait of the client for the handshake.
use iperf.Base.{
  ℕ, ◌≡◌, ◌≢◌, refl, ap, ◌∙◌, Bool, true, false, Option, none, List, [], ◌∷◌, ◌++◌, All, arith,
}
use iperf.Quic.Context.{
  accept_enq, QuicContext, ConnEvent, conn_cb, conn_cbs, connected, peer_stream_started,
  conn_shutdown_complete, other_event, ConnWake, told, timed_out, ConnectCalls, wait_ready,
  quic_connect,
}

-- Whether the last of CONNECTED and SHUTDOWN_COMPLETE among the events is CONNECTED; without either it is as before.
unfoldable pub ends_connected : Bool → List ConnEvent → Bool
ends_connected before [] = before
ends_connected before (connected ∷ events) = ends_connected true events
ends_connected before (conn_shutdown_complete ∷ events) = ends_connected false events
ends_connected before (peer_stream_started fresh allocated ∷ events) = ends_connected before events
ends_connected before (other_event ∷ events) = ends_connected before events

abbrev pub NotConnected : ConnWake → Type 0
NotConnected (told events) = ends_connected false events ≡ false
NotConnected (timed_out events) = ends_connected false events ≡ false

started-ready :
    (fresh : Option ℕ) (allocated : Bool) (ctx : QuicContext)
    → (conn_cb (peer_stream_started fresh allocated) ctx).ready ≡ ctx.ready
unfolding conn_cb accept_enq
started-ready fresh allocated ctx = ground arith

conn_cbs-ready :
    (events : List ConnEvent) (ctx : QuicContext)
    → (conn_cbs events ctx).ready ≡ ends_connected ctx.ready events
unfolding conn_cbs ends_connected
conn_cbs-ready [] ctx = refl
conn_cbs-ready (connected ∷ events) ctx = conn_cbs-ready events (conn_cb connected ctx)
conn_cbs-ready (conn_shutdown_complete ∷ events) ctx =
    conn_cbs-ready events (conn_cb conn_shutdown_complete ctx)
conn_cbs-ready (peer_stream_started fresh allocated ∷ events) ctx =
    conn_cbs-ready events (conn_cb (peer_stream_started fresh allocated) ctx)
    ∙ ap (λ b. ends_connected b events) (started-ready fresh allocated ctx)
conn_cbs-ready (other_event ∷ events) ctx = conn_cbs-ready events ctx

conn_cbs-NotReady :
    (events : List ConnEvent) (ctx : QuicContext)
    → ends_connected false events ≡ false
    → ctx.ready ≡ false
    → (conn_cbs events ctx).ready ≡ false
conn_cbs-NotReady events ctx d h =
    conn_cbs-ready events ctx ∙ ap (λ b. ends_connected b events) h ∙ d

wait_ready-NotConnected :
    (wakes : List ConnWake) (ctx : QuicContext)
    → All NotConnected wakes
    → ctx.ready ≡ false
    → wait_ready false wakes ctx ≡ none
unfolding wait_ready
wait_ready-NotConnected [] ctx d h = ground arith
wait_ready-NotConnected (told events ∷ wakes) ctx (d, ds) h = ground (
  arith,
  wait_ready-NotConnected wakes (conn_cbs events ctx) ds (conn_cbs-NotReady events ctx d h),
)
wait_ready-NotConnected (timed_out events ∷ wakes) ctx (d, ds) h = ground (
  arith,
  wait_ready-NotConnected wakes (conn_cbs events ctx) ds (conn_cbs-NotReady events ctx d h),
)

-- Events that end connected do so also where it was connected before.
ends_connected-true :
    (events : List ConnEvent)
    → ends_connected false events ≡ true
    → ends_connected true events ≡ true
unfolding ends_connected
ends_connected-true [] h = absurd cc
ends_connected-true (connected ∷ events) h = h
ends_connected-true (conn_shutdown_complete ∷ events) h = h
ends_connected-true (peer_stream_started fresh allocated ∷ events) h = ends_connected-true events h
ends_connected-true (other_event ∷ events) h = ends_connected-true events h

made-ready :
    (events : List ConnEvent) (before : Bool)
    → ends_connected false events ≡ true
    → ends_connected before events ≡ true
made-ready events true h = ends_connected-true events h
made-ready events false h = h

wait_ready_made :
    (wakes : List ConnWake) (events : List ConnEvent) (ctx : QuicContext)
    → ends_connected false events ≡ true
    → wait_ready false (wakes ++ told events ∷ []) ctx ≢ none
unfolding wait_ready
wait_ready_made [] events ctx d =
    ground (arith, conn_cbs-ready events ctx, made-ready events ctx.ready d)
wait_ready_made (told others ∷ wakes) events ctx d =
    ground (arith, wait_ready_made wakes events (conn_cbs others ctx) d)
wait_ready_made (timed_out others ∷ wakes) events ctx d =
    ground (arith, wait_ready_made wakes events (conn_cbs others ctx) d)

-- Without a timeout, which is the default, where the connection is opened and started and is not ready at first,
-- `iperf_quic_connect` returns at the first wake by which, when the waiter has the lock again, the last of CONNECTED
-- and SHUTDOWN_COMPLETE was CONNECTED, and not before: it waits on where the connection has failed, and where it was
-- made and shut down before the waiter had the lock.
pub quic_connect-waits :
    (calls : ConnectCalls) (wakes : List ConnWake) (events : List ConnEvent) (sc : ℕ)
    (ctx : QuicContext)
    → calls.connection_open ≡ true
    → calls.connection_start ≡ true
    → ctx.ready ≡ false
    → All NotConnected wakes
    → ends_connected false events ≡ true
    → (quic_connect calls false wakes sc ctx ≡ none)
      × (quic_connect calls false (wakes ++ told events ∷ []) sc ctx ≢ none)
unfolding quic_connect
quic_connect-waits calls wakes events sc ctx o s h d e =
    let ctx' = record ctx { conn = true } in
    (
      ground (arith, wait_ready-NotConnected wakes ctx' d h),
      ground (arith, wait_ready_made wakes events ctx' e),
    )
