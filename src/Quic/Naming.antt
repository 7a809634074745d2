-- ===== src/Quic/Naming.antt =====
-- src/iperf_quic.c: the ids by which the accepted streams are attached.
use iperf.Base.{ℕ, ◌+◌, ◌≤◌, ◌≡◌, ◌≢◌, Bool, true, false, none, some, List, [], ◌∷◌, arith, All}
use iperf.Quic.Context.{
  QuicContext, ConnEvent, conn_cb, connected, peer_stream_started, conn_shutdown_complete,
  other_event, take_entry, map_take, quic_accept, attach_stream,
}

-- What may come between the accept of a stream and its attachment.
pub data Between : Type 0 where
  event : ConnEvent → Between
  accept : Bool → Between
  attach : ℕ → Between

unfoldable pub step : Between → QuicContext → QuicContext
unfolding conn_cb quic_accept attach_stream
step (event e) ctx = conn_cb e ctx
step (accept allocated) ctx = (quic_accept allocated ctx).1
step (attach id) ctx = (attach_stream id ctx).1

unfoldable pub steps : List Between → QuicContext → QuicContext
unfolding step
steps [] ctx = ctx
steps (b ∷ bs) ctx = steps bs (step b ctx)

-- It attaches another stream, if any.
abbrev pub Other : ℕ → Between → Type 0
Other id (attach other) = other ≢ id
Other id _ = true ≡ true

-- The id has been given, and stands for a stream.
abbrev Stands : ℕ → ℕ → QuicContext → Type 0
Stands id sc ctx = (id ≤ ctx.next_id) × ((take_entry id ctx.map).0 ≡ some sc)

take_entry-other :
    (id other sc : ℕ) (map : List (ℕ × ℕ))
    → other ≢ id
    → (take_entry id map).0 ≡ some sc
    → (take_entry id (take_entry other map).1).0 ≡ some sc
unfolding take_entry
take_entry-other id other sc [] d h = h
take_entry-other id other sc ((i, x) ∷ rest) d h =
    ground (arith, take_entry-other id other sc rest d)

accepted-Stands :
    (id sc : ℕ) (allocated : Bool) (ctx : QuicContext)
    → Stands id sc ctx
    → Stands id sc (quic_accept allocated ctx).1
unfolding quic_accept take_entry
accepted-Stands id sc allocated ctx h = ground arith

step-Stands :
    (id sc : ℕ) (b : Between) (ctx : QuicContext)
    → Other id b
    → Stands id sc ctx
    → Stands id sc (step b ctx)
unfolding step map_take
step-Stands id sc (event connected) ctx d h = h
step-Stands id sc (event (peer_stream_started none allocated)) ctx d h = h
step-Stands id sc (event (peer_stream_started (some x) true)) ctx d h = h
step-Stands id sc (event (peer_stream_started (some x) false)) ctx d h = h
step-Stands id sc (event conn_shutdown_complete) ctx d h = h
step-Stands id sc (event other_event) ctx d h = h
step-Stands id sc (accept allocated) ctx d h = accepted-Stands id sc allocated ctx h
step-Stands id sc (attach other) ctx d h = (h.0, take_entry-other id other sc ctx.map d h.1)

steps-Stands :
    (id sc : ℕ) (bs : List Between) (ctx : QuicContext)
    → All (Other id) bs
    → Stands id sc ctx
    → Stands id sc (steps bs ctx)
unfolding steps
steps-Stands id sc [] ctx d h = h
steps-Stands id sc (b ∷ bs) ctx (d, ds) h =
    steps-Stands id sc bs (step b ctx) ds (step-Stands id sc b ctx d h)

accepts_first :
    (ctx : QuicContext) (sc : ℕ) (rest : List ℕ)
    → ctx.accepting ≡ sc ∷ rest
    → Stands (ctx.next_id + 1) sc (quic_accept true ctx).1
unfolding quic_accept take_entry
accepts_first ctx sc rest e = ground arith

-- The stream that has waited longest is the one that is accepted. Where there is memory for its entry in the
-- map, its id attaches it, whatever has come in between: other streams that start, are accepted and attached,
-- and other events of the connection. Where there is none, the stream is taken off the queue and the id
-- is given all the same, but attaches only what the map had under it before.
pub quic_accept-attach_stream :
    (ctx : QuicContext) (sc : ℕ) (rest : List ℕ) (bs : List Between)
    → ctx.accepting ≡ sc ∷ rest
    → All (Other (ctx.next_id + 1)) bs
    → let (id, ctx') = quic_accept true ctx in
      (id ≡ some (ctx.next_id + 1))
      × (ctx'.accepting ≡ rest)
      × ((attach_stream (ctx.next_id + 1) (steps bs ctx')).0 ≡ some sc)
      × ((quic_accept false ctx).0 ≡ some (ctx.next_id + 1))
      × (((quic_accept false ctx).1.accepting) ≡ rest)
      × ((attach_stream (ctx.next_id + 1) (quic_accept false ctx).1).0
          ≡ (take_entry (ctx.next_id + 1) ctx.map).0)
unfolding quic_accept attach_stream map_take
quic_accept-attach_stream ctx sc rest bs e d =
    let id : ℕ = ctx.next_id + 1 in
    let ctx' = (quic_accept true ctx).1 in
    (
      ground arith,
      ground arith,
      (steps-Stands id sc bs ctx' d (accepts_first ctx sc rest e)).1,
      ground arith,
      ground arith,
      ground arith,
    )
