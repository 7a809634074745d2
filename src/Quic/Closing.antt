-- ===== src/Quic/Closing.antt =====
-- src/iperf_quic.c: the handle of a stream that MsQuic has shut down.
use iperf.Base.{ℕ, ◌≡◌, Bool, true, false, none, some, [], ◌∷◌, ◌++◌, arith}
use iperf.Quic.{StreamCtx, shutdown_complete, shutdown_graceful, close}
use iperf.Quic.Streams.{stream_cb, QuicStream, stream_cleanup}

-- When MsQuic reports that a stream is shut down, the callback closes its handle but keeps it, so that the
-- cleanup of the stream shuts down and closes the same handle again. If the report comes with the close by the
-- program under way it is closed once.
pub stream_cb-stream_cleanup :
    (h : ℕ) (app_close : Bool) (sc : StreamCtx) (sp : QuicStream)
    → sc.stream ≡ some h
    → let (sc', first) = stream_cb h (shutdown_complete app_close) sc in
      let (sp', second) = stream_cleanup true (record sp { ctx = some sc' }) in
      (sp'.ctx ≡ none)
      × (first ++ second ≡ (elim app_close [
        | true ↦ shutdown_graceful h ∷ close h ∷ []
        | false ↦ close h ∷ shutdown_graceful h ∷ close h ∷ []
      ]))
unfolding stream_cb stream_cleanup
stream_cb-stream_cleanup h app_close sc sp e = ground arith
