-- ===== src/Control/Server/Streams.antt =====
-- src/iperf_server_api.c, `iperf_run_server`: the accept of the streams of a test in the state
-- CREATE_STREAMS, up to the start of the test. What a connection of the protocol takes is the interface
-- `Listener`.
use iperf.Base.{
  ℕ, zero, suc, ◌+◌, Bool, true, false, ◌&&◌, not, Option, none, some, if◌then◌else◌, ◌==◌,
}
use iperf.Test.{Mode, sender, receiver, bidirectional_mode, tcp, same_protocol}
use iperf.Control.{Control, Op, Act, Calls, ◌then_do◌, is_quic, iesetusertimeout}
use iperf.Control.Server.{Limits, Sockets, begin_test}

-- The streams accepted so far and those wanted.
pub record Accepted : Type 0 where
  pub rec_streams_accepted : ℕ
  pub send_streams_accepted : ℕ
  pub streams_to_rec : ℕ
  pub streams_to_send : ℕ

-- "Set streams number", after a client was accepted.
unfoldable pub set_streams : Mode → ℕ → Accepted → Accepted
set_streams bidirectional_mode n a = record a { streams_to_send = n; streams_to_rec = n }
set_streams receiver n a = record a { streams_to_rec = n; streams_to_send = 0 }
set_streams sender n a = record a { streams_to_send = n; streams_to_rec = 0 }

-- The `flag` of the next stream, true for one that sends; `none` is -1, which a stream that was made leaves. Before
-- the first stream `flag` is not initialised: a test of no stream, or of a negative number of them, is outside this model.
unfoldable pub take_slot : Accepted → Option Bool × Accepted
take_slot a =
    if not (a.rec_streams_accepted == a.streams_to_rec)
    then (some false, record a { rec_streams_accepted = a.rec_streams_accepted + 1 })
    else if not (a.send_streams_accepted == a.streams_to_send)
    then (some true, record a { send_streams_accepted = a.send_streams_accepted + 1 })
    else (none, a)

abbrev pub all_accepted : Accepted → Bool
all_accepted a =
    (a.rec_streams_accepted == a.streams_to_rec) && (a.send_streams_accepted == a.streams_to_send)

-- What setsockopt of TCP_CONGESTION says: ENOENT is an algorithm that this system does not have.
pub data SetCongestion : Type 0 where
  is_set no_such_algorithm not_set : SetCongestion

pub record Listener (W : Type 0) : Type 0 where
  pub accept : Control × W → Option ℕ × (Control × W)
  pub common_sockopts : ℕ → Op W
  pub is_closed : ℕ → W → Bool
  pub set_user_timeout : ℕ → W → Bool × W
  pub set_congestion : ℕ → W → SetCongestion × W
  pub note_congestion_used : ℕ → W → Bool × W
  pub new_stream : ℕ → Bool → Op W
  pub on_new_stream : W → W
  pub close : ℕ → W → W
  pub close_listeners : Op W
  pub start_threads : Op W

-- IESETCONGESTION.
abbrev pub iesetcongestion : ℕ
iesetcongestion = 134

module _ {W : Type 0} (listener : Listener W) (snd_timeout : ℕ) (has_congestion : Bool) where
  abbrev close_with : ℕ → ℕ → Op W
  close_with e s (c, w) = (false, (record c { i_errno = e }, listener.close s w))

  unfoldable pub user_timeout : ℕ → Op W
  user_timeout s (c, w) =
      if snd_timeout == 0
      then (true, (c, w))
      else let (ok, w') = listener.set_user_timeout s w in
        if ok then (true, (c, w')) else close_with iesetusertimeout s (c, w')

  unfoldable pub congestion : ℕ → Op W
  congestion s (c, w) =
      let (set, w') = listener.set_congestion s w in
      if not has_congestion
      then (true, (c, w))
      else elim set [ not_set ↦ close_with iesetcongestion s (c, w') | _ ↦ (true, (c, w')) ]

  unfoldable pub congestion_used : ℕ → Op W
  congestion_used s (c, w) =
      let (ok, w') = listener.note_congestion_used s w in
      if not ok && has_congestion then close_with iesetcongestion s (c, w') else (true, (c, w'))

  -- The options of a TCP stream.
  unfoldable pub stream_options : ℕ → Op W
  unfolding user_timeout congestion congestion_used
  stream_options s (c, w) =
      if same_protocol c.protocol tcp
      then (user_timeout s then_do congestion s then_do congestion_used s) (c, w)
      else (true, (c, w))

  abbrev pub Step : Type 0
  Step = Accepted × (Control × W) → Bool × (Accepted × (Control × W))

  abbrev lift_op : Op W → Step
  lift_op f (a, cw) = let (ok, cw') = f cw in (ok, (a, cw'))

  abbrev announce : Op W
  announce (c, w) = (true, (c, listener.on_new_stream w))

  -- A connection becomes the stream of the next slot; one too many becomes none.
  abbrev pub fill_slot :
      ℕ → Option Bool × Accepted → Control × W → Bool × (Accepted × (Control × W))
  fill_slot s (none, a) cw = (true, (a, cw))
  fill_slot s (some flag, a) cw = lift_op (listener.new_stream s flag then_do announce) (a, cw)

  unfoldable pub add_stream : ℕ → Step
  unfolding take_slot
  add_stream s (a, cw) = fill_slot s (take_slot a) cw

  unfoldable pub set_up_and_add : ℕ → Step
  unfolding stream_options add_stream
  set_up_and_add s (a, (c, w)) =
      if listener.is_closed s w
      then (true, (a, (c, w)))
      else let (ok, cw) = stream_options s (c, w) in
        if ok then add_stream s (a, cw) else (false, (a, cw))

  -- One connection, of any protocol but QUIC.
  unfoldable pub accept_stream : Step
  unfolding set_up_and_add
  accept_stream (a, cw) =
      let (answer, cw1) = listener.accept cw in
      elim answer [
        | none ↦ (false, (a, cw1))
        | some s ↦
            let (ok, cw2) = listener.common_sockopts s cw1 in
            if ok then set_up_and_add s (a, cw2) else (false, (a, cw2))
      ]

  -- QUIC: all connections that wait, while streams are wanted. `again` is the next round of the loop, and
  -- `none` a lack of fuel.
  abbrev pub Loop : Type 0
  Loop = Accepted × (Control × W) → Option (Bool × (Accepted × (Control × W)))

  abbrev pub drain_made :
      Loop → Bool × (Accepted × (Control × W)) → Option (Bool × (Accepted × (Control × W)))
  drain_made again (false, s) = some (false, s)
  drain_made again (true, (a, cw)) = if all_accepted a then some (true, (a, cw)) else again (a, cw)

  abbrev pub drain_slot :
      Loop → ℕ → Option Bool × Accepted → Control × W → Option (Bool × (Accepted × (Control × W)))
  drain_slot again s (none, a) cw = some (true, (a, cw))
  drain_slot again s (some flag, a) cw = drain_made again (fill_slot s (some flag, a) cw)

  abbrev pub drain_answer :
      Loop → Accepted → Option ℕ × (Control × W) → Option (Bool × (Accepted × (Control × W)))
  unfolding take_slot
  drain_answer again a (none, cw) = some (true, (a, cw))
  drain_answer again a (some s, cw) = drain_slot again s (take_slot a) cw

  unfoldable pub drain : ℕ → Loop
  unfolding drain_answer
  drain zero s = none
  drain (suc fuel) (a, cw) = drain_answer (λ s. drain fuel s) a (listener.accept cw)

  module _ (calls : Calls W) (sockets : Sockets W) (limits : Limits) (cleanup : Act W) where
    abbrev or_clean_up : Op W → Op W
    or_clean_up f cw = let (ok, cw') = f cw in if ok then (true, cw') else (false, cleanup cw')

    -- When all streams are there, the listeners are closed, the test begins and the threads start.
    pub begin_if_complete : Step
    unfolding begin_test
    begin_if_complete (a, cw) =
        if all_accepted a
        then lift_op
            (or_clean_up listener.close_listeners
              then_do begin_test calls sockets limits cleanup
              then_do or_clean_up listener.start_threads)
            (a, cw)
        else (true, (a, cw))

    abbrev accept_ready :
        ℕ → Bool → Accepted × (Control × W) → Option (Bool × (Accepted × (Control × W)))
    unfolding accept_stream drain
    accept_ready fuel false s = some (true, s)
    accept_ready fuel true (a, (c, w)) =
        if is_quic c then drain fuel (a, (c, w)) else some (accept_stream (a, (c, w)))

    -- A round of the main loop in CREATE_STREAMS; `ready` is whether the listener of the protocol is.
    pub streams_round :
        ℕ → Bool → Accepted × (Control × W) → Option (Bool × (Accepted × (Control × W)))
    unfolding accept_ready begin_if_complete
    streams_round fuel ready s = elim (accept_ready fuel ready s) [
      | none ↦ none
      | some (ok, (a, cw)) ↦
          some (if ok then begin_if_complete (a, cw) else (false, (a, cleanup cw)))
    ]
