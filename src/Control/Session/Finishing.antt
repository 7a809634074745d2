-- ===== src/Control/Session/Finishing.antt =====
-- Every session can come to its end.
use iperf.Base.{
  ℕ, ◌≡◌, ◌≢◌, inl, inr, refl, sym, true, false, none, some, List, [], ◌∷◌, arith, Option-cases,
}
use iperf.State.{to_byte}
use iperf.Control.{Control}
use iperf.Control.Client.{is_finished}
use iperf.Control.Session.{
  Session, Action, client_read, server_read, server_begin, client_check, work, step, run,
  client_calls, Reachable,
}
use iperf.Control.Session.Phases.{
  In, Phase, parameters_due, parameters_sent, streams_due, start_due, starting, running, end_due,
  results_due, results_sent, finishing, over, phase_after, step-In, Fresh, Reachable-In,
}

-- Some actions lead to the end of both.
abbrev pub Ends : Session → Type 0
Ends x =
    (path : List Action) × (y : Session) × (run path x ≡ some y)
    × (to_byte y.client.state ≡ 16)
    × (to_byte y.server.state ≡ 16)

-- Taking one more action at the front.
Ends-step : (a : Action) (x y : Session) → step a x ≡ some (true, y) → Ends y → Ends x
unfolding run
Ends-step a x y e (path, z, r, c, s) = (a ∷ path, z, rw (e, run) r, c, s)

-- A phase ends with its move, if that can be taken.
Ends-move :
    (j k : ℕ) (p : Phase) (a : Action) (x : Session)
    → In j k p x
    → step a x ≢ none
    → ((y : Session) → In j k (phase_after a p) y → Ends y)
    → Ends x
Ends-move j k p a x h enabled later = elim (Option-cases (step a x)) [
  | inl e ↦ absurd (enabled e)
  | inr ((ok, y), e) ↦
      let (o, i) = step-In j k p a ok x y h e in Ends-step a x y (rw (sym o) e) (later y i)
]

module _ (j k : ℕ) where
  end-over : (x : Session) → In j k over x → Ends x
  unfolding run
  end-over x h = ([], x, refl, h.client_at, h.server_at)

  end-finishing : (x : Session) → In j k finishing x → Ends x
  unfolding step
  end-finishing x h = Ends-move j k finishing server_read x h (ground arith) end-over

  end-results_sent : (x : Session) → In j k results_sent x → Ends x
  unfolding step
  end-results_sent x h = Ends-move j k results_sent client_read x h (ground arith) end-finishing

  end-results_due : (x : Session) → In j k results_due x → Ends x
  unfolding step
  end-results_due x h = Ends-move j k results_due client_read x h (ground arith) end-results_sent

  end-end_due : (x : Session) → In j k end_due x → Ends x
  unfolding step
  end-end_due x h = Ends-move j k end_due server_read x h (ground arith) end-results_due

  -- Once time is up and nothing is omitted, the client ends the test.
  end-timed_out :
      (x : Session) → In j k running x → is_finished client_calls x.client ≡ true → Ends x
  unfolding step
  end-timed_out x h f = Ends-move j k running client_check x h (ground arith) end-end_due

  end-running : (x : Session) → In j k running x → Ends x
  unfolding step is_finished
  end-running x h =
      let y : Session = record x {
        client = record (x.client) {
          done = true;
          omitting = false;
          bytes_sent = 0;
          blocks_sent = 0;
        };
      } in
      Ends-step (work true false 0 0) x y (ground arith)
        (end-timed_out y (ground arith) (ground arith))

  end-starting : (x : Session) → In j k starting x → Ends x
  unfolding step
  end-starting x h = Ends-move j k starting client_read x h (ground arith) end-running

  end-start_due : (x : Session) → In j k start_due x → Ends x
  unfolding step
  end-start_due x h = Ends-move j k start_due client_read x h (ground arith) end-starting

  end-streams_due : (x : Session) → In j k streams_due x → Ends x
  unfolding step
  end-streams_due x h = Ends-move j k streams_due server_begin x h (ground arith) end-start_due

  end-parameters_sent : (x : Session) → In j k parameters_sent x → Ends x
  unfolding step
  end-parameters_sent x h =
      Ends-move j k parameters_sent client_read x h (ground arith) end-streams_due

  end-parameters_due : (x : Session) → In j k parameters_due x → Ends x
  unfolding step
  end-parameters_due x h =
      Ends-move j k parameters_due client_read x h (ground arith) end-parameters_sent

  end-In : (p : Phase) (x : Session) → In j k p x → Ends x
  end-In parameters_due = end-parameters_due
  end-In parameters_sent = end-parameters_sent
  end-In streams_due = end-streams_due
  end-In start_due = end-start_due
  end-In starting = end-starting
  end-In running = end-running
  end-In end_due = end-end_due
  end-In results_due = end-results_due
  end-In results_sent = end-results_sent
  end-In finishing = end-finishing
  end-In over = end-over

-- From every session that such a client and server can come to, some further actions, each of which
-- can be taken and succeeds, bring both ends to IPERF_DONE: they never wait for each other for
-- ever.
pub Reachable-Ends :
    (j k : ℕ) (c s : Control) (x : Session) → Fresh j c s → Reachable k c s x → Ends x
Reachable-Ends j k c s x f r = let (p, h) = Reachable-In j k c s x f r in end-In j k p x h
