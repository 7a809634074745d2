-- ===== src/Results/Agreement.antt =====
-- src/iperf_api.c: the two ends of `iperf_exchange_results` together. The server runs while the client
-- waits for its results.
use iperf.Base.{
  ◌≡◌, refl, ap, ◌∙◌, sym, Bool, true, false, ◌&&◌, Option, none, some, if◌then◌else◌, inl, inr,
  Bool-cases, Option-cases,
}
use iperf.Test.{client, server}
use iperf.Json.{build}
use iperf.Results.{Double, IperfTest, Message}
use iperf.Results.Report.{result_slots, send_results}
use iperf.Results.Receive.{get_results}
use iperf.Results.Exchange.{both_steps, both_steps_ok, both_steps_failed, exchange_results}
use iperf.Results.Refusing.{accepts, get_results-accepts}

module _ (D : Double) where
  -- The server's two directions: what it is sent and what it sends.
  abbrev pub Mail : Type 0
  Mail = Option (Message D) × Option (Message D)

  abbrev pub read_mail : Mail → Option (Message D) × Mail
  read_mail (arrived, sent) = (arrived, (none, sent))

  abbrev pub send_mail : Message D → Mail → Bool × Mail
  send_mail j (arrived, sent) = (true, (arrived, some j))

  -- The client's connection: the server's test and what is under way to it.
  abbrev pub Peer : Type 0
  Peer = IperfTest D × Option (Message D)

  abbrev pub write_to_server : Message D → Peer → Bool × Peer
  write_to_server j (s, mail) = (true, (s, some j))

  abbrev pub wait_for_server : Peer → Option (Message D) × Peer
  unfolding exchange_results
  wait_for_server (s, mail) =
      let (ok, (s', (arrived, sent))) = exchange_results D send_mail read_mail (s, (mail, none)) in
      (sent, (s', none))

  abbrev pub message_of : IperfTest D → Message D
  unfolding result_slots
  message_of t = build (result_slots D t)

  -- The server's test when it sends: with the client's results stored.
  abbrev pub after_reading : IperfTest D → Option (Message D) → IperfTest D
  unfolding get_results
  after_reading s mail = (get_results D read_mail (s, (mail, none))).1.0

  -- `get_results` uses the connection for the one read only.
  get_results_connection :
      {W : Type 0} (json_read : W → Option (Message D) × W) (t : IperfTest D) (w : W)
      → (get_results D json_read (t, w)).1.1 ≡ (json_read w).1
  unfolding get_results
  get_results_connection json_read t w = elim (Option-cases (json_read w).0) [
    | inl e ↦ rw (get_results, e)
    | inr (j, e) ↦ rw (get_results, e)
  ]

  server_exchange :
      (s : IperfTest D) (w : Mail)
      → s.role ≡ server
      → exchange_results D send_mail read_mail (s, w)
        ≡ both_steps (get_results D read_mail) (send_results D send_mail) (s, w)
  unfolding exchange_results
  server_exchange s w r = rw (exchange_results, r)

  wait_for_server-accepts :
      (s : IperfTest D) (mail : Option (Message D))
      → s.role ≡ server
      → (wait_for_server (s, mail)).0
        ≡ (if accepts D mail s.streams then some (message_of (after_reading s mail)) else none)
  unfolding wait_for_server send_results
  wait_for_server-accepts s mail r =
      let g = get_results D read_mail (s, (mail, none)) in
      let both = server_exchange s (mail, none) r in
      let ok = get_results-accepts D read_mail s (mail, none) in
      let connection = get_results_connection read_mail s (mail, none) in
      ap (λ z. z.1.1.1) both ∙ elim (Bool-cases g.0) [
        | inl e ↦
            let accepted : accepts D mail s.streams ≡ true = sym ok ∙ e in
            ap (λ z. z.1.1.1)
              (both_steps_ok (get_results D read_mail) (send_results D send_mail) (s, (mail, none))
                e)
            ∙ sym (ap (λ b. if b then some (message_of (after_reading s mail)) else none) accepted)
        | inr e ↦
            let refused : accepts D mail s.streams ≡ false = sym ok ∙ e in
            ap (λ z. z.1.1.1)
              (both_steps_failed (get_results D read_mail) (send_results D send_mail)
                (s, (mail, none)) e)
            ∙ ap (λ z. z.1) connection
            ∙ sym (ap (λ b. if b then some (message_of (after_reading s mail)) else none) refused)
      ]

  either_reply :
      (b : Bool) (reply : Message D) (c : IperfTest D)
      → accepts D (if b then some reply else none) c.streams
        ≡ (b && accepts D (some reply) c.streams)
  either_reply true reply c = refl
  either_reply false reply c = refl

  client_exchange :
      (c : IperfTest D) (w : Peer)
      → c.role ≡ client
      → exchange_results D write_to_server wait_for_server (c, w)
        ≡ both_steps (send_results D write_to_server) (get_results D wait_for_server) (c, w)
  unfolding exchange_results wait_for_server
  client_exchange c w r = rw (exchange_results, r)

  -- A client exchanges results with a server over a working connection: it succeeds exactly if the server
  -- accepts the client's message and the client accepts the message of the server, which the server makes
  -- after it has stored what the client sent. A server that refuses sends nothing, so the client fails too.
  pub exchange_results_agree :
      (c s : IperfTest D)
      → c.role ≡ client
      → s.role ≡ server
      → (exchange_results D write_to_server wait_for_server (c, (s, none))).0 ≡ (
          accepts D (some (message_of c)) s.streams
          && accepts D (some (message_of (after_reading s (some (message_of c))))) c.streams)
  unfolding send_results
  exchange_results_agree c s rc rs =
      let m = message_of c in
      let reply = message_of (after_reading s (some m)) in
      let steps =
        both_steps_ok (send_results D write_to_server) (get_results D wait_for_server)
          (c, (s, none)) refl in
      ap (λ z. z.0) (client_exchange c (s, none) rc ∙ steps)
      ∙ get_results-accepts D wait_for_server c (s, some m)
      ∙ ap (λ o. accepts D o c.streams) (wait_for_server-accepts s (some m) rs)
      ∙ either_reply (accepts D (some m) s.streams) reply c
