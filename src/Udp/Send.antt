-- ===== src/Udp/Send.antt =====
-- src/iperf_udp.c: what a send does to the stream, and how the receiver counts what was sent.
use iperf.Base.{
  ℕ, zero, suc, ◌+◌, ◌<◌, ◌≡◌, refl, subst, true, false, Option, none, some, List, [], ◌∷◌, u64,
  sub64, arith,
}
use iperf.Time.{IperfTime}
use iperf.State.{test_running}
use iperf.Net.{Io, bytes, soft_error, hard_error, Write, got, nwrite}
use iperf.Udp.{
  Double, Header, Settings, Stream, count_packet, put_header, stamp, sent, udp_send, udp_recv,
  received, account, measure_jitter,
}
use iperf.Udp.Wire.{get_header-copy_over}
use iperf.Net.Reading.{nrecv_no_select_whole}

module _ (D : Double) where
  -- The stream after a send: numbers and bytes move only if something was sent.
  abbrev pub SendEffect : Io → Stream D → Stream D → Type 0
  SendEffect (bytes (suc r)) sp sp' =
      (sp'.sequence.packet_count ≡ sp.sequence.packet_count + 1)
      × (sp'.bytes_sent ≡ u64 (sp.bytes_sent + suc r))
      × (sp'.bytes_sent_this_interval ≡ u64 (sp.bytes_sent_this_interval + suc r))
  SendEffect _ sp sp' =
      (sp'.sequence ≡ sp.sequence)
      × (sp'.bytes_sent ≡ sp.bytes_sent)
      × (sp'.bytes_sent_this_interval ≡ sp.bytes_sent_this_interval)

  sent-SendEffect :
      (io : Io) (set : Settings) (now : IperfTime) (sp : Stream D)
      → sp.sequence.packet_count < 9223372036854775807
      → SendEffect io sp
          (sent D (sub64 (stamp D set now sp).sequence.packet_count 1) io (stamp D set now sp)).1
  unfolding sent stamp
  sent-SendEffect (bytes (suc r)) set now sp h = (omega arith, refl, refl)
  sent-SendEffect (bytes zero) set now sp h = (ground arith, refl, refl)
  sent-SendEffect soft_error set now sp h = (ground arith, refl, refl)
  sent-SendEffect hard_error set now sp h = (ground arith, refl, refl)

  -- With fewer than 2^63 - 1 packets sent before: `iperf_udp_send`, when it returns, has moved to
  -- the next packet number and counted the bytes if something was sent, and has left the numbers
  -- and the counts alone otherwise, so that the number is used again.
  pub udp_send-SendEffect :
      (set : Settings) (now : IperfTime) (script : List Write) (sp : Stream D) (io : Io)
      (sp' : Stream D) (wire : List ℕ)
      → sp.sequence.packet_count < 9223372036854775807
      → udp_send D set now script sp ≡ some (io, sp', wire)
      → SendEffect io sp sp'
  unfolding udp_send
  udp_send-SendEffect set now script sp io sp' wire h e =
      split (nwrite (stamp D set now sp).buffer set.blksize script) refl
    where
      old : ℕ
      old = sub64 (stamp D set now sp).sequence.packet_count 1

      split :
          (o : Option (Io × List ℕ))
          → nwrite (stamp D set now sp).buffer set.blksize script ≡ o
          → SendEffect io sp sp'
      split none q = absurd (ground (arith, e, q))
      split (some (j, w)) q =
          subst (λ (r : Io × Stream D). SendEffect r.0 sp r.1) (ground (arith, e, q))
            (sent-SendEffect j set now sp h)

  -- Where counters are wide and a datagram is read whole, and the receiver's highest number is the
  -- sender's: the receiver of the datagram that the sender stamps next has the sender's new number
  -- as its highest, and counts nothing as lost or out of order.
  pub udp_recv-stamp :
      (set : Settings) (k : ℕ) (now arrival : IperfTime) (sp rp : Stream D)
      → set.udp_counters_64bit ≡ true
      → set.skip_rx_copy ≡ false
      → set.blksize ≡ suc k
      → suc k < 2147483648
      → now.secs < 4294967296
      → now.usecs < 4294967296
      → sp.sequence.packet_count < 9223372036854775807
      → rp.sequence.packet_count ≡ sp.sequence.packet_count
      → (rp' : Stream D) × (udp_recv D set test_running arrival
            (got (suc k) (stamp D set now sp).buffer ∷ [])
            rp
          ≡ some (bytes (suc k), rp'))
        × (rp'.sequence ≡ record (rp.sequence) { packet_count = sp.sequence.packet_count + 1 })
  unfolding udp_recv received account measure_jitter stamp count_packet
  udp_recv-stamp set k now arrival sp rp wide whole size small s u fit same =
      let h : Header = record { sent_time = now; pcount = u64 (sp.sequence.packet_count + 1) } in
      let read = nrecv_no_select_whole k (put_header true h sp.buffer) [] (omega arith) in
      let back = get_header-copy_over h sp.buffer rp.buffer s u (omega arith) in
      rw (wide, whole, size, read, udp_recv) (_, refl, rw (wide, back) (ground arith))
