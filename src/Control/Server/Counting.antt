-- ===== src/Control/Server/Counting.antt =====
-- src/iperf_server_api.c: which streams a server accepts. Connections wait in a queue, and every call
-- succeeds.
use iperf.Base.{
  ℕ, zero, suc, ◌+◌, ◌-◌, ◌≤◌, ◌≡◌, Bool, true, false, Option, none, some, List, [], ◌∷◌, ◌++◌,
  drop, arith, inl, inr, ◌⊎◌, Bool-cases, ◌==◌, ==_iff,
}
use iperf.Control.Server.Streams.{Accepted, take_slot, all_accepted, Listener, is_set}

-- The connections that wait, and the streams made of earlier ones with their direction, true for one that
-- sends.
pub record Queue : Type 0 where
  pub waiting : List ℕ
  pub made : List (ℕ × Bool)

abbrev pub holding : List ℕ → List (ℕ × Bool) → Queue
holding ss made = record { waiting = ss; made = made }

abbrev pop : List ℕ → Option ℕ
pop [] = none
pop (s ∷ ss) = some s

abbrev pub queue : Listener Queue
queue = record {
  accept = λ (c, q). (pop q.waiting, (c, record q { waiting = drop 1 q.waiting }));
  common_sockopts = λ s cw. (true, cw);
  is_closed = λ s q. false;
  set_user_timeout = λ s q. (true, q);
  set_congestion = λ s q. (is_set, q);
  note_congestion_used = λ s q. (true, q);
  new_stream = λ s flag (c, q). (true, (c, record q { made = q.made ++ ((s, flag) ∷ []) }));
  on_new_stream = λ q. q;
  close = λ s q. q;
  close_listeners = λ cw. (true, cw);
  start_threads = λ cw. (true, cw);
}

abbrev pub times : ℕ → Bool → List Bool
times zero b = []
times (suc n) b = b ∷ times n b

-- The directions of the streams that are still wanted, in the order in which they are given.
unfoldable pub wanted : Accepted → List Bool
wanted a =
    times (a.streams_to_rec - a.rec_streams_accepted) false
    ++ times (a.streams_to_send - a.send_streams_accepted) true

abbrev pub IsWithin : Accepted → Type 0
IsWithin a =
    (a.rec_streams_accepted ≤ a.streams_to_rec) × (a.send_streams_accepted ≤ a.streams_to_send)

-- Each connection with its direction, as long as there are both.
abbrev pub pairs : List ℕ → List Bool → List (ℕ × Bool)
pairs [] bs = []
pairs (s ∷ ss) [] = []
pairs (s ∷ ss) (b ∷ bs) = (s, b) ∷ pairs ss bs

-- The next slot is the first direction wanted.
pub data NextSlot (a : Accepted) : Type 0 where
  full : wanted a ≡ [] → take_slot a ≡ (none, a) → all_accepted a ≡ true → NextSlot a
  free :
      (flag : Bool) (a' : Accepted)
      → wanted a ≡ flag ∷ wanted a'
      → take_slot a ≡ (some flag, a')
      → IsWithin a'
      → NextSlot a

-- Either all are there, or one less is missing after the next.
abbrev Missing : ℕ → ℕ → Type 0
Missing m n =
    (((m == n) ≡ true) × (n - m ≡ 0))
    ⊎ ((k : ℕ) × ((m == n) ≡ false) × (n - m ≡ suc k) × (n - (m + 1) ≡ k) × (m + 1 ≤ n))

missing : (m n : ℕ) → m ≤ n → Missing m n
missing m n h = elim (Bool-cases (m == n)) [
  | inl e ↦ inl (e, omega (arith, (==_iff m n).0 e))
  | inr e ↦ inr (n - m - 1, e, ground arith, omega arith, ground arith)
]

pub take_slot-NextSlot : (a : Accepted) → IsWithin a → NextSlot a
unfolding take_slot wanted
take_slot-NextSlot a (wr, ws) = elim (missing a.rec_streams_accepted a.streams_to_rec wr) [
  | inr (k, e, before, behind, less) ↦
      free false (record a { rec_streams_accepted = a.rec_streams_accepted + 1 })
        (rw (before, behind)) (rw e) (less, ws)
  | inl (e, none_left) ↦ elim (missing a.send_streams_accepted a.streams_to_send ws) [
    | inr (k, e', before, behind, less) ↦
        free true (record a { send_streams_accepted = a.send_streams_accepted + 1 })
          (rw (none_left, before, behind)) (rw (e, e')) (wr, less)
    | inl (e', none_left') ↦ full (rw (none_left, none_left')) (rw (e, e')) (rw (e, e'))
  ]
]

pub all_accepted-wanted : (a : Accepted) → all_accepted a ≡ true → wanted a ≡ []
unfolding wanted
all_accepted-wanted a h =
    let rec_done : a.streams_to_rec - a.rec_streams_accepted ≡ 0 = ground (arith, h) in
    let send_done : a.streams_to_send - a.send_streams_accepted ≡ 0 = ground (arith, h) in
    rw (rec_done, send_done)
