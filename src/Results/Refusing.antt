-- ===== src/Results/Refusing.antt =====
-- src/iperf_api.c: which messages `get_results` accepts.
use Prim.Native.String.{String}
use iperf.Base.{
  ◌≡◌, refl, ap, ◌∙◌, sym, Bool, true, false, ◌&&◌, ◌||◌, Option, none, some, List, [], ◌∷◌, arith,
  inl, inr, Option-cases, Bool-cases,
}
use iperf.Base.Int.{ℤ, eqb_ℤ, to_int}
use iperf.Test.{Mode}
use iperf.Results.{
  Double, IperfStream, IperfTest, StreamObject, Message, iestreamid, ierecvresults, entry_of,
  number_of, item_array,
}
use iperf.Json.{get_object_item, and_then}
use iperf.Results.Receive.{
  StreamReport, read_stream, store_report, store_as_sender, store_as_receiver, find_and_store,
  take_stream, take_streams, quic_client, get_results, take_message, take_heads, take_array, heads,
  take_has_retransmits,
}

abbrev is_there : {A : Type 0} → Option A → Bool
is_there none = false
is_there (some _) = true

abbrev same_bool : Bool → Bool → Bool
same_bool true b = b
same_bool false true = false
same_bool false false = true

and_assoc : (a b c d : Bool) → ((a && b && c) && d) ≡ (a && (b && c && d))
and_assoc true b c d = ground arith
and_assoc false b c d = refl

module _ (D : Double) where
  abbrev there : String → StreamObject D → Bool
  there key j = is_there (entry_of D key j)

  -- The numbers that a stream's object must have; of the omitted errors and packets both or none.
  abbrev pub is_complete : StreamObject D → Bool
  is_complete j =
      there "id" j
      && there "bytes" j
      && there "retransmits" j
      && there "jitter" j
      && there "errors" j
      && there "packets" j
      && same_bool (there "omitted_errors" j) (there "omitted_packets" j)

  abbrev pub has_id : ℤ → List (IperfStream D) → Bool
  has_id i [] = false
  has_id i (sp ∷ sps) = eqb_ℤ sp.id i || has_id i sps

  abbrev pub names : Option D.Carrier → List (IperfStream D) → Bool
  names none sps = false
  names (some x) sps = has_id (to_int (D.value_int x)) sps

  abbrev pub names_stream : StreamObject D → List (IperfStream D) → Bool
  names_stream j sps = names (entry_of D "id" j) sps

  abbrev pub all_accepted : List (StreamObject D) → List (IperfStream D) → Bool
  all_accepted [] sps = true
  all_accepted (j ∷ js) sps = is_complete j && names_stream j sps && all_accepted js sps

  read_stream-is_complete : (j : StreamObject D) → is_there (read_stream D j) ≡ is_complete j
  unfolding read_stream
  read_stream-is_complete j = ground arith

  find_and_store-has_id :
      (q : Bool) (r : StreamReport D) (sps : List (IperfStream D))
      → is_there (find_and_store D q r sps) ≡ has_id r.id sps
  unfolding find_and_store
  find_and_store-has_id q r [] = refl
  find_and_store-has_id q r (sp ∷ sps) = ground (arith, find_and_store-has_id q r sps)

  SameIds : List (IperfStream D) → List (IperfStream D) → Type 0
  SameIds sps sps' = (i : ℤ) → has_id i sps' ≡ has_id i sps

  names-SameIds :
      (o : Option D.Carrier) (sps sps' : List (IperfStream D))
      → SameIds sps sps'
      → names o sps' ≡ names o sps
  unfolding SameIds
  names-SameIds none sps sps' h = refl
  names-SameIds (some x) sps sps' h = h (to_int (D.value_int x))

  all_accepted-SameIds :
      (js : List (StreamObject D)) (sps sps' : List (IperfStream D))
      → SameIds sps sps'
      → all_accepted js sps' ≡ all_accepted js sps
  all_accepted-SameIds [] sps sps' h = refl
  all_accepted-SameIds (j ∷ js) sps sps' h =
      ap (λ b. is_complete j && b && all_accepted js sps')
        (names-SameIds (entry_of D "id" j) sps sps' h)
      ∙ ap (λ b. is_complete j && names_stream j sps && b) (all_accepted-SameIds js sps sps' h)

  store_report-id :
      (q : Bool) (r : StreamReport D) (sp : IperfStream D) → (store_report D q r sp).id ≡ sp.id
  unfolding store_report store_as_sender store_as_receiver
  store_report-id q r sp = ground arith

  find_and_store-SameIds :
      (q : Bool) (r : StreamReport D) (sps sps' : List (IperfStream D))
      → find_and_store D q r sps ≡ some sps'
      → SameIds sps sps'
  unfolding find_and_store SameIds
  find_and_store-SameIds q r [] sps' h i = absurd cc
  find_and_store-SameIds q r (sp ∷ sps) sps' h i = elim (Bool-cases (eqb_ℤ sp.id r.id)) [
    | inl here ↦
        let e : store_report D q r sp ∷ sps ≡ sps' =
          (let f : find_and_store D q r (sp ∷ sps) ≡ some (store_report D q r sp ∷ sps) = rw here in
            cc) in
        ap (has_id i) (sym e) ∙ ap (λ z. eqb_ℤ z i || has_id i sps) (store_report-id q r sp)
    | inr there' ↦ elim (Option-cases (find_and_store D q r sps)) [
      | inl e ↦ absurd (let f : find_and_store D q r (sp ∷ sps) ≡ none = rw (there', e) in cc)
      | inr (rest, e) ↦
          let f : sp ∷ rest ≡ sps' =
            (let g : find_and_store D q r (sp ∷ sps) ≡ some (sp ∷ rest) = rw (there', e) in cc) in
          ap (has_id i) (sym f)
          ∙ ap (λ b. eqb_ℤ sp.id i || b) (find_and_store-SameIds q r sps rest e i)
    ]
  ]

  read_stream-id :
      (j : StreamObject D) (r : StreamReport D) (sps : List (IperfStream D))
      → read_stream D j ≡ some r
      → names_stream j sps ≡ has_id r.id sps
  unfolding read_stream
  read_stream-id j r sps h = ground arith

  -- A round by what the object and the streams say.
  take_stream_incomplete :
      (j : StreamObject D) (ok : Bool) (t : IperfTest D)
      → read_stream D j ≡ none
      → take_stream D j (ok, t) ≡ (false, record t { i_errno = ierecvresults })
  unfolding take_stream
  take_stream_incomplete j ok t e = rw (take_stream, e)

  take_stream_unknown :
      (j : StreamObject D) (ok : Bool) (t : IperfTest D) (r : StreamReport D)
      → read_stream D j ≡ some r
      → find_and_store D (quic_client D t) r t.streams ≡ none
      → take_stream D j (ok, t) ≡ (false, record t { i_errno = iestreamid })
  unfolding take_stream
  take_stream_unknown j ok t r e f = rw (take_stream, e, f)

  take_stream_stored :
      (j : StreamObject D) (ok : Bool) (t : IperfTest D) (r : StreamReport D)
      (sps : List (IperfStream D))
      → read_stream D j ≡ some r
      → find_and_store D (quic_client D t) r t.streams ≡ some sps
      → take_stream D j (ok, t) ≡ (ok, record t { streams = sps })
  unfolding take_stream
  take_stream_stored j ok t r sps e f = rw (take_stream, e, f)

  take_stream-accepts :
      (j : StreamObject D) (ok : Bool) (t : IperfTest D)
      → let (ok', t') = take_stream D j (ok, t) in
        (ok' ≡ (ok && is_complete j && names_stream j t.streams)) × SameIds t.streams t'.streams
  unfolding SameIds
  take_stream-accepts j ok t = elim (Option-cases (read_stream D j)) [
    | inl e ↦
        let out = take_stream_incomplete j ok t e in
        let c : is_complete j ≡ false = sym (read_stream-is_complete j) ∙ ap is_there e in
        (ap (λ z. z.0) out ∙ ground (arith, c), λ i. ap (λ z. has_id i z.1.streams) out)
    | inr (r, e) ↦
        let c : is_complete j ≡ true = sym (read_stream-is_complete j) ∙ ap is_there e in
        let n = read_stream-id j r t.streams e in
        elim (Option-cases (find_and_store D (quic_client D t) r t.streams)) [
          | inl f ↦
              let out = take_stream_unknown j ok t r e f in
              let h : has_id r.id t.streams ≡ false =
                sym (find_and_store-has_id (quic_client D t) r t.streams) ∙ ap is_there f in
              (ap (λ z. z.0) out ∙ ground (arith, c, n, h), λ i. ap (λ z. has_id i z.1.streams) out)
          | inr (sps, f) ↦
              let out = take_stream_stored j ok t r sps e f in
              let h : has_id r.id t.streams ≡ true =
                sym (find_and_store-has_id (quic_client D t) r t.streams) ∙ ap is_there f in
              (
                ap (λ z. z.0) out ∙ ground (arith, c, n, h),
                λ i.
                    ap (λ z. has_id i z.1.streams) out
                    ∙ find_and_store-SameIds (quic_client D t) r t.streams sps f i,
              )
        ]
  ]

  -- The loop succeeds exactly if every object is complete and names a stream.
  take_streams-all_accepted :
      (js : List (StreamObject D)) (ok : Bool) (t : IperfTest D)
      → (take_streams D js (ok, t)).0 ≡ (ok && all_accepted js t.streams)
  unfolding take_streams
  take_streams-all_accepted [] ok t = ground arith
  take_streams-all_accepted (j ∷ js) ok t =
      let r = take_stream D j (ok, t) in
      let (here, same) = take_stream-accepts j ok t in
      take_streams-all_accepted js r.0 r.1
      ∙ ap (λ b. r.0 && b) (all_accepted-SameIds js t.streams r.1.streams same)
      ∙ ap (λ b. b && all_accepted js t.streams) here
      ∙ and_assoc ok (is_complete j) (names_stream j t.streams) (all_accepted js t.streams)

  -- What a message needs: the loads of the processor, the note on retransmits and the streams.
  abbrev pub accepts_streams : Option (List (StreamObject D)) → List (IperfStream D) → Bool
  accepts_streams none sps = false
  accepts_streams (some js) sps = all_accepted js sps

  abbrev pub accepts : Option (Message D) → List (IperfStream D) → Bool
  accepts none sps = false
  accepts (some j) sps =
      is_there (number_of D "cpu_util_total" j)
      && is_there (number_of D "cpu_util_user" j)
      && is_there (number_of D "cpu_util_system" j)
      && is_there (number_of D "sender_has_retransmits" j)
      && accepts_streams (and_then (get_object_item "streams" j) (item_array D)) sps

  take_array-accepts :
      (j : Message D) (o : Option (List (StreamObject D))) (t : IperfTest D)
      → (take_array D j o t).0 ≡ accepts_streams o t.streams
  unfolding take_array
  take_array-accepts j none t = refl
  take_array-accepts j (some js) t = take_streams-all_accepted js true t

  take_has_retransmits-streams :
      (m : Mode) (has : ℤ) (t : IperfTest D) → (take_has_retransmits D m has t).streams ≡ t.streams
  take_has_retransmits-streams m has t = ground arith

  take_heads-accepts :
      (j : Message D) (t : IperfTest D) (o1 o2 o3 o4 : Option D.Carrier)
      → (take_heads D j t (heads D o1 o2 o3 o4)).0 ≡ (
          is_there o1
          && is_there o2
          && is_there o3
          && is_there o4
          && accepts_streams (and_then (get_object_item "streams" j) (item_array D)) t.streams)
  unfolding take_heads
  take_heads-accepts j t none o2 o3 o4 = refl
  take_heads-accepts j t (some a) none o3 o4 = refl
  take_heads-accepts j t (some a) (some b) none o4 = refl
  take_heads-accepts j t (some a) (some b) (some c) none = refl
  take_heads-accepts j t (some a) (some b) (some c) (some h) =
      let has = to_int (D.value_int h) in
      let t' : IperfTest D = record t { remote_cpu_util = (a, b, c) } in
      let o = and_then (get_object_item "streams" j) (item_array D) in
      take_array-accepts j o (take_has_retransmits D t.mode has t')
      ∙ ap (accepts_streams o) (take_has_retransmits-streams t.mode has t')

  -- Whatever the connection gives, `get_results` succeeds exactly if there is a message, it has the loads,
  -- the note on retransmits and the streams, and each stream's object is complete, with both of the
  -- omitted counts or neither, and has the id of a stream of the test.
  pub get_results-accepts :
      {W : Type 0} (json_read : W → Option (Message D) × W) (t : IperfTest D) (w : W)
      → (get_results D json_read (t, w)).0 ≡ accepts (json_read w).0 t.streams
  unfolding get_results take_message
  get_results-accepts json_read t w = elim (Option-cases (json_read w).0) [
    | inl e ↦ rw (get_results, e)
    | inr (j, e) ↦ rw (get_results, e) (take_heads-accepts j t _ _ _ _)
  ]
