-- ===== src/Results/Storing.antt =====
-- src/iperf_api.c: the loop of `get_results` over the objects that `send_results` makes of the streams of
-- the other end.
use iperf.Base.{
  ◌≡◌, ◌≢◌, refl, sym, ◌∙◌, ap, Bool, true, none, some, List, [], ◌∷◌, map, inl, inr, Bool-cases,
  All, subst,
}
use iperf.Base.Int.{ℤ, eqb_ℤ, eqb_ℤ_iff}
use iperf.Results.{Double, IperfStream, IperfTest}
use iperf.Results.Report.{stream_object}
use iperf.Results.Receive.{store_report, find_and_store, take_stream, take_streams, quic_client}
use iperf.Results.Lookup.{lookup, lookup_here, lookup_there, not_equal, lookup-find_and_store}
use iperf.Results.Reading.{KeepsIntegers, Fits, report, read_stream-stream_object}

module _ (D : Double) where
  -- No two streams have the same id.
  abbrev pub AreDistinct : List (IperfStream D) → Type 0
  AreDistinct [] = Unit
  AreDistinct (sp ∷ sps) = (lookup D sp.id sps ≡ none) × AreDistinct sps

  -- Every stream of the one list has its counterpart in the other.
  abbrev pub IsKnown : List (IperfStream D) → List (IperfStream D) → Type 0
  IsKnown sps others =
      All (λ sp. (other : IperfStream D) × (lookup D sp.id others ≡ some other)) sps

  -- The streams `after` are `others` with each report of `sps` in its place.
  abbrev pub HasStored :
      Bool → ℤ → List (IperfStream D) → List (IperfStream D) → List (IperfStream D) → Type 0
  HasStored q has sps others after =
      ((i : ℤ) (sp other : IperfStream D)
        → lookup D i sps ≡ some sp
        → lookup D i others ≡ some other
        → lookup D i after ≡ some (store_report D q (report D has sp) other))
      × ((i : ℤ) → lookup D i sps ≡ none → lookup D i after ≡ lookup D i others)

  -- Ids that reach different entries differ.
  apart :
      (i j : ℤ) (sps : List (IperfStream D)) (x : IperfStream D)
      → lookup D i sps ≡ some x
      → lookup D j sps ≡ none
      → i ≢ j
  apart i j sps x h n k =
      absurd (let n' : lookup D i sps ≡ none = ap (λ z. lookup D z sps) k ∙ n in cc)

  take_stream_one :
      KeepsIntegers D
      → (has : ℤ) (sp : IperfStream D) (t : IperfTest D) (sps' : List (IperfStream D)) → Fits D sp
      → find_and_store D (quic_client D t) (report D has sp) t.streams ≡ some sps'
      → take_stream D (stream_object D has sp) (true, t) ≡ (true, record t { streams = sps' })
  unfolding take_stream
  take_stream_one keeps has sp t sps' f e =
      rw (take_stream, read_stream-stream_object D keeps has sp f, e)

  take_streams_each :
      KeepsIntegers D
      → (has : ℤ) (sps : List (IperfStream D)) (t : IperfTest D) → All (Fits D) sps
      → AreDistinct sps
      → ((i : ℤ) (sp : IperfStream D)
          → lookup D i sps ≡ some sp
          → (other : IperfStream D) × (lookup D i t.streams ≡ some other))
      → (sps' : List (IperfStream D)) × (take_streams D (map (stream_object D has) sps) (true, t)
          ≡ (true, record t { streams = sps' }))
        × HasStored (quic_client D t) has sps t.streams sps'
  unfolding take_streams
  take_streams_each keeps has [] t f d k =
      (t.streams, refl, (λ i sp other h. absurd cc, λ i h. refl))
  take_streams_each keeps has (sp ∷ sps) t (f, fs) (d, ds) k =
      let q = quic_client D t in
      let (other, found) =
        k sp.id sp (lookup_here D sp.id sp sps ((eqb_ℤ_iff sp.id sp.id).1 refl)) in
      let (sps1, e, here, away) =
        lookup-find_and_store D q (report D has sp) other t.streams found in
      let one = take_stream_one keeps has sp t sps1 f e in
      let (sps', e', (stored, kept)) =
        take_streams_each keeps has sps (record t { streams = sps1 }) fs ds
          (λ i x h.
            let n = apart i sp.id sps x h d in
            let (o, l) = k i x (lookup_there D i sp sps (not_equal D sp.id i n) ∙ h) in
            (o, away i n ∙ l)) in
      (
        sps',
        ap (take_streams D (map (stream_object D has) sps)) one ∙ e',
        (
          λ i x o h1 h2. elim (Bool-cases (eqb_ℤ sp.id i)) [
            | inl same ↦
                let at_sp : sp.id ≡ i = (eqb_ℤ_iff sp.id i).0 same in
                let x_sp : x ≡ sp = (let l = lookup_here D i sp sps same in cc) in
                let o_other : o ≡ other = (let l = ap (λ z. lookup D z t.streams) at_sp in cc) in
                let out : lookup D sp.id sps' ≡ some (store_report D q (report D has sp) other) =
                  kept sp.id d ∙ here in
                rw (x_sp, o_other, sym at_sp, out)
            | inr differ ↦
                let inside = sym (lookup_there D i sp sps differ) ∙ h1 in
                stored i x o inside (away i (apart i sp.id sps x inside d) ∙ h2)
          ],
          λ i h. elim (Bool-cases (eqb_ℤ sp.id i)) [
            | inl same ↦ absurd (let l = lookup_here D i sp sps same in cc)
            | inr differ ↦
                kept i (sym (lookup_there D i sp sps differ) ∙ h)
                ∙ away i (λ z. absurd (let y = (eqb_ℤ_iff sp.id i).1 (sym z) in cc))
          ],
        ),
      )

  -- What holds of every entry holds of the one that an id finds, and the id is its own.
  lookup-All :
      (P : IperfStream D → Type 0) (i : ℤ) (sps : List (IperfStream D)) (sp : IperfStream D)
      → All P sps
      → lookup D i sps ≡ some sp
      → P sp × (sp.id ≡ i)
  lookup-All P i [] sp a h = absurd cc
  lookup-All P i (x ∷ sps) sp (a, as') h = elim (Bool-cases (eqb_ℤ x.id i)) [
    | inl same ↦
        let e : x ≡ sp = (let l = lookup_here D i x sps same in cc) in
        (subst P e a, ap (λ z. z.id) (sym e) ∙ (eqb_ℤ_iff x.id i).0 same)
    | inr differ ↦ lookup-All P i sps sp as' (sym (lookup_there D i x sps differ) ∙ h)
  ]

  pub take_streams-HasStored :
      KeepsIntegers D
      → (has : ℤ) (sps : List (IperfStream D)) (t : IperfTest D) → All (Fits D) sps
      → AreDistinct sps
      → IsKnown sps t.streams
      → (sps' : List (IperfStream D)) × (take_streams D (map (stream_object D has) sps) (true, t)
          ≡ (true, record t { streams = sps' }))
        × HasStored (quic_client D t) has sps t.streams sps'
  take_streams-HasStored keeps has sps t f d k = take_streams_each keeps has sps t f d (λ i sp h.
      let ((other, e), same) = lookup-All _ i sps sp k h in
      (other, ap (λ z. lookup D z t.streams) (sym same) ∙ e))
