-- ===== src/Results/Lookup.antt =====
-- src/iperf_api.c, `get_results`: the streams of a test by their ids, and what the loop over the objects
-- of a message does to each.
use iperf.Base.{
  ◌≡◌, ap, ◌∙◌, sym, Bool, true, false, Option, none, some, List, [], ◌∷◌, if◌then◌else◌, arith,
  inl, inr, Bool-cases, ◌≢◌,
}
use iperf.Base.Int.{ℤ, eqb_ℤ, eqb_ℤ_iff}
use iperf.Results.{Double, IperfStream}
use iperf.Results.Receive.{
  StreamReport, store_report, store_as_sender, store_as_receiver, find_and_store,
}

module _ (D : Double) where
  -- The stream that a report with that id reaches.
  abbrev pub lookup : ℤ → List (IperfStream D) → Option (IperfStream D)
  lookup i [] = none
  lookup i (sp ∷ sps) = if eqb_ℤ sp.id i then some sp else lookup i sps

  store_report-id :
      (q : Bool) (r : StreamReport D) (sp : IperfStream D) → (store_report D q r sp).id ≡ sp.id
  unfolding store_report store_as_sender store_as_receiver
  store_report-id q r sp = ground arith

  pub lookup_here :
      (i : ℤ) (sp : IperfStream D) (sps : List (IperfStream D))
      → eqb_ℤ sp.id i ≡ true
      → lookup i (sp ∷ sps) ≡ some sp
  lookup_here i sp sps e = rw e

  pub lookup_there :
      (i : ℤ) (sp : IperfStream D) (sps : List (IperfStream D))
      → eqb_ℤ sp.id i ≡ false
      → lookup i (sp ∷ sps) ≡ lookup i sps
  lookup_there i sp sps e = rw e

  pub not_equal : (x y : ℤ) → y ≢ x → eqb_ℤ x y ≡ false
  not_equal x y n = elim (Bool-cases (eqb_ℤ x y)) [
    | inl e ↦ absurd (n (sym ((eqb_ℤ_iff x y).0 e)))
    | inr f ↦ f
  ]

  -- The stream that was found takes the report, and every other keeps its values.
  pub lookup-find_and_store :
      (q : Bool) (r : StreamReport D) (sp : IperfStream D) (sps : List (IperfStream D))
      → lookup r.id sps ≡ some sp
      → (sps' : List (IperfStream D)) × (find_and_store D q r sps ≡ some sps')
        × (lookup r.id sps' ≡ some (store_report D q r sp))
        × ((i : ℤ) → i ≢ r.id → lookup i sps' ≡ lookup i sps)
  unfolding find_and_store
  lookup-find_and_store q r sp [] h = absurd cc
  lookup-find_and_store q r sp (x ∷ sps) h = elim (Bool-cases (eqb_ℤ x.id r.id)) [
    | inl e ↦
        let same : x ≡ sp = (let h' = lookup_here r.id x sps e in cc) in
        let x' : IperfStream D = store_report D q r x in
        let e' : eqb_ℤ x'.id r.id ≡ true = rw (store_report-id q r x, e) in
        (
          x' ∷ sps,
          rw e,
          lookup_here r.id x' sps e' ∙ ap (λ y. some (store_report D q r y)) same,
          λ i n.
              let away = not_equal x.id i (λ k. n (k ∙ (eqb_ℤ_iff x.id r.id).0 e)) in
              let away' : eqb_ℤ x'.id i ≡ false = rw (store_report-id q r x, away) in
              lookup_there i x' sps away' ∙ sym (lookup_there i x sps away),
        )
    | inr n ↦
        let (sps', f, l, o) =
          lookup-find_and_store q r sp sps (sym (lookup_there r.id x sps n) ∙ h) in
        (
          x ∷ sps',
          rw (n, f),
          lookup_there r.id x sps' n ∙ l,
          λ i k. ap (λ rest. if eqb_ℤ x.id i then some x else rest) (o i k),
        )
  ]
