-- ===== src/Options/Directions.antt =====
-- src/iperf_api.c: the options of the role and of the direction, in any order, and what --nstreams does.
use iperf.Base.{
  ◌≡◌, sym, ap, ◌∙◌, subst, true, Option, none, some, List, [], ◌∷◌, inl, inr, arith, Option-cases,
}
use iperf.Test.{Test, Build, Protocol}
use iperf.Test.Roles.{
  IsConsistent, set_test_role, set_test_reverse, set_test_bidirectional, set_protocol,
  check_sender_has_retransmits,
}
use iperf.Test.Params.{try_protocol}
use iperf.Options.{Argument, Flag, Features, Parsing, nstreams}
use iperf.Options.Outcome.{Outcome, otherwise}
use iperf.Options.Parse.{
  parse_bitrate, parse_nstreams, parse_window, parse_affinity, parse_direction, parse_amount,
  parse_socket, parse_setting, parse_option, parse_options,
}
use iperf.Options.Finish.{Outside, finish, parse_arguments}
use iperf.Options.Bounds.{and_then_set-inl, IsReady, finish-IsReady}

-- The fields that tie role and direction together.
abbrev pub KeepsMode : Test → Test → Type 0
KeepsMode t t' =
    (t'.role ≡ t.role)
    × (t'.mode ≡ t.mode)
    × (t'.reverse ≡ t.reverse)
    × (t'.bidirectional ≡ t.bidirectional)

pub inl_inj : {a b : Parsing} → ◌≡◌ {A = Outcome} (inl a) (inl b) → a ≡ b
inl_inj h = cc

pub KeepsMode-IsConsistent : (t t' : Test) → KeepsMode t t' → IsConsistent t → IsConsistent t'
KeepsMode-IsConsistent t t' k c = ground arith

pub try_protocol-KeepsMode :
    (b : Build) (p : Protocol) (t : Test) → KeepsMode t (try_protocol b true p t)
unfolding set_protocol check_sender_has_retransmits
try_protocol-KeepsMode b p t = ground arith

parse_amount-KeepsMode :
    (f : Features) (flag : Flag) (arg : Argument) (p p' : Parsing)
    → parse_amount f flag arg p ≡ some (inl p')
    → KeepsMode p.test p'.test
unfolding parse_amount parse_nstreams parse_bitrate parse_window
parse_amount-KeepsMode f flag arg p p' h = ground arith

parse_socket-KeepsMode :
    (f : Features) (flag : Flag) (arg : Argument) (p p' : Parsing)
    → parse_socket f flag arg p ≡ some (inl p')
    → KeepsMode p.test p'.test
unfolding parse_socket parse_affinity
parse_socket-KeepsMode f flag arg p p' h = ground arith

parse_setting-KeepsMode :
    (f : Features) (flag : Flag) (arg : Argument) (p p' : Parsing)
    → parse_setting f flag arg p ≡ inl p'
    → KeepsMode p.test p'.test
unfolding parse_setting
parse_setting-KeepsMode f flag arg p p' h = ground arith

parse_direction-IsConsistent :
    (f : Features) (flag : Flag) (arg : Argument) (p p' : Parsing)
    → IsConsistent p.test
    → parse_direction f flag arg p ≡ some (inl p')
    → IsConsistent p'.test
unfolding parse_direction set_test_role set_test_reverse set_test_bidirectional set_protocol
parse_direction-IsConsistent f flag arg p p' c h = ground arith

first_of : {o : Option Outcome} {x : Outcome} (rest : Outcome) → o ≡ some x → otherwise o rest ≡ x
first_of rest e = ap (λ z. otherwise z rest) e

passed : {o : Option Outcome} (rest : Outcome) → o ≡ none → otherwise o rest ≡ rest
passed rest e = ap (λ z. otherwise z rest) e

-- What holds after each of the parts of the `switch` holds after an option.
pub option-cases :
    (Q : Parsing → Type 0) (f : Features) (flag : Flag) (arg : Argument) (p p' : Parsing)
    → (parse_direction f flag arg p ≡ some (inl p') → Q p')
    → (parse_amount f flag arg p ≡ some (inl p') → Q p')
    → (parse_socket f flag arg p ≡ some (inl p') → Q p')
    → (parse_setting f flag arg p ≡ inl p' → Q p')
    → parse_option f flag arg p ≡ inl p'
    → Q p'
unfolding parse_option
option-cases Q f flag arg p p' direction amount socket setting h =
    let last = parse_setting f flag arg p in
    let third = otherwise (parse_socket f flag arg p) last in
    let second = otherwise (parse_amount f flag arg p) third in
    elim (Option-cases (parse_direction f flag arg p)) [
      | inr (o, e) ↦ direction (e ∙ ap some (sym (first_of second e) ∙ h))
      | inl e ↦ elim (Option-cases (parse_amount f flag arg p)) [
        | inr (o, e') ↦ amount (e' ∙ ap some (sym (first_of third e') ∙ sym (passed second e) ∙ h))
        | inl e' ↦ elim (Option-cases (parse_socket f flag arg p)) [
          | inr (o, e'') ↦ socket (
              e''
              ∙ ap some
                  (sym (first_of last e'') ∙ sym (passed third e') ∙ sym (passed second e) ∙ h))
          | inl e'' ↦
              setting (sym (passed last e'') ∙ sym (passed third e') ∙ sym (passed second e) ∙ h)
        ]
      ]
    ]

parse_option-IsConsistent :
    (f : Features) (flag : Flag) (arg : Argument) (p p' : Parsing)
    → IsConsistent p.test
    → parse_option f flag arg p ≡ inl p'
    → IsConsistent p'.test
parse_option-IsConsistent f flag arg p p' c h =
    let keeps = λ (k : KeepsMode p.test p'.test). KeepsMode-IsConsistent p.test p'.test k c in
    option-cases (λ q. IsConsistent q.test) f flag arg p p'
      (parse_direction-IsConsistent f flag arg p p' c)
      (λ e. keeps (parse_amount-KeepsMode f flag arg p p' e))
      (λ e. keeps (parse_socket-KeepsMode f flag arg p p' e))
      (λ e. keeps (parse_setting-KeepsMode f flag arg p p' e)) h

parse_options-IsConsistent :
    (f : Features) (args : List (Flag × Argument)) (p p' : Parsing)
    → IsConsistent p.test
    → parse_options f args p ≡ inl p'
    → IsConsistent p'.test
unfolding parse_options
parse_options-IsConsistent f [] p p' c h =
    subst (λ (q : Parsing). IsConsistent q.test) (inl_inj h) c
parse_options-IsConsistent f ((flag, arg) ∷ rest) p p' c h =
    let (q, e, h') = and_then_set-inl (parse_option f flag arg p) (parse_options f rest) p' h in
    parse_options-IsConsistent f rest q p' (parse_option-IsConsistent f flag arg p q c e) h'

-- A command line that is accepted, in whatever order its options stand, gives a test whose mode is the one of its
-- role and direction, as long as the test that it starts from has that, and which is ready to run.
pub parse_arguments-IsReady :
    (f : Features) (out : Outside) (args : List (Flag × Argument)) (p p' : Parsing)
    → IsConsistent p.test
    → parse_arguments f out args p ≡ inl p'
    → IsReady p' × IsConsistent p'.test
unfolding parse_arguments
parse_arguments-IsReady f out args p p' c h =
    let (q, e, h') = and_then_set-inl (parse_options f args p) (finish out) p' h in
    let (ready, role, mode, reverse, bidirectional) = finish-IsReady out q p' h' in
    (
      ready,
      KeepsMode-IsConsistent q.test p'.test (role, mode, reverse, bidirectional)
          (parse_options-IsConsistent f args p q c e),
    )

-- On a system with streams of SCTP the option --nstreams is taken for a rate too: where it succeeds, its argument
-- was read as a rate, which the test then has, with the flag that keeps the default rate of UDP away.
pub parse_nstreams-rate :
    (f : Features) (arg : Argument) (p p' : Parsing)
    → f.have_ostreams ≡ true
    → parse_option f nstreams arg p ≡ inl p'
    → (arg.rate ≡ some p'.test.settings.rate) × (p'.rate_flag ≡ true)
unfolding parse_option parse_direction parse_amount parse_nstreams parse_bitrate
parse_nstreams-rate f arg p p' h e = ground arith
