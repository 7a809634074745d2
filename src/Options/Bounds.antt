-- ===== src/Options/Bounds.antt =====
-- src/iperf_api.c: what holds of the test that `iperf_parse_arguments` accepts.
use iperf.Base.{◌≡◌, refl, sym, ap, ◌∙◌, true, false, ◌&&◌, ◌||◌, ◌⊎◌, inl, inr, arith, subst}
use iperf.Base.Int.{ℤ, pos, ltb_ℤ}
use iperf.Test.{Protocol, udp, same_protocol}
use iperf.Options.{Parsing}
use iperf.Options.Outcome.{Outcome, between, is_role_client, is_role_server, and_then_set}
use iperf.Options.Finish.{
  Outside, check_roles, default_quic_port, quic_defaults, check_auth, is_some, check_file,
  check_blksize, chosen_blksize, default_rate, bytes_of_file, ends_by_amount, no_duration,
  check_end_conditions, check_role_given, finish_amounts, finish,
}

-- A step that succeeds hands its result on.
pub and_then_set-inl :
    (o : Outcome) (f : Parsing → Outcome) (p' : Parsing)
    → and_then_set o f ≡ inl p'
    → (q : Parsing) × (o ≡ inl q) × (f q ≡ inl p')
and_then_set-inl (inl q) f p' h = (q, refl, h)
and_then_set-inl (inr e) f p' h = absurd cc

-- What the checks look at and no later step changes.
abbrev pub Keeps : Parsing → Parsing → Type 0
Keeps p p' =
    (p'.test.role ≡ p.test.role)
    × (p'.test.protocol ≡ p.test.protocol)
    × (p'.test.mode ≡ p.test.mode)
    × (p'.test.reverse ≡ p.test.reverse)
    × (p'.test.bidirectional ≡ p.test.bidirectional)
    × (p'.test.diskfile_name ≡ p.test.diskfile_name)
    × (p'.server_flag ≡ p.server_flag)
    × (p'.client_flag ≡ p.client_flag)
    × (p'.duration_flag ≡ p.duration_flag)

pub check_roles-Keeps :
    (p p' : Parsing)
    → check_roles p ≡ inl p'
    → Keeps p p'
      × ((is_role_client p.test.role && p.server_flag) ≡ false)
      × ((is_role_server p.test.role && p.client_flag) ≡ false)
unfolding check_roles
check_roles-Keeps p p' h = ground arith

quic_defaults-Keeps : (out : Outside) (p p' : Parsing) → quic_defaults out p ≡ inl p' → Keeps p p'
unfolding quic_defaults default_quic_port
quic_defaults-Keeps out p p' h = ground arith

check_auth-Keeps : (out : Outside) (p p' : Parsing) → check_auth out p ≡ inl p' → Keeps p p'
unfolding check_auth
check_auth-Keeps out p p' h = ground arith

check_file-Keeps :
    (p p' : Parsing)
    → check_file p ≡ inl p'
    → Keeps p p' × ((is_some p.test.diskfile_name && same_protocol p.test.protocol udp) ≡ false)
unfolding check_file
check_file-Keeps p p' h = ground arith

-- A block is of 1 to 1048576 bytes, but of UDP of 16 to 65507, or not positive.
abbrev pub FitsBlock : Protocol → ℤ → Type 0
FitsBlock udp z = (between 16 65507 z ≡ true) ⊎ (ltb_ℤ (pos 0) z ≡ false)
FitsBlock _ z = between 1 1048576 z ≡ true

check_blksize-FitsBlock :
    (p p' : Parsing)
    → check_blksize p ≡ inl p'
    → Keeps p p' × FitsBlock p.test.protocol p'.test.settings.blksize
unfolding check_blksize chosen_blksize
check_blksize-FitsBlock p p' h = ground arith

-- One end condition: an amount of bytes or of blocks, and then no duration, or neither.
abbrev pub EndsOnce : Parsing → Type 0
EndsOnce p =
    ((p.test.settings.bytes ≡ 0) ⊎ (p.test.settings.blocks ≡ 0))
    × ((ends_by_amount p ≡ false) ⊎ ((p.test.duration ≡ pos 0) × (p.duration_flag ≡ false)))

-- Besides what the checks look at, the size of a block stays.
abbrev KeepsBlock : Parsing → Parsing → Type 0
KeepsBlock p p' = Keeps p p' × (p'.test.settings.blksize ≡ p.test.settings.blksize)

default_rate-Keeps : (p : Parsing) → KeepsBlock p (default_rate p)
unfolding default_rate
default_rate-Keeps p = ground arith

bytes_of_file-Keeps : (out : Outside) (p : Parsing) → KeepsBlock p (bytes_of_file out p)
unfolding bytes_of_file
bytes_of_file-Keeps out p = ground arith

no_duration-Keeps :
    (p : Parsing)
    → KeepsBlock p (no_duration p)
      × ((ends_by_amount (no_duration p) ≡ false)
          ⊎ ((no_duration p).duration_flag ≡ true)
          ⊎ ((no_duration p).test.duration ≡ pos 0))
unfolding no_duration
no_duration-Keeps p = ground arith

check_end_conditions-EndsOnce :
    (p p' : Parsing)
    → (ends_by_amount p ≡ false) ⊎ (p.duration_flag ≡ true) ⊎ (p.test.duration ≡ pos 0)
    → check_end_conditions p ≡ inl p'
    → (p ≡ p') × EndsOnce p
unfolding check_end_conditions
check_end_conditions-EndsOnce p p' d h = ground arith

check_role_given-HasRole :
    (p p' : Parsing)
    → check_role_given p ≡ inl p'
    → (p ≡ p') × ((is_role_client p.test.role || is_role_server p.test.role) ≡ true)
unfolding check_role_given
check_role_given-HasRole p p' h = ground arith

Keeps-trans : (p q r : Parsing) → Keeps p q → Keeps q r → Keeps p r
Keeps-trans p q r (a, b, c, d, e, f, g, h, i) (a', b', c', d', e', f', g', h', i') =
    (a' ∙ a, b' ∙ b, c' ∙ c, d' ∙ d, e' ∙ e, f' ∙ f, g' ∙ g, h' ∙ h, i' ∙ i)

-- What a run needs of the options it is given.
pub record IsReady (p : Parsing) : Type 0 where
  pub has_role : (is_role_client p.test.role || is_role_server p.test.role) ≡ true
  pub no_server_flag : (is_role_client p.test.role && p.server_flag) ≡ false
  pub no_client_flag : (is_role_server p.test.role && p.client_flag) ≡ false
  pub no_file_over_udp : (is_some p.test.diskfile_name && same_protocol p.test.protocol udp) ≡ false
  pub block_fits : FitsBlock p.test.protocol p.test.settings.blksize
  pub ends_once : EndsOnce p

finish_amounts-EndsOnce :
    (out : Outside) (p p' : Parsing)
    → finish_amounts out p ≡ inl p'
    → KeepsBlock p p'
      × EndsOnce p'
      × ((is_role_client p'.test.role || is_role_server p'.test.role) ≡ true)
unfolding finish_amounts
finish_amounts-EndsOnce out p p' h =
    let p1 = default_rate p in
    let p2 = bytes_of_file out p1 in
    let p3 = no_duration p2 in
    let (k1, b1) = default_rate-Keeps p in
    let (k2, b2) = bytes_of_file-Keeps out p1 in
    let ((k3, b3), d) = no_duration-Keeps p2 in
    let (q, e, h') = and_then_set-inl (check_end_conditions p3) check_role_given p' h in
    let (same, once) = check_end_conditions-EndsOnce p3 q d e in
    let (same', role) = check_role_given-HasRole q p' h' in
    let whole : p3 ≡ p' = same ∙ same' in
    subst
      (λ z.
        KeepsBlock p z
        × EndsOnce z
        × ((is_role_client z.test.role || is_role_server z.test.role) ≡ true))
      whole
      (
        (Keeps-trans p p1 p3 k1 (Keeps-trans p1 p2 p3 k2 k3), b3 ∙ b2 ∙ b1),
        once,
        subst (λ z. (is_role_client z.test.role || is_role_server z.test.role) ≡ true) (sym same)
            role,
      )

-- The end of `iperf_parse_arguments` accepts only options that go together: there is a role and not the flag of
-- the other one, no file is sent over UDP, a block fits the protocol, and there is at most one end condition, the
-- duration being 0 where it is an amount. The role, the mode and the direction stay as they were parsed.
pub finish-IsReady :
    (out : Outside) (p p' : Parsing)
    → finish out p ≡ inl p'
    → IsReady p'
      × (p'.test.role ≡ p.test.role)
      × (p'.test.mode ≡ p.test.mode)
      × (p'.test.reverse ≡ p.test.reverse)
      × (p'.test.bidirectional ≡ p.test.bidirectional)
unfolding finish
finish-IsReady out p p' h =
    let (p1, e1, h1) = and_then_set-inl (check_roles p) _ p' h in
    let (p2, e2, h2) = and_then_set-inl (quic_defaults out p1) _ p' h1 in
    let (p3, e3, h3) = and_then_set-inl (check_auth out p2) _ p' h2 in
    let (p4, e4, h4) = and_then_set-inl (check_file p3) _ p' h3 in
    let (p5, e5, h5) = and_then_set-inl (check_blksize p4) (finish_amounts out) p' h4 in
    let (k1, server_ok, client_ok) = check_roles-Keeps p p1 e1 in
    let k2 = quic_defaults-Keeps out p1 p2 e2 in
    let k3 = check_auth-Keeps out p2 p3 e3 in
    let (k4, file_ok) = check_file-Keeps p3 p4 e4 in
    let (k5, block_ok) = check_blksize-FitsBlock p4 p5 e5 in
    let ((k6, same_block), once, role) = finish_amounts-EndsOnce out p5 p' h5 in
    let k46 = Keeps-trans p4 p5 p' k5 k6 in
    let k36 = Keeps-trans p3 p4 p' k4 k46 in
    let k06 = Keeps-trans p p1 p' k1 (Keeps-trans p1 p2 p' k2 (Keeps-trans p2 p3 p' k3 k36)) in
    (
      record {
        has_role = role;
        no_server_flag =
            ap (λ r. is_role_client r && p'.server_flag) k06.0
            ∙ ap (λ b. is_role_client p.test.role && b) k06.6
            ∙ server_ok;
        no_client_flag =
            ap (λ r. is_role_server r && p'.client_flag) k06.0
            ∙ ap (λ b. is_role_server p.test.role && b) k06.7
            ∙ client_ok;
        no_file_over_udp =
            ap (λ r. is_some r && same_protocol p'.test.protocol udp) k36.5
            ∙ ap (λ b. is_some p3.test.diskfile_name && same_protocol b udp) k36.1
            ∙ file_ok;
        block_fits =
            subst (λ b. FitsBlock p'.test.protocol b) (sym same_block)
              (subst (λ r. FitsBlock r p5.test.settings.blksize) (sym k46.1) block_ok);
        ends_once = once;
      },
      k06.0,
      k06.2,
      k06.3,
      k06.4,
    )
