-- ===== src/Options/Given.antt =====
-- src/iperf_api.c, `iperf_parse_arguments`: the options that only one role takes, and the flags that they set.
use iperf.Base.{◌≡◌, subst, Bool, true, false, ◌&&◌, ◌||◌, not, List, [], ◌∷◌, inl, All, arith}
use iperf.Test.{Role}
use iperf.Options.{
  Argument, Flag, udp_flag, sctp_flag, nstreams, bitrate, time, bytes_flag, blockcount, len,
  parallel, reverse_flag, bidir, window, set_mss, nodelay, set_tos, dscp, extra, flow,
  zerocopy_flag, repeating, omit_flag, set_idle_timeout, server_max_duration, set_title,
  set_congestion, server_output, counters_64bit, no_fq_socket_pacing, fq_rate, set_dont_fragment,
  skip_copy, pacing, set_connect_timeout, client_setting, server_setting, Features, Parsing,
}
use iperf.Options.Outcome.{is_role_client, is_role_server}
use iperf.Options.Parse.{
  parse_bitrate, parse_nstreams, parse_window, parse_affinity, parse_direction, parse_amount,
  parse_socket, parse_setting, parse_option, parse_options,
}
use iperf.Options.Finish.{Outside, check_roles, finish}
use iperf.Options.Bounds.{and_then_set-inl, check_roles-Keeps}
use iperf.Options.Directions.{inl_inj}

-- The options that set client_flag, whatever their argument is.
unfoldable pub client_only : Flag → Bool
client_only udp_flag = true
client_only sctp_flag = true
client_only nstreams = true
client_only bitrate = true
client_only time = true
client_only bytes_flag = true
client_only blockcount = true
client_only len = true
client_only parallel = true
client_only reverse_flag = true
client_only bidir = true
client_only window = true
client_only set_mss = true
client_only nodelay = true
client_only set_tos = true
client_only dscp = true
client_only extra = true
client_only flow = true
client_only zerocopy_flag = true
client_only repeating = true
client_only omit_flag = true
client_only set_title = true
client_only set_congestion = true
client_only server_output = true
client_only counters_64bit = true
client_only no_fq_socket_pacing = true
client_only fq_rate = true
client_only set_dont_fragment = true
client_only skip_copy = true
client_only pacing = true
client_only set_connect_timeout = true
client_only client_setting = true
client_only _ = false

-- The options that set server_flag.
unfoldable pub server_only : Flag → Bool
server_only set_idle_timeout = true
server_only server_max_duration = true
server_only server_setting = true
server_only _ = false

-- An option sets the flag of the role that alone takes it, and a flag that is set stays.
abbrev Sets : Flag → Parsing → Parsing → Type 0
Sets flag p q =
    (((p.client_flag || client_only flag) && not q.client_flag) ≡ false)
    × (((p.server_flag || server_only flag) && not q.server_flag) ≡ false)

parse_option-Sets :
    (f : Features) (flag : Flag) (arg : Argument) (p p' : Parsing)
    → parse_option f flag arg p ≡ inl p'
    → Sets flag p p'
unfolding parse_option parse_direction parse_amount parse_socket parse_setting parse_nstreams
    parse_bitrate parse_window parse_affinity client_only server_only
parse_option-Sets f _ arg p p' h = ground arith

-- Each option of the list has set its flag in `q`.
abbrev AllSet : List (Flag × Argument) → Parsing → Type 0
AllSet args q =
    All (λ (a : Flag × Argument). (client_only a.0 && not q.client_flag) ≡ false) args
    × All (λ (a : Flag × Argument). (server_only a.0 && not q.server_flag) ≡ false) args

flag_kept :
    (before given after last : Bool)
    → ((before || given) && not after) ≡ false
    → (after && not last) ≡ false
    → ((before && not last) ≡ false) × ((given && not last) ≡ false)
flag_kept before given after last h k = ground arith

cleared_flag : (b : Bool) → (b && not b) ≡ false
cleared_flag b = ground arith

parse_options-Sets :
    (f : Features) (args : List (Flag × Argument)) (p p' : Parsing)
    → parse_options f args p ≡ inl p'
    → ((p.client_flag && not p'.client_flag) ≡ false)
      × ((p.server_flag && not p'.server_flag) ≡ false)
      × AllSet args p'
unfolding parse_options
parse_options-Sets f [] p p' h =
    subst
      (λ (q : Parsing).
        ((p.client_flag && not q.client_flag) ≡ false)
        × ((p.server_flag && not q.server_flag) ≡ false)
        × AllSet [] q)
      (inl_inj h) (cleared_flag p.client_flag, cleared_flag p.server_flag, (tt, tt))
parse_options-Sets f ((flag, arg) ∷ rest) p p' h =
    let (q, e, h') = and_then_set-inl (parse_option f flag arg p) (parse_options f rest) p' h in
    let (c, s) = parse_option-Sets f flag arg p q e in
    let (c', s', (cs, ss)) = parse_options-Sets f rest q p' h' in
    let (kept, set) =
      flag_kept p.client_flag (client_only flag) q.client_flag p'.client_flag c c' in
    let (kept', set') =
      flag_kept p.server_flag (server_only flag) q.server_flag p'.server_flag s s' in
    (kept, kept', ((set, cs), (set', ss)))

-- No option stands on the command line that only the other role takes.
abbrev pub TakenBy : Role → List (Flag × Argument) → Type 0
TakenBy role args =
    All (λ (a : Flag × Argument). (is_role_server role && client_only a.0) ≡ false) args
    × All (λ (a : Flag × Argument). (is_role_client role && server_only a.0) ≡ false) args

refused_flag :
    (role set : Bool) (only : Flag → Bool) (args : List (Flag × Argument))
    → (role && set) ≡ false
    → All (λ (a : Flag × Argument). (only a.0 && not set) ≡ false) args
    → All (λ (a : Flag × Argument). (role && only a.0) ≡ false) args
refused_flag role set only [] r all = tt
refused_flag role set only (a ∷ rest) r all =
    (ground arith, refused_flag role set only rest r all.1)

pub parse_options-TakenBy :
    (f : Features) (out : Outside) (args : List (Flag × Argument)) (p q p' : Parsing)
    → parse_options f args p ≡ inl q
    → finish out q ≡ inl p'
    → TakenBy q.test.role args
unfolding finish
parse_options-TakenBy f out args p q p' e h =
    let (p1, e1, h1) = and_then_set-inl (check_roles q) _ p' h in
    let (k1, server_ok, client_ok) = check_roles-Keeps q p1 e1 in
    let (c, s, (cs, ss)) = parse_options-Sets f args p q e in
    (
      refused_flag (is_role_server q.test.role) q.client_flag client_only args client_ok cs,
      refused_flag (is_role_client q.test.role) q.server_flag server_only args server_ok ss,
    )
