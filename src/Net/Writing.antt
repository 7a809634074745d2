-- ===== src/Net/Writing.antt =====
-- src/net.c: what `Nwrite` reports is what was written.
use mathlib.Core.List.{append_assoc}
use iperf.Base.{
  ℕ, zero, suc, ◌+◌, ◌-◌, ◌≤◌, ◌<◌, ◌≡◌, refl, sym, ap, subst, ◌∙◌, Option, none, some, List, [],
  ◌∷◌, ◌++◌, take, drop, length, length-append, length-take, length-drop, take-append-drop, sub64,
  arith,
}
use iperf.Net.{
  Io, bytes, Write, wrote, would_block, no_buffers, broken, write_loop, nwrite, returned_lem,
}

-- write(2) takes no more than it is given.
abbrev pub ObeysWrite : ℕ → List Write → Type 0
ObeysWrite nleft [] = Unit {0}
ObeysWrite nleft (wrote r ∷ script) = (r ≤ nleft) × ObeysWrite (nleft - r) script
ObeysWrite nleft (_ ∷ script) = Unit {0}

-- The kernel took the first bytes of the buffer, in order; a count that is reported is their number.
pub record Delivered (buf : List ℕ) (io : Io) (wire : List ℕ) : Type 0 where
  pub rest : List ℕ
  pub is_prefix : wire ++ rest ≡ buf
  pub counted : (n : ℕ) → io ≡ bytes n → n ≡ length wire

abbrev pub Returns : List ℕ → Option (Io × List ℕ) → Type 0
Returns buf none = ⊥
Returns buf (some (io, wire)) = Delivered buf io wire

stop :
    (total wire buf : List ℕ) (io : Io)
    → wire ++ buf ≡ total
    → ((n : ℕ) → io ≡ bytes n → n ≡ length wire)
    → Delivered total io wire
stop total wire buf io e c = record { rest = buf; is_prefix = e; counted = c }

write_loop-Returns :
    (script : List Write) (total : List ℕ) (count nleft : ℕ) (buf wire : List ℕ)
    → count < 2147483648
    → length wire + nleft ≡ count
    → nleft ≤ length buf
    → nleft ≤ length script
    → wire ++ buf ≡ total
    → ObeysWrite nleft script
    → Returns total (write_loop count nleft buf wire script)
unfolding write_loop
write_loop-Returns script total count zero buf wire w c b l e o =
    stop total wire buf _ e (rw (returned_lem count w) (ground arith))
write_loop-Returns [] total count (suc n) buf wire w c b l e o = absurd (omega arith)
write_loop-Returns (would_block ∷ script) total count (suc n) buf wire w c b l e o =
    stop total wire buf _ e (ground (arith, returned_lem (count - suc n) (omega arith)))
write_loop-Returns (no_buffers ∷ script) total count (suc n) buf wire w c b l e o =
    stop total wire buf _ e (λ k h. cc)
write_loop-Returns (broken ∷ script) total count (suc n) buf wire w c b l e o =
    stop total wire buf _ e (λ k h. cc)
write_loop-Returns (wrote zero ∷ script) total count (suc n) buf wire w c b l e o =
    stop total wire buf _ e (λ k h. cc)
write_loop-Returns (wrote (suc r) ∷ script) total count (suc n) buf wire w c b l e o =
    let left : sub64 (suc n) (suc r) ≡ suc n - suc r = omega arith in
    subst
      (λ m. Returns total (write_loop count m (drop (suc r) buf) (wire ++ take (suc r) buf) script))
      (sym left)
      (write_loop-Returns script total count (suc n - suc r) (drop (suc r) buf)
        (wire ++ take (suc r) buf) w
        (omega (arith, length-append wire (take (suc r) buf), length-take (suc r) buf))
        (omega (arith, length-drop (suc r) buf)) (omega arith)
        (append_assoc wire (take (suc r) buf) (drop (suc r) buf)
          ∙ ap (◌++◌ wire) (take-append-drop (suc r) buf)
          ∙ e)
        o.1)

-- `Nwrite` of a whole buffer, below 2^31 bytes and to a kernel that takes no more than it is given,
-- returns after at most a call of write(2) for each byte; the bytes taken are the first of the
-- buffer, and where it reports a count it is theirs.
pub nwrite-Returns :
    (buf : List ℕ) (script : List Write)
    → length buf < 2147483648
    → length buf ≤ length script
    → ObeysWrite (length buf) script
    → Returns buf (nwrite buf (length buf) script)
unfolding nwrite
nwrite-Returns buf script w l o =
    write_loop-Returns script buf (length buf) (length buf) buf [] w (omega arith) (omega arith) l
      refl o
