-- ===== src/Libc/Strtol/Unsigned.antt =====
-- `strtoul` on a whole string.
use stuos.Prelude.{
  ℕ, ◌-◌, ◌%◌, ◌^◌, ◌≤◌, ◌<◌, ◌≡◌, Bool, true, false, ltb, if◌then◌else◌, Option, none, some, List,
  length, arith, ◌∙◌, dec_lt,
}
use stuos.Libc.Memory.{Ptr, Memory, HasString, returns}
use stuos.Libc.Strtol.{StrToResult, ulong_max, Errno, erange, strto, as_ulong, strtoul}
use stuos.Libc.Strtol.Digits.{digits, value, StandsFor}
use stuos.Libc.Strtol.Value.{skip, without_sign, is_minus, strto-StandsFor}

-- The number as an `unsigned long`: modulo 2^64 with a minus sign, the bound and ERANGE where the
-- digits do not fit.
abbrev pub wrap : Bool → ℕ → ℕ × Option Errno
wrap negative v =
    if ltb ulong_max v
    then (ulong_max, some erange)
    else if negative
    then ((2 ^ 64 - v) % 2 ^ 64, none)
    else (v, none)

as_ulong-wrap :
    (v : ℕ) (negative : Bool) (r : StrToResult)
    → StandsFor v negative r
    → as_ulong r ≡ wrap negative v
unfolding as_ulong
as_ulong-wrap v negative r s = elim (dec_lt ulong_max v) [
  | yes over ↦ let is : ltb ulong_max v ≡ true = ground arith in simp (s.overflow ∙ is, is)
  | no fits ↦
      let is : ltb ulong_max v ≡ false = ground arith in
      simp (s.overflow ∙ is, is, s.sign, s.magnitude (omega arith))
]

strtoul_of :
    (fuel : ℕ) (p : Ptr) (base v : ℕ) (negative : Bool) (m : Memory) (r : StrToResult) (end : Ptr)
    → base ≤ 36
    → strto fuel p base m ≡ returns (r, end)
    → StandsFor v negative r
    → strtoul fuel p base m ≡ returns ((wrap negative v).0, some end, (wrap negative v).1)
unfolding strtoul
strtoul_of fuel p base v negative m r end most e s =
    let small : ltb 36 base ≡ false = ground arith in rw (small, e, as_ulong-wrap v negative r s)

-- `strtoul(p, &end, base)`, for a base from 1 to 36 and fuel beyond the length of the string,
-- returns the number that the digits after white space and a sign stand for, with a minus sign
-- its negative modulo 2^64. Where the digits do not fit, with either sign, it returns the greatest
-- `unsigned long`, and `errno` is ERANGE in that case only.
pub strtoul-wrap :
    (fuel : ℕ) (p : Ptr) (base : ℕ) (m : Memory) (cs : List ℕ)
    → 0 < base
    → base ≤ 36
    → HasString m p cs
    → length cs < fuel
    → (end : Ptr) × (strtoul fuel p base m
        ≡ returns (
          (wrap (is_minus (skip cs)) (value base 0 (digits base (without_sign (skip cs))))).0,
          some end,
          (wrap (is_minus (skip cs)) (value base 0 (digits base (without_sign (skip cs))))).1,
        ))
strtoul-wrap fuel p base m cs some_base most h f =
    let (r, end, e, s) = strto-StandsFor fuel p base m cs some_base most h f in
    (end, strtoul_of fuel p base _ _ m r end most e s)
