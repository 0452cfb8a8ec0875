-- ===== src/Libc/Strtol/Value.antt =====
-- `strtol` on a whole string: white space, a sign, digits.
use stuos.Prelude.{
  ℕ, zero, suc, ◌+◌, ◌≤◌, ◌<◌, ◌≡◌, refl, Bool, true, false, ◌==◌, leb, ltb, ◌&&◌, ◌||◌,
  if◌then◌else◌, Option, none, some, List, [], ◌∷◌, length, arith, ◌∙◌, sym, ap, Bool-cases, inl,
  inr, dec_lt,
}
use stuos.Prelude.Int.{ℤ, pos, negsuc, sub_ℕ}
use stuos.Libc.Memory.{Ptr, Memory, HasString, char_value, returns}
use stuos.Libc.Ctype.{isspace}
use stuos.Libc.Strtol.{
  StrToResult, ulong_max, long_max, Errno, erange, skip_space, default_base, strto, strtol, as_long,
}
use stuos.Libc.Strtol.Digits.{digits, value, passed, StandsFor, digits_loop-value}

-- A space, or a character from the tab to the carriage return.
abbrev pub is_white : ℕ → Bool
is_white c = c == 32 || leb 9 c && leb c 13

isspace-is_white : (c : ℕ) → c < 256 → isspace (char_value c) ≡ is_white c
unfolding isspace
isspace-is_white c lt = ground arith

-- A string without its leading white space, and without a sign; whether the sign is a minus.
abbrev pub skip : List ℕ → List ℕ
skip [] = []
skip (c ∷ cs) = if is_white c then skip cs else c ∷ cs

abbrev pub without_sign : List ℕ → List ℕ
without_sign [] = []
without_sign (c ∷ cs) = if c == 43 || c == 45 then cs else c ∷ cs

abbrev pub is_minus : List ℕ → Bool
is_minus [] = false
is_minus (c ∷ cs) = c == 45

-- The number as a `long`: the nearest bound and ERANGE where it does not fit.
abbrev pub clamp : Bool → ℕ → ℤ × Option Errno
clamp true v = if ltb (long_max + 1) v then (negsuc long_max, some erange) else (sub_ℕ 0 v, none)
clamp false v = if ltb long_max v then (pos long_max, some erange) else (pos v, none)

skip_space-skip :
    (fuel : ℕ) (p : Ptr) (m : Memory) (cs : List ℕ)
    → HasString m p cs
    → length cs < fuel
    → (q : Ptr) × (skip_space fuel p m ≡ returns q)
      × HasString m q (skip cs)
      × (length (skip cs) ≤ length cs)
unfolding skip_space isspace
skip_space-skip zero p m cs h f = absurd (omega arith)
skip_space-skip (suc fuel) p m [] h f = (p, rw h, h, omega arith)
skip_space-skip (suc fuel) p m (c ∷ cs) h f = elim (Bool-cases (isspace (char_value c))) [
  | inl space ↦
      let white = sym (isspace-is_white c h.2) ∙ space in
      let (q, skips, s, le) = skip_space-skip fuel (p + 1) m cs h.3 (omega arith) in
      (q, rw (h.0, space) skips, rw white s, rw white (omega (arith, le)))
  | inr other ↦
      let dark = sym (isspace-is_white c h.2) ∙ other in
      (p, rw (h.0, other), rw dark h, rw dark (omega arith))
]

-- Where the digits start.
abbrev signed_at : Ptr → Memory → Ptr
signed_at q m = if m q == 43 || m q == 45 then q + 1 else q

signed_at-without_sign :
    (q : Ptr) (m : Memory) (cs : List ℕ)
    → HasString m q cs
    → HasString m (signed_at q m) (without_sign cs)
      × ((m q == 45) ≡ is_minus cs)
      × (length (without_sign cs) ≤ length cs)
signed_at-without_sign q m [] h = (rw h h, rw h, omega arith)
signed_at-without_sign q m (c ∷ cs) h = elim (Bool-cases (c == 43 || c == 45)) [
  | inl sign ↦ (rw (h.0, sign) h.3, ap (λ b. b == 45) h.0, rw sign (omega arith))
  | inr other ↦ (rw (h.0, other) h, ap (λ b. b == 45) h.0, rw other (omega arith))
]

default_base-set : (p : Ptr) (base : ℕ) (m : Memory) → 0 < base → default_base p base m ≡ (base, p)
unfolding default_base
default_base-set p base m some_base = let set : (base == 0) ≡ false = ground arith in rw set

pub strto-StandsFor :
    (fuel : ℕ) (p : Ptr) (base : ℕ) (m : Memory) (cs : List ℕ)
    → 0 < base
    → base ≤ 36
    → HasString m p cs
    → length cs < fuel
    → (r : StrToResult) × (end : Ptr) × (strto fuel p base m ≡ returns (r, end))
      × StandsFor (value base 0 (digits base (without_sign (skip cs)))) (is_minus (skip cs)) r
unfolding strto
strto-StandsFor fuel p base m cs some_base most h f =
    let (q, skips, s, le) = skip_space-skip fuel p m cs h f in
    let (s', minus, le') = signed_at-without_sign q m (skip cs) s in
    let r₀ : StrToResult = record { overflow = false; sign = m q == 45; magnitude = 0 } in
    let (r, loops, t) =
      digits_loop-value fuel (signed_at q m) base 0 (is_minus (skip cs)) r₀ m
        (without_sign (skip cs)) some_base most s' (omega arith)
        (record { overflow = refl; magnitude = λ l. refl; sign = minus }) in
    let current : Ptr = signed_at q m + passed base (without_sign (skip cs)) in
    (
      r,
      (if current == signed_at q m then p else current),
      rw (skips, default_base-set (signed_at q m) base m some_base, loops),
      t,
    )

module _ (v : ℕ) (negative : Bool) (r : StrToResult) (s : StandsFor v negative r) where
  too_large : (k : ℕ) → k ≤ ulong_max → (ltb k r.magnitude || r.overflow) ≡ ltb k v
  too_large k le = elim (dec_lt ulong_max v) [
    | yes over ↦
        let was : r.overflow ≡ true = s.overflow ∙ ground arith in
        let is : ltb k v ≡ true = ground arith in ground arith
    | no fits ↦
        let was : r.overflow ≡ false = s.overflow ∙ ground arith in
        let mag : r.magnitude ≡ v = s.magnitude (omega arith) in rw (was, mag) (ground arith)
  ]

  fitting : (k : ℕ) → k ≤ ulong_max → ltb k v ≡ false → r.magnitude ≡ v
  fitting k le e = s.magnitude (ground arith)

as_long-clamp :
    (v : ℕ) (negative : Bool) (r : StrToResult)
    → StandsFor v negative r
    → as_long r ≡ clamp negative v
unfolding as_long
as_long-clamp v true r s = elim (Bool-cases (ltb (long_max + 1) v)) [
  | inl large ↦ simp (s.sign, too_large v true r s (long_max + 1) (omega arith), large)
  | inr small ↦
      simp (s.sign, too_large v true r s (long_max + 1) (omega arith), small)
        (ap (λ n. (sub_ℕ 0 n, none)) (fitting v true r s (long_max + 1) (omega arith) small))
]
as_long-clamp v false r s = elim (Bool-cases (ltb long_max v)) [
  | inl large ↦ simp (s.sign, too_large v false r s long_max (omega arith), large)
  | inr small ↦
      simp (s.sign, too_large v false r s long_max (omega arith), small)
        (ap (λ n. (pos n, none)) (fitting v false r s long_max (omega arith) small))
]

strtol_of :
    (fuel : ℕ) (p : Ptr) (base v : ℕ) (negative : Bool) (m : Memory) (r : StrToResult) (end : Ptr)
    → base ≤ 36
    → strto fuel p base m ≡ returns (r, end)
    → StandsFor v negative r
    → strtol fuel p base m ≡ returns ((clamp negative v).0, some end, (clamp negative v).1)
unfolding strtol
strtol_of fuel p base v negative m r end most e s =
    let small : ltb 36 base ≡ false = ground arith in rw (small, e, as_long-clamp v negative r s)

-- `strtol(p, &end, base)`, for a base from 1 to 36 and fuel beyond the length of the string,
-- returns the number that the digits after white space and a sign stand for, as a
-- `long`: with a minus sign its negative; where that does not fit, the nearest bound of `long`,
-- and `errno` is ERANGE in that case only. No digits stand for 0.
pub strtol-clamp :
    (fuel : ℕ) (p : Ptr) (base : ℕ) (m : Memory) (cs : List ℕ)
    → 0 < base
    → base ≤ 36
    → HasString m p cs
    → length cs < fuel
    → (end : Ptr) × (strtol fuel p base m
        ≡ returns (
          (clamp (is_minus (skip cs)) (value base 0 (digits base (without_sign (skip cs))))).0,
          some end,
          (clamp (is_minus (skip cs)) (value base 0 (digits base (without_sign (skip cs))))).1,
        ))
strtol-clamp fuel p base m cs some_base most h f =
    let (r, end, e, s) = strto-StandsFor fuel p base m cs some_base most h f in
    (end, strtol_of fuel p base _ _ m r end most e s)
