-- ===== src/Libc/Strtol/Digits.antt =====
-- The digits that `strto` reads, and the number that they stand for.
use stuos.Prelude.{
  ℕ, zero, suc, ◌+◌, ◌-◌, ◌*◌, ◌/◌, ◌%◌, ◌^◌, ◌≤◌, ◌<◌, ◌≡◌, refl, Bool, true, false, ◌==◌, leb,
  ltb, ◌&&◌, if◌then◌else◌, Option, none, some, List, [], ◌∷◌, length, arith, ◌∙◌, sym, ap, subst,
  Bool-cases, inl, inr, ◌⊎◌, dec_lt,
}
use stuos.Libc.Memory.{Ptr, Memory, HasString, char_value, returns}
use stuos.Libc.Ctype.{tolower}
use stuos.Libc.Strtol.{StrToResult, ulong_max, digit_value, digit_in, add_digit, digits_loop}
use native.Mathlib.Nat.{div-lt_iff_lt-mul, mul-le-mul_left}

-- What a character is worth: 0 to 9 for the digits, 10 to 35 for the letters of either case.
abbrev pub worth : ℕ → Option ℕ
worth c =
    if leb 48 c && leb c 57
    then some (c - 48)
    else if leb 65 c && leb c 90
    then some (c - 55)
    else if leb 97 c && leb c 122
    then some (c - 87)
    else none

abbrev pub below_base : ℕ → Option ℕ → Option ℕ
below_base base none = none
below_base base (some d) = if ltb d base then some d else none

-- The digits below the base that a string starts with.
abbrev pub digits : ℕ → List ℕ → List ℕ
digits base [] = []
digits base (c ∷ cs) = elim (below_base base (worth c)) [ some d ↦ d ∷ digits base cs | none ↦ [] ]

-- The number that digits stand for, behind digits that stand for `acc`.
abbrev pub value : ℕ → ℕ → List ℕ → ℕ
value base acc [] = acc
value base acc (d ∷ ds) = value base (acc * base + d) ds

-- How many characters the loop goes past: the digits, and the character that ends them.
abbrev pub passed : ℕ → List ℕ → ℕ
passed base [] = 0
passed base (c ∷ cs) = elim (digit_in base c) [ some d ↦ suc (passed base cs) | none ↦ 1 ]

-- A result that stands for `v`: the magnitude, or an overflow where it does not fit.
pub record StandsFor (v : ℕ) (negative : Bool) (r : StrToResult) : Type 0 where
  pub overflow : r.overflow ≡ ltb ulong_max v
  pub magnitude : v ≤ ulong_max → r.magnitude ≡ v
  pub sign : r.sign ≡ negative

div-test :
    (base d mag : ℕ)
    → 0 < base
    → d < base
    → base ≤ 36
    → ltb ((ulong_max - d) / base) mag ≡ ltb ulong_max (mag * base + d)
div-test base d mag pos lt most =
    let law = div-lt_iff_lt-mul {k = base} {x = ulong_max - d} {y = mag} pos in
    elim (dec_lt ((ulong_max - d) / base) mag) [
      | yes over ↦
          let more : ulong_max < mag * base + d = omega (arith, law.0 over) in
          ltb_yes over ∙ sym (ltb_yes more)
      | no within ↦ elim (dec_lt ulong_max (mag * base + d)) [
        | yes more ↦ absurd (within (law.1 (omega arith)))
        | no fits ↦ ltb_no within ∙ sym (ltb_no fits)
      ]
    ]
  where
    ltb_yes : {a b : ℕ} → a < b → ltb a b ≡ true
    ltb_yes l = ground arith

    ltb_no : {a b : ℕ} → ¬ (a < b) → ltb a b ≡ false
    ltb_no l = ground arith

mul-ge : (v base : ℕ) → 0 < base → v ≤ v * base
mul-ge v base pos = let grows : v * 1 ≤ v * base = mul-le-mul_left v (omega arith) in omega arith

digit_value-worth : (c : ℕ) → c < 256 → digit_value (char_value c) ≡ worth c
unfolding digit_value tolower
digit_value-worth c lt = ground arith

digit_in-worth : (base c : ℕ) → c < 256 → digit_in base c ≡ below_base base (worth c)
unfolding digit_in
digit_in-worth base c lt = bounded (digit_value (char_value c)) (worth c) (digit_value-worth c lt)
  where
    same :
        (o : Option ℕ)
        → (elim o [ some d ↦ if leb base d then none else some d | none ↦ none ])
          ≡ below_base base o
    same none = refl
    same (some d) = ground arith

    bounded :
        (o o' : Option ℕ)
        → o ≡ o'
        → (elim o [ some d ↦ if leb base d then none else some d | none ↦ none ])
          ≡ below_base base o'
    bounded o o' e = same o ∙ ap (below_base base) e

none-some : {d : ℕ} → none ≡ some d → ⊥
none-some e = cc

digit_in-lt : (base c d : ℕ) → digit_in base c ≡ some d → d < base
unfolding digit_in
digit_in-lt base c d e = below (digit_value (char_value c)) e
  where
    below :
        (o : Option ℕ)
        → (elim o [ some k ↦ if leb base k then none else some k | none ↦ none ]) ≡ some d
        → d < base
    below none e = absurd (none-some e)
    below (some k) e = elim (Bool-cases (leb base k)) [
      | inl large ↦ absurd (none-some (rw large at e))
      | inr small ↦
          let same : some k ≡ some d = rw small at e in let eq : k ≡ d = cc in ground (arith, eq)
    ]

module _ (base d v : ℕ) (negative : Bool) (r : StrToResult) (pos : 0 < base) (most : base ≤ 36)
    (lt : d < base) (s : StandsFor v negative r) where
  add_over : ulong_max < v → StandsFor (v * base + d) negative (add_digit base d r)
  unfolding add_digit
  add_over over =
      let was : ltb ulong_max v ≡ true = ground arith in
      let is : ltb ulong_max (v * base + d) ≡ true = ground (arith, mul-ge v base pos) in
      let kept : add_digit base d r ≡ r = simp (s.overflow ∙ was) in
      subst (StandsFor (v * base + d) negative) (sym kept) (record {
        overflow = s.overflow ∙ was ∙ sym is;
        magnitude = λ le. absurd (omega (arith, mul-ge v base pos));
        sign = s.sign;
      })

  add_within : v ≤ ulong_max → StandsFor (v * base + d) negative (add_digit base d r)
  unfolding add_digit
  add_within le =
      let was : r.overflow ≡ false = s.overflow ∙ ground arith in
      let mag : r.magnitude ≡ v = s.magnitude le in
      let test : ltb ((ulong_max - d) / base) r.magnitude ≡ ltb ulong_max (v * base + d) =
        ap (λ n. ltb ((ulong_max - d) / base) n) mag ∙ div-test base d v pos lt most in
      elim (dec_lt ulong_max (v * base + d)) [
        | yes over ↦
            let is : ltb ulong_max (v * base + d) ≡ true = ground arith in
            let flagged : add_digit base d r ≡ record r { overflow = true } =
              simp (was, test ∙ is) in
            subst (StandsFor (v * base + d) negative) (sym flagged) (record {
              overflow = sym is;
              magnitude = λ fits. absurd (omega arith);
              sign = s.sign;
            })
        | no fits ↦
            let is : ltb ulong_max (v * base + d) ≡ false = ground arith in
            let added : add_digit base d r
                ≡ record r { magnitude = (r.magnitude * base + d) % 2 ^ 64 } =
              simp (was, test ∙ is) in
            let new : (r.magnitude * base + d) % 2 ^ 64 ≡ v * base + d = rw mag (omega arith) in
            subst (StandsFor (v * base + d) negative) (sym added)
              (record { overflow = was ∙ sym is; magnitude = λ le'. new; sign = s.sign })
      ]

  -- A digit that is added to what stands for `v`.
  add_digit-StandsFor : StandsFor (v * base + d) negative (add_digit base d r)
  add_digit-StandsFor = elim (dec_lt ulong_max v) [
    | yes over ↦ add_over over
    | no within ↦ add_within (omega arith)
  ]

digit_in-cases : (o : Option ℕ) → (o ≡ none) ⊎ ((d : ℕ) × (o ≡ some d))
digit_in-cases none = inl refl
digit_in-cases (some d) = inr (d, refl)

module _ (base c : ℕ) (cs : List ℕ) (byte : c < 256) where
  digits_of :
      (o : Option ℕ)
      → digit_in base c ≡ o
      → digits base (c ∷ cs) ≡ (elim o [ some d ↦ d ∷ digits base cs | none ↦ [] ])
  digits_of o e =
      ap (λ k. elim k [ some d ↦ d ∷ digits base cs | none ↦ [] ])
        (sym (digit_in-worth base c byte) ∙ e)

  passed_of :
      (o : Option ℕ)
      → digit_in base c ≡ o
      → passed base (c ∷ cs) ≡ (elim o [ some d ↦ suc (passed base cs) | none ↦ 1 ])
  passed_of o e = ap (λ k. elim k [ some d ↦ suc (passed base cs) | none ↦ 1 ]) e

-- The loop on a string, from a result that stands for `v`, with fuel beyond the string's length:
-- the result stands for the digits that the string starts with, read behind `v`.
pub digits_loop-value :
    (fuel : ℕ) (p : Ptr) (base v : ℕ) (negative : Bool) (r : StrToResult) (m : Memory) (cs : List ℕ)
    → 0 < base
    → base ≤ 36
    → HasString m p cs
    → length cs < fuel
    → StandsFor v negative r
    → (r' : StrToResult) × (digits_loop fuel p base r m ≡ returns (p + passed base cs, r'))
      × StandsFor (value base v (digits base cs)) negative r'
unfolding digits_loop
digits_loop-value zero p base v negative r m cs pos most h f s = absurd (omega arith)
digits_loop-value (suc fuel) p base v negative r m [] pos most h f s =
    (r, rw h (ap (λ q. returns (q, r)) (omega arith)), s)
digits_loop-value (suc fuel) p base v negative r m (c ∷ cs) pos most h f s =
    let some_char : (m p == 0) ≡ false = ground arith in
    let byte : digit_in base (m p) ≡ digit_in base c = ap (digit_in base) h.0 in
    elim (digit_in-cases (digit_in base c)) [
      | inl stop ↦ (
        r,
        rw (some_char, byte ∙ stop)
            (ap (λ n. returns (p + n, r)) (sym (passed_of base c cs h.2 none stop))),
        subst (λ ds. StandsFor (value base v ds) negative r)
            (sym (digits_of base c cs h.2 none stop)) s,
      )
      | inr (d, digit) ↦
          let s' =
            add_digit-StandsFor base d v negative r pos most (digit_in-lt base c d digit) s in
          let (r', loops, t) =
            digits_loop-value fuel (p + 1) base (v * base + d) negative (add_digit base d r) m cs
              pos most h.3 (omega arith) s' in
          let here : p + 1 + passed base cs ≡ p + passed base (c ∷ cs) =
            omega (arith, passed_of base c cs h.2 (some d) digit) in
          (
            r',
            rw (some_char, byte ∙ digit) (loops ∙ ap (λ q. returns (q, r')) here),
            subst (λ ds. StandsFor (value base v ds) negative r')
                (sym (digits_of base c cs h.2 (some d) digit)) t,
          )
    ]
