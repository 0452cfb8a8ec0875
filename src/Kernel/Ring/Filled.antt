-- ===== src/Kernel/Ring/Filled.antt =====
-- What the slots of a ring hold after some blocks were written to it one after the other.
use stuos.Prelude.{
  ℕ, zero, suc, ◌+◌, ◌-◌, ◌/◌, ◌%◌, ◌≤◌, ◌<◌, ◌≡◌, refl, ◌≢◌, Bool, true, false, ◌==◌, not,
  if◌then◌else◌, arith, ◌∙◌, sym, ap, Bool-cases, inl, inr, List, [], ◌∷◌, ◌++◌, dec_lt,
}
use stuos.Kernel.Ring.{Trb, put_trb, stamp, same_bit}

-- The slot of the `a`-th block, and its cycle bit, in a ring of `s` slots.
abbrev pub slot : ℕ → ℕ → ℕ
slot s a = a % s

abbrev pub lap : ℕ → ℕ → Bool
lap s a = a / s % 2 == 0

-- Of the `n` blocks written so far, the `a`-th being `h a`, the last `s` are in their slots; a
-- slot that was never written has the cycle bit clear.
pub record IsFilled (s : ℕ) (trbs : ℕ → Trb) (h : ℕ → Trb) (n : ℕ) : Type 0 where
  pub written : (a : ℕ) → a < n → n ≤ a + s → trbs (slot s a) ≡ stamp (lap s a) (h a)
  pub fresh : (a : ℕ) → n ≤ a → a < s → (trbs (slot s a)).cycle_bit ≡ false

-- The blocks from `a` on.
abbrev pub items : (ℕ → Trb) → ℕ → ℕ → List Trb
items h a zero = []
items h a (suc n) = h a ∷ items h (a + 1) n

abbrev pub extend : (ℕ → Trb) → ℕ → Trb → ℕ → Trb
extend h n t a = if a == n then t else h a

items-extend_below :
    (h : ℕ → Trb) (p : ℕ) (t : Trb) (a n : ℕ) → a + n ≤ p → items (extend h p t) a n ≡ items h a n
items-extend_below h p t a zero le = refl
items-extend_below h p t a (suc n) le =
    let other : (a == p) ≡ false = ground arith in
    rw (other, items-extend_below h p t (a + 1) n (omega arith))

pub items-extend :
    (h : ℕ → Trb) (t : Trb) (p a n : ℕ)
    → p ≡ a + n
    → items (extend h p t) a (suc n) ≡ items h a n ++ (t ∷ [])
items-extend h t p a zero e = let here : (a == p) ≡ true = ground arith in rw here refl
items-extend h t p a (suc n) e =
    let other : (a == p) ≡ false = ground arith in
    rw other (ap (λ xs. h a ∷ xs) (items-extend h t p (a + 1) n (omega arith)))

module _ (s : ℕ) (pos_s : 0 < s) (apart : (a b : ℕ) → a < b → b < a + s → slot s a ≢ slot s b)
    (around : (a : ℕ) → (slot s (a + s) ≡ slot s a) × (lap s (a + s) ≡ not (lap s a)))
    (first : (a : ℕ) → a < s → lap s a ≡ true) (trbs h : ℕ → Trb) (n : ℕ)
    (f : IsFilled s trbs h n) where
  -- One more block.
  pub IsFilled-next :
      (t : Trb) → IsFilled s (put_trb (slot s n) (stamp (lap s n) t) trbs) (extend h n t) (n + 1)
  IsFilled-next t = record {
    written = λ a lt le. elim (Bool-cases (a == n)) [
      | inl same ↦
          let e : a ≡ n = ground arith in
          let here : (slot s a == slot s n) ≡ true = rw e (ground arith) in
          rw (same, here) (ap (λ x. stamp (lap s x) t) (sym e))
      | inr other ↦
          let ne : slot s a ≢ slot s n = apart a n (ground arith) (ground arith) in
          let there : (slot s a == slot s n) ≡ false = ground arith in
          rw (other, there) (f.written a (ground arith) (omega arith))
    ];
    fresh = λ a le lt.
        let ne : slot s n ≢ slot s a = apart n a (omega arith) (omega arith) in
        let there : (slot s a == slot s n) ≡ false = ground arith in
        rw there (f.fresh a (omega arith) lt);
  }

  -- The slot for the next block does not look written.
  pub IsFilled-end : (trbs (slot s n)).cycle_bit ≡ not (lap s n)
  IsFilled-end = elim (dec_lt n s) [
    | yes lt ↦ f.fresh n (omega arith) lt ∙ ap not (sym (first n lt))
    | no ge ↦
        let back : n - s + s ≡ n = omega arith in
        let (sl, lp) = around (n - s) in
        let old = f.written (n - s) (omega arith) (omega arith) in
        ap (λ x. (trbs (slot s x)).cycle_bit) (sym back)
        ∙ ap (λ x. (trbs x).cycle_bit) sl
        ∙ ap (λ x. x.cycle_bit) old
        ∙ not-not (lap s (n - s))
        ∙ ap not (sym lp)
        ∙ ap (λ x. not (lap s x)) back
  ]
    where
      not-not : (b : Bool) → b ≡ not (not b)
      not-not true = refl
      not-not false = refl

-- A block behind the slots.
pub IsFilled-outside :
    (s : ℕ) (trbs h : ℕ → Trb) (n j : ℕ) (t : Trb)
    → ((a : ℕ) → slot s a < s)
    → s ≤ j
    → IsFilled s trbs h n
    → IsFilled s (put_trb j t trbs) h n
IsFilled-outside s trbs h n j t small le f = record {
  written =
      λ a lt le'. let out : (slot s a == j) ≡ false = outside a in rw out (f.written a lt le');
  fresh = λ a le' lt. let out : (slot s a == j) ≡ false = outside a in rw out (f.fresh a le' lt);
}
  where
    outside : (a : ℕ) → (slot s a == j) ≡ false
    outside a = let lt = small a in let ne : slot s a ≢ j = omega (arith, lt) in ground arith

pub same_bit-not : (b : Bool) → same_bit (not b) b ≡ false
same_bit-not true = refl
same_bit-not false = refl

pub same_bit_refl : (b : Bool) → same_bit b b ≡ true
same_bit_refl true = refl
same_bit_refl false = refl
