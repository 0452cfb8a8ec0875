-- ===== src/Libc/Strings/Fold.antt =====
-- Strings that `strcasecmp` takes for equal.
use stuos.Prelude.{
  ℕ, zero, suc, ◌+◌, ◌<◌, ◌≡◌, Bool, true, false, ◌==◌, leb, ◌&&◌, ◌||◌, List, [], ◌∷◌, length,
  arith, ◌∙◌, sym, Bool-cases, inl, inr,
}
use stuos.Prelude.Int.{ℤ, pos, negsuc, sub_ℕ}
use stuos.Libc.Memory.{Ptr, Memory, HasString, returns}
use stuos.Libc.Ctype.{tolower}
use stuos.Libc.Strings.{fold, strcasecmp}

abbrev pub is_capital : ℕ → Bool
is_capital c = leb 65 c && leb c 90

-- Whether two characters are the same, or one is a letter from A to Z and the other the small
-- letter that stands 32 behind it.
abbrev pub alike : ℕ → ℕ → Bool
alike x y = x == y || is_capital x && y == x + 32 || is_capital y && x == y + 32

-- Whether two strings are of the same length and alike in each place.
abbrev pub same_fold : List ℕ → List ℕ → Bool
same_fold [] [] = true
same_fold [] (y ∷ ys) = false
same_fold (x ∷ xs) [] = false
same_fold (x ∷ xs) (y ∷ ys) = alike x y && same_fold xs ys

fold-alike : (x y : ℕ) → x < 256 → y < 256 → (fold x == fold y) ≡ alike x y
unfolding fold tolower
fold-alike x y hx hy = ground arith

abbrev pub is_zero : ℤ → Bool
is_zero (pos n) = n == 0
is_zero (negsuc n) = false

sub_ℕ-zero : (a b : ℕ) → is_zero (sub_ℕ a b) ≡ (a == b)
sub_ℕ-zero a b = ground arith

-- `strcasecmp`, with fuel beyond the length of the first string, returns 0 exactly when the two
-- strings are of the same length and in each place have the same byte or one letter from A to Z
-- and its small letter.
pub strcasecmp-same_fold :
    (fuel : ℕ) (p q : Ptr) (m : Memory) (xs ys : List ℕ)
    → HasString m p xs
    → HasString m q ys
    → length xs < fuel
    → (d : ℤ) × (strcasecmp fuel p q m ≡ returns d) × (is_zero d ≡ same_fold xs ys)
unfolding strcasecmp
strcasecmp-same_fold zero p q m xs ys h k f = absurd (omega arith)
strcasecmp-same_fold (suc fuel) p q m [] ys h k f =
    let ended : (m p == 0) ≡ true = ground (arith, h) in
    (sub_ℕ (m p) (m q), rw ended, sub_ℕ-zero (m p) (m q) ∙ ends ys k)
  where
    ends : (ys : List ℕ) → HasString m q ys → (m p == m q) ≡ same_fold [] ys
    ends [] k = ground (arith, h, k)
    ends (y ∷ ys) k = ground (arith, h)
strcasecmp-same_fold (suc fuel) p q m (x ∷ xs) [] h k f =
    let some_char : (m p == 0) ≡ false = ground arith in
    let ended : (m q == 0) ≡ true = ground (arith, k) in
    (sub_ℕ (m p) (m q), rw (some_char, ended), sub_ℕ-zero (m p) (m q) ∙ ground arith)
strcasecmp-same_fold (suc fuel) p q m (x ∷ xs) (y ∷ ys) h k f =
    let first : (m p == 0) ≡ false = ground arith in
    let second : (m q == 0) ≡ false = ground arith in
    let spec = fold-alike x y h.2 k.2 in
    elim (Bool-cases (fold x == fold y)) [
      | inl same ↦
          let same' : (fold (m p) == fold (m q)) ≡ true = rw (h.0, k.0) same in
          let (d, rest, z) =
            strcasecmp-same_fold fuel (p + 1) (q + 1) m xs ys h.3 k.3 (omega arith) in
          (d, rw (first, second, same') rest, rw (sym spec ∙ same) z)
      | inr differ ↦
          let differ' : (fold (m p) == fold (m q)) ≡ false = rw (h.0, k.0) differ in
          (
            sub_ℕ (fold (m p)) (fold (m q)),
            rw (first, second, differ'),
            rw (sym spec ∙ differ) (sub_ℕ-zero (fold (m p)) (fold (m q)) ∙ differ'),
          )
    ]
