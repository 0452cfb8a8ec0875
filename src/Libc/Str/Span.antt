-- ===== src/Libc/Str/Span.antt =====
-- `strchr`, `strchrnul`, `strspn` and `strcspn` of custom_libc/string.c.
use stuos.Prelude.{
  ℕ, zero, suc, ◌+◌, ◌≤◌, ◌<◌, ◌≡◌, Bool, true, false, ◌==◌, ◌&&◌, ◌||◌, if◌then◌else◌, List, [],
  ◌∷◌, length, none, some, arith,
}
use stuos.Prelude.Int.{pos}
use stuos.Libc.Memory.{Ptr, Memory, char_value, HasString, returns}
use stuos.Libc.Str.{eq_int, strchr, strchrnul, strspn_loop, strspn, strcspn_loop, strcspn}

-- Whether a character stands in a string, and where it first stands (or the length).
abbrev pub mem : ℕ → List ℕ → Bool
mem b [] = false
mem b (x ∷ xs) = x == b || mem b xs

abbrev pub index_of : ℕ → List ℕ → ℕ
index_of b [] = 0
index_of b (x ∷ xs) = if x == b then 0 else suc (index_of b xs)

-- The bytes of a pair of characters agree exactly when their values do.
eq_int-char_value : (x b : ℕ) → x < 256 → b < 256 → eq_int (char_value x) (char_value b) ≡ (x == b)
eq_int-char_value x b hx hb = ground arith

strchr-index_of :
    (fuel : ℕ) (p : Ptr) (b : ℕ) (m : Memory) (xs : List ℕ)
    → HasString m p xs
    → b < 256
    → length xs < fuel
    → strchr fuel p (char_value b) m
      ≡ returns (if b == 0 || mem b xs then some (p + index_of b xs) else none)
unfolding strchr
strchr-index_of zero p b m xs h hb f = absurd (omega arith)
strchr-index_of (suc fuel) p b m [] h hb f = ground (arith, eq_int-char_value (m p) b)
strchr-index_of (suc fuel) p b m (x ∷ xs) h hb f =
    ground
      (arith, eq_int-char_value (m p) b, strchr-index_of fuel (p + 1) b m xs h.3 hb (omega arith))

strchrnul-index_of :
    (fuel : ℕ) (p : Ptr) (b : ℕ) (m : Memory) (xs : List ℕ)
    → HasString m p xs
    → b < 256
    → length xs < fuel
    → strchrnul fuel p (char_value b) m ≡ returns (p + index_of b xs)
unfolding strchrnul
strchrnul-index_of zero p b m xs h hb f = absurd (omega arith)
strchrnul-index_of (suc fuel) p b m [] h hb f = ground (arith, eq_int-char_value (m p) b)
strchrnul-index_of (suc fuel) p b m (x ∷ xs) h hb f =
    ground (
      arith,
      eq_int-char_value (m p) b,
      strchrnul-index_of fuel (p + 1) b m xs h.3 hb (omega arith),
    )

-- With fuel beyond the length, `strchr` of a character's value points at its first occurrence,
-- at the end for the character 0, and is NULL where the string has none; `strchrnul` points at
-- the end in that last case.
pub strchr-strchrnul :
    (fuel : ℕ) (p : Ptr) (b : ℕ) (m : Memory) (xs : List ℕ)
    → HasString m p xs
    → b < 256
    → length xs < fuel
    → (strchr fuel p (char_value b) m
        ≡ returns (if b == 0 || mem b xs then some (p + index_of b xs) else none))
      × (strchrnul fuel p (char_value b) m ≡ returns (p + index_of b xs))
strchr-strchrnul fuel p b m xs h hb f =
    (strchr-index_of fuel p b m xs h hb f, strchrnul-index_of fuel p b m xs h hb f)

-- A byte from 128 on, passed as an `unsigned char` value, is never found: `strchr` returns NULL
-- for it whatever the string holds.
pub strchr_high :
    (fuel : ℕ) (p : Ptr) (b : ℕ) (m : Memory) (xs : List ℕ)
    → HasString m p xs
    → 128 ≤ b
    → length xs < fuel
    → strchr fuel p (pos b) m ≡ returns none
unfolding strchr
strchr_high zero p b m xs h hb f = absurd (omega arith)
strchr_high (suc fuel) p b m [] h hb f = ground arith
strchr_high (suc fuel) p b m (x ∷ xs) h hb f = ground (arith, strchr_high fuel (p + 1) b m xs h.3)

-- Leading characters in, and not in, a set; and whether all are in it.
abbrev pub span : List ℕ → List ℕ → ℕ
span ys [] = 0
span ys (x ∷ xs) = if mem x ys then suc (span ys xs) else 0

abbrev pub cspan : List ℕ → List ℕ → ℕ
cspan ys [] = 0
cspan ys (x ∷ xs) = if mem x ys then 0 else suc (cspan ys xs)

abbrev pub all_in : List ℕ → List ℕ → Bool
all_in ys [] = true
all_in ys (x ∷ xs) = mem x ys && all_in ys xs

module _ (k : ℕ) (set : Ptr) (m : Memory) (ys : List ℕ) (in_set : HasString m set ys)
    (enough : length ys < k) where
  strcspn_loop-cspan :
      (fuel : ℕ) (s : Ptr) (r : ℕ) (xs : List ℕ)
      → HasString m s xs
      → length xs < fuel
      → strcspn_loop k fuel s set r m ≡ returns (r + cspan ys xs)
  unfolding strcspn_loop
  strcspn_loop-cspan zero s r xs h f = absurd (omega arith)
  strcspn_loop-cspan (suc fuel) s r [] h f =
      rw (strchr-index_of k set (m s) m ys in_set (omega arith) enough) (ground arith)
  strcspn_loop-cspan (suc fuel) s r (x ∷ xs) h f =
      rw (strchr-index_of k set (m s) m ys in_set (omega arith) enough)
        (ground (arith, strcspn_loop-cspan fuel (s + 1) (r + 1) xs h.3 (omega arith)))

  strspn_loop-span :
      (fuel : ℕ) (s : Ptr) (r : ℕ) (xs : List ℕ)
      → HasString m s xs
      → length xs < fuel
      → all_in ys xs ≡ false
      → strspn_loop k fuel s set r m ≡ returns (r + span ys xs)
  unfolding strspn_loop
  strspn_loop-span zero s r xs h f a = absurd (omega arith)
  strspn_loop-span (suc fuel) s r [] h f a = cc
  strspn_loop-span (suc fuel) s r (x ∷ xs) h f a =
      rw (strchr-index_of k set (m s) m ys in_set (omega arith) enough)
        (ground (arith, strspn_loop-span fuel (s + 1) (r + 1) xs h.3 (omega arith)))

  -- The count never falls.
  strspn_loop_grows :
      (fuel : ℕ) (s : Ptr) (r v : ℕ) → strspn_loop k fuel s set r m ≡ returns v → r ≤ v
  unfolding strspn_loop
  strspn_loop_grows zero s r v e = ground arith
  strspn_loop_grows (suc fuel) s r v e = ground (arith, strspn_loop_grows fuel (s + 1) (r + 1) v)

  strspn_loop_past_end :
      (fuel : ℕ) (s : Ptr) (r v : ℕ) (xs : List ℕ)
      → HasString m s xs
      → all_in ys xs ≡ true
      → strspn_loop k fuel s set r m ≡ returns v
      → r + length xs < v
  unfolding strspn_loop
  strspn_loop_past_end zero s r v xs h a e = ground arith
  strspn_loop_past_end (suc fuel) s r v [] h a e = ground (
    arith,
    strchr-index_of k set (m s) m ys in_set (omega arith) enough,
    strspn_loop_grows fuel (s + 1) (r + 1) v,
  )
  strspn_loop_past_end (suc fuel) s r v (x ∷ xs) h a e = ground (
    arith,
    strchr-index_of k set (m s) m ys in_set (omega arith) enough,
    strspn_loop_past_end fuel (s + 1) (r + 1) v xs h.3,
  )

-- With fuel beyond both lengths, `strcspn` returns the length of the longest prefix of the
-- string without a character of the set.
pub strcspn-cspan :
    (fuel : ℕ) (s reject : Ptr) (m : Memory) (xs ys : List ℕ)
    → HasString m s xs
    → HasString m reject ys
    → length xs < fuel
    → length ys < fuel
    → strcspn fuel s reject m ≡ returns (cspan ys xs)
unfolding strcspn
strcspn-cspan fuel s reject m xs ys h k f g =
    ground (arith, strcspn_loop-cspan fuel reject m ys k g fuel s 0 xs h f)

-- With fuel beyond both lengths, and a string that has a character outside the set, `strspn`
-- returns the length of the longest prefix made of characters of the set.
pub strspn-span :
    (fuel : ℕ) (s accept : Ptr) (m : Memory) (xs ys : List ℕ)
    → HasString m s xs
    → HasString m accept ys
    → length xs < fuel
    → length ys < fuel
    → all_in ys xs ≡ false
    → strspn fuel s accept m ≡ returns (span ys xs)
unfolding strspn
strspn-span fuel s accept m xs ys h k f g a =
    ground (arith, strspn_loop-span fuel accept m ys k g fuel s 0 xs h f a)

-- When every character of the string is in the set, `strspn` goes on behind the end of the
-- string: whatever the fuel, it does not return the length or any smaller number.
pub strspn_past_end :
    (fuel : ℕ) (s accept : Ptr) (m : Memory) (xs ys : List ℕ) (v : ℕ)
    → HasString m s xs
    → HasString m accept ys
    → length ys < fuel
    → all_in ys xs ≡ true
    → v ≤ length xs
    → ¬ (strspn fuel s accept m ≡ returns v)
unfolding strspn
strspn_past_end fuel s accept m xs ys v h k g a le e =
    omega (arith, strspn_loop_past_end fuel accept m ys k g fuel s 0 v xs h a e)
