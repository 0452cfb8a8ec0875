-- ===== src/Libc/Str/Compare.antt =====
-- `strlen`, `strcmp` and `strncmp` against the strings that lie in memory.
use stuos.Prelude.{
  ℕ, zero, suc, ◌+◌, ◌<◌, ◌≡◌, refl, ◌≢◌, ◌↔◌, true, ◌%◌, ◌^◌, ltb, ◌==◌, if◌then◌else◌, List, [],
  ◌∷◌, length, take, arith,
}
use stuos.Prelude.Int.{ℤ, pos, ◌-ℤ◌}
use stuos.Libc.Memory.{Ptr, Memory, char_value, HasString, returns, ◌>>=◌}
use stuos.Libc.Str.{strlen_loop, strlen, strcmp_loop, strcmp_value, strcmp, strncmp}

strlen_loop-length :
    (fuel : ℕ) (p : Ptr) (r : ℕ) (m : Memory) (xs : List ℕ)
    → HasString m p xs
    → length xs < fuel
    → strlen_loop fuel p r m ≡ returns (r + length xs)
unfolding strlen_loop
strlen_loop-length zero p r m xs h f = absurd (omega arith)
strlen_loop-length (suc fuel) p r m [] h f = ground arith
strlen_loop-length (suc fuel) p r m (x ∷ xs) h f =
    ground (arith, strlen_loop-length fuel (p + 1) (r + 1) m xs h.3)

-- With fuel beyond the length, `strlen` returns the length of the string.
pub strlen-length :
    (fuel : ℕ) (p : Ptr) (m : Memory) (xs : List ℕ)
    → HasString m p xs
    → length xs < fuel
    → strlen fuel p m ≡ returns (length xs)
unfolding strlen
strlen-length fuel p m xs h f = ground (arith, strlen_loop-length fuel p 0 m xs h)

-- The order of two strings by plain `char`, which is signed on this target: the difference of the
-- first characters that differ, where a byte from 128 on counts as itself less 256 and the end of a
-- string as the character 0.
pub compare : List ℕ → List ℕ → ℤ
compare [] [] = pos 0
compare [] (y ∷ ys) = pos 0 -ℤ char_value y
compare (x ∷ xs) [] = char_value x -ℤ pos 0
compare (x ∷ xs) (y ∷ ys) = if x == y then compare xs ys else char_value x -ℤ char_value y

-- A string behind the byte at index `i` starts at index `i + 1`.
pub HasString-next :
    (m : Memory) (p i : ℕ) (xs : List ℕ) → HasString m (p + i + 1) xs → HasString m (p + (i + 1)) xs
HasString-next m p i xs h = let e : p + i + 1 ≡ p + (i + 1) = omega arith in rw (← e) h

pub HasString-at_zero :
    (m : Memory) (p : Ptr) (xs : List ℕ) → HasString m p xs → HasString m (p + 0) xs
HasString-at_zero m p xs h = let e : p ≡ p + 0 = omega arith in rw (← e) h

strcmp_loop-compare :
    (fuel i : ℕ) (p q : Ptr) (m : Memory) (xs ys : List ℕ)
    → HasString m (p + i) xs
    → HasString m (q + i) ys
    → length xs < fuel
    → i + length xs < 2 ^ 31
    → (strcmp_loop fuel i p q m >>= λ j. returns (strcmp_value p q m j)) ≡ returns (compare xs ys)
unfolding strcmp_loop strcmp_value compare
strcmp_loop-compare zero i p q m xs ys h k f short = absurd (omega arith)
strcmp_loop-compare (suc fuel) i p q m [] [] h k f short =
    let inside : ltb i (2 ^ 31) ≡ true = ground arith in ground arith
strcmp_loop-compare (suc fuel) i p q m [] (y ∷ ys) h k f short =
    let inside : ltb i (2 ^ 31) ≡ true = ground arith in ground arith
strcmp_loop-compare (suc fuel) i p q m (x ∷ xs) [] h k f short =
    let inside : ltb i (2 ^ 31) ≡ true = ground arith in ground arith
strcmp_loop-compare (suc fuel) i p q m (x ∷ xs) (y ∷ ys) h k f short =
    let inside : ltb i (2 ^ 31) ≡ true = ground arith in
    let next : (i + 1) % 2 ^ 32 ≡ i + 1 = omega arith in
    rw (inside, next)
      (ground (
        arith,
        strcmp_loop-compare fuel (i + 1) p q m xs ys (HasString-next m p i xs h.3)
            (HasString-next m q i ys k.3) (omega arith) (omega arith),
      ))

compare-diff : (x y : ℕ) → x < 256 → y < 256 → x ≢ y → char_value x -ℤ char_value y ≢ pos 0
unfolding ◌-ℤ◌
compare-diff x y hx hy ne = ground arith

-- Bytes of strings.
abbrev pub AreChars : List ℕ → Type 0
AreChars [] = Unit
AreChars (c ∷ cs) = (0 < c) × (c < 256) × AreChars cs

pub compare-zero_iff :
    (xs ys : List ℕ) → AreChars xs → AreChars ys → (compare xs ys ≡ pos 0) ↔ (xs ≡ ys)
unfolding compare
compare-zero_iff [] [] h k = ground arith
compare-zero_iff [] (y ∷ ys) h k = ground (arith, compare-diff 0 y)
compare-zero_iff (x ∷ xs) [] h k = ground (arith, compare-diff x 0)
compare-zero_iff (x ∷ xs) (y ∷ ys) h k =
    ground (arith, compare-diff x y, compare-zero_iff xs ys h.2 k.2)

pub HasString-AreChars : (m : Memory) (p : Ptr) (xs : List ℕ) → HasString m p xs → AreChars xs
HasString-AreChars m p [] h = tt
HasString-AreChars m p (x ∷ xs) h = (h.1, h.2, HasString-AreChars m (p + 1) xs h.3)

-- With fuel beyond the length of the first string, which is less than 2^31, the range of the index
-- in the source, `strcmp` returns the difference of the first characters that differ, taken as
-- signed characters (so a byte from 128 on comes before the end of a string and before every byte
-- below 128), where the end of a string counts as 0. The result is 0 exactly when the strings are
-- equal.
pub strcmp-compare :
    (fuel : ℕ) (p q : Ptr) (m : Memory) (xs ys : List ℕ)
    → HasString m p xs
    → HasString m q ys
    → length xs < fuel
    → length xs < 2 ^ 31
    → (strcmp fuel p q m ≡ returns (compare xs ys)) × ((compare xs ys ≡ pos 0) ↔ (xs ≡ ys))
unfolding strcmp
strcmp-compare fuel p q m xs ys h k f short = (
  strcmp_loop-compare fuel 0 p q m xs ys (HasString-at_zero m p xs h) (HasString-at_zero m q ys k) f
      (omega arith),
  compare-zero_iff xs ys (HasString-AreChars m p xs h) (HasString-AreChars m q ys k),
)

-- `strncmp` is the order of the first `n` characters of the two strings.
pub strncmp-compare :
    (n : ℕ) (p q : Ptr) (m : Memory) (xs ys : List ℕ)
    → HasString m p xs
    → HasString m q ys
    → strncmp n p q m ≡ compare (take n xs) (take n ys)
unfolding strncmp compare
strncmp-compare zero p q m xs ys h k = refl
strncmp-compare (suc n) p q m [] [] h k = ground arith
strncmp-compare (suc n) p q m [] (y ∷ ys) h k = ground arith
strncmp-compare (suc n) p q m (x ∷ xs) [] h k = ground arith
strncmp-compare (suc n) p q m (x ∷ xs) (y ∷ ys) h k =
    ground (arith, strncmp-compare n (p + 1) (q + 1) m xs ys h.3 k.3)
