-- ===== src/Libc/Str/Bounded.antt =====
-- `strncpy` and `stpncpy` of custom_libc/string.c: copies with a bound, padded with 0.
use stuos.Prelude.{
  ℕ, zero, suc, ◌+◌, ◌-◌, ◌^◌, ◌≤◌, ◌<◌, ◌≡◌, ◌⊎◌, ◌==◌, ◌!=◌, ltb, min, true, false, ap, ◌∙◌,
  fun_ext, if◌then◌else◌, List, [], ◌∷◌, length, arith,
}
use stuos.Libc.Memory.{Ptr, Memory, store, HasString}
use stuos.Libc.Mem.Laws.{within}
use stuos.Libc.Str.{stpncpy_copy, pad, stpncpy, strncpy_copy, strncpy_pad, strncpy}
use stuos.Libc.Str.Compare.{HasString-next, HasString-at_zero}
use stuos.Libc.Str.Copy.{HasString-frame}

strncpy_pad_at :
    (left i : ℕ) (dest : Ptr) (m : Memory) (a : Ptr)
    → strncpy_pad left i dest m a ≡ (if within (dest + i) left a then 0 else m a)
unfolding strncpy_pad
strncpy_pad_at zero i dest m a = ground arith
strncpy_pad_at (suc left) i dest m a =
    ground (arith, strncpy_pad_at left (i + 1) dest (store m (dest + i) 0) a)

pad_at :
    (n : ℕ) (dest : Ptr) (m : Memory) (a : Ptr)
    → (pad n dest m).0 a ≡ (if within dest n a then 0 else m a)
unfolding pad
pad_at zero dest m a = ground arith
pad_at (suc n) dest m a = ground (arith, pad_at n (dest + 1) (store m dest 0) a)

pad_end : (n : ℕ) (dest : Ptr) (m : Memory) → (pad n dest m).1 ≡ dest + n
unfolding pad
pad_end zero dest m = omega arith
pad_end (suc n) dest m = omega (arith, pad_end n (dest + 1) (store m dest 0))

-- What the padded copy of the first bytes of `xs`, which lies at `src`, puts at `a`: a byte of
-- the string, then 0 up to `dest + n`.
abbrev pub padded : Memory → Ptr → Ptr → ℕ → ℕ → Ptr → ℕ
padded m dest src used n a =
    if within dest n a then if ltb (a - dest) used then m (src + (a - dest)) else 0 else m a

strncpy_loops_at :
    (left i : ℕ) (dest src : Ptr) (m : Memory) (xs : List ℕ) (a : Ptr)
    → HasString m (src + i) xs
    → (dest + (i + left) ≤ src) ⊎ (src + (i + length xs) < dest)
    → (let p = strncpy_copy left i dest src m in strncpy_pad p.left p.place dest p.memory a)
      ≡ padded m (dest + i) (src + i) (length xs) left a
unfolding strncpy_copy
strncpy_loops_at zero i dest src m xs a h apart = ground (arith, strncpy_pad_at 0 i dest m a)
strncpy_loops_at (suc left) i dest src m [] a h apart =
    ground (arith, strncpy_pad_at (suc left) i dest m a)
strncpy_loops_at (suc left) i dest src m (x ∷ xs) a h apart =
    let more : (m (src + i) != 0) ≡ true = ground arith in
    let m' : Memory = store m (dest + i) (m (src + i)) in
    let tail : HasString m' (src + (i + 1)) xs =
      HasString-frame m m' (src + (i + 1)) xs (λ b lo hi. ground arith)
        (HasString-next m src i xs h.3) in
    rw more (ground (arith, strncpy_loops_at left (i + 1) dest src m' xs a tail (omega arith)))

-- When the source string and the `n` bytes of the destination do not overlap, `strncpy` writes
-- the first `n` characters of the string there, and 0 in what is left of the `n` bytes; it
-- writes nowhere else and returns the destination.
pub strncpy-padded :
    (dest src : Ptr) (n : ℕ) (m : Memory) (xs : List ℕ)
    → HasString m src xs
    → (dest + n ≤ src) ⊎ (src + length xs < dest)
    → strncpy dest src n m ≡ (padded m dest src (length xs) n, dest)
unfolding strncpy
strncpy-padded dest src n m xs h apart =
    ap (λ r. (r, dest))
      (fun_ext
        λ a. ground (arith, strncpy_loops_at n 0 dest src m xs a (HasString-at_zero m src xs h)))

-- How many bytes `stpncpy` writes for a string of the given length: with no character left over
-- the count has wrapped below 0.
abbrev pub stpncpy_span : ℕ → ℕ → ℕ
stpncpy_span len n = if ltb len n then n else n + (2 ^ 64 - 1)

padded_step :
    (m : Memory) (dest src used n a : ℕ)
    → (dest ≤ src) ⊎ (src + used < dest)
    → padded (store m dest (m src)) (dest + 1) (src + 1) used n a
      ≡ padded m dest src (suc used) (suc n) a
padded_step m dest src used n a apart = ground arith

span_suc : (len n : ℕ) → stpncpy_span (suc len) (suc n) ≡ suc (stpncpy_span len n)
span_suc len n = ground arith

min-suc : (a b : ℕ) → min (suc a) (suc b) ≡ suc (min a b)
min-suc a b = omega arith

stpncpy_loops_at :
    (n : ℕ) (dest src : Ptr) (m : Memory) (xs : List ℕ) (a : Ptr)
    → HasString m src xs
    → (dest + n ≤ src) ⊎ (src + length xs < dest)
    → ((let p = stpncpy_copy n dest src m in (pad p.left p.place p.memory).0 a)
        ≡ padded m dest src (min n (length xs)) (stpncpy_span (length xs) n) a)
      × ((let p = stpncpy_copy n dest src m in (pad p.left p.place p.memory).1)
          ≡ dest + stpncpy_span (length xs) n)
unfolding stpncpy_copy
stpncpy_loops_at zero dest src m xs a h apart =
    (ground (arith, pad_at (2 ^ 64 - 1) dest m a), ground (arith, pad_end (2 ^ 64 - 1) dest m))
stpncpy_loops_at (suc n) dest src m [] a h apart = (
  ground (arith, pad_at n (dest + 1) (store m dest (m src)) a),
  ground (arith, pad_end n (dest + 1) (store m dest (m src))),
)
stpncpy_loops_at (suc n) dest src m (x ∷ xs) a h apart =
    let more : (m src == 0) ≡ false = ground arith in
    let m' : Memory = store m dest (m src) in
    let tail : HasString m' (src + 1) xs =
      HasString-frame m m' (src + 1) xs (λ b lo hi. ground arith) h.3 in
    let ih = stpncpy_loops_at n (dest + 1) (src + 1) m' xs a tail (omega arith) in
    rw (more, span_suc (length xs) n, min-suc n (length xs))
      (
        ih.0
            ∙ padded_step m dest src (min n (length xs)) (stpncpy_span (length xs) n) a
                (omega arith),
        omega (arith, ih.1),
      )

-- When the source string and the `n` bytes of the destination do not overlap, `stpncpy` copies
-- the first `n` characters. Of a string shorter than `n` it pads to `n` bytes and returns the
-- end of those. Of any other string it goes on to zero 2^64 - 1 bytes behind the `n`.
pub stpncpy-padded :
    (dest src : Ptr) (n : ℕ) (m : Memory) (xs : List ℕ)
    → HasString m src xs
    → (dest + n ≤ src) ⊎ (src + length xs < dest)
    → ((a : Ptr)
        → (stpncpy dest src n m).0 a
          ≡ padded m dest src (min n (length xs)) (stpncpy_span (length xs) n) a)
      × ((stpncpy dest src n m).1 ≡ dest + stpncpy_span (length xs) n)
unfolding stpncpy
stpncpy-padded dest src n m xs h apart = (
  λ a. (stpncpy_loops_at n dest src m xs a h apart).0,
  (stpncpy_loops_at n dest src m xs 0 h apart).1,
)
