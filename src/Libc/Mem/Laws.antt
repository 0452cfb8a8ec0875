-- ===== src/Libc/Mem/Laws.antt =====
-- What the memory routines do at every address.
use stuos.Prelude.{
  ℕ, Bool, zero, suc, ◌+◌, ◌-◌, ◌%◌, ◌^◌, ◌≤◌, ◌<◌, ◌≡◌, refl, ◌≢◌, ◌⊎◌, inl, inr, ap, fun_ext,
  ◌&&◌, arith, leb, ltb, if◌then◌else◌, Bool-cases, ◌!=◌,
}
use stuos.Prelude.Int.{ℤ, pos, negsuc}
use stuos.Libc.Memory.{Ptr, Memory, store}
use stuos.Libc.Mem.{copy_up, copy_down, memcpy, fill, memset, memmove, memcmp_loop, memcmp}

-- `a` lies in the `n` bytes from `p`.
abbrev pub within : Ptr → ℕ → Ptr → Bool
within p n a = leb p a && ltb a (p + n)

-- The memory `m` with the `n` bytes from `src` copied to `dest`.
abbrev pub copied : Memory → Ptr → Ptr → ℕ → Memory
copied m dest src n a = if within dest n a then m (src + (a - dest)) else m a

copy_up_at :
    (left i : ℕ) (dest src : Ptr) (m : Memory) (a : Ptr)
    → (dest ≤ src) ⊎ (src + (i + left) ≤ dest)
    → copy_up left i dest src m a ≡ (if within (dest + i) left a then m (src + (a - dest)) else m a)
unfolding copy_up
copy_up_at zero i dest src m a apart = ground arith
copy_up_at (suc left) i dest src m a apart =
    ground (arith, copy_up_at left (i + 1) dest src (store m (dest + i) (m (src + i))) a)

copy_down_at :
    (i : ℕ) (dest src : Ptr) (m : Memory) (a : Ptr)
    → src ≤ dest
    → copy_down i dest src m a ≡ (if within dest i a then m (src + (a - dest)) else m a)
unfolding copy_down
copy_down_at zero dest src m a above = ground arith
copy_down_at (suc i) dest src m a above =
    ground (arith, copy_down_at i dest src (store m (dest + i) (m (src + i))) a)

-- `memmove` copies the `n` bytes as they stood before the call, however the two regions
-- overlap, leaves every other byte as it was, and returns the destination.
pub memmove_lem :
    (dest src : Ptr) (n : ℕ) (m : Memory) → memmove dest src n m ≡ (copied m dest src n, dest)
unfolding memmove
memmove_lem dest src n m =
    ap (λ r. (r, dest))
      (fun_ext λ a. ground (arith, copy_up_at n 0 dest src m a, copy_down_at n dest src m a))

-- `memcpy` of two regions that do not overlap copies the `n` bytes, leaves every other byte as
-- it was, and returns the destination.
pub memcpy_lem :
    (dest src : Ptr) (n : ℕ) (m : Memory)
    → (dest + n ≤ src) ⊎ (src + n ≤ dest)
    → memcpy dest src n m ≡ (copied m dest src n, dest)
unfolding memcpy
memcpy_lem dest src n m apart =
    ap (λ r. (r, dest)) (fun_ext λ a. ground (arith, copy_up_at n 0 dest src m a))

fill_at :
    (left i : ℕ) (s : Ptr) (v : ℕ) (m : Memory) (a : Ptr)
    → fill left i s v m a ≡ (if within (s + i) left a then v else m a)
unfolding fill
fill_at zero i s v m a = ground arith
fill_at (suc left) i s v m a = ground (arith, fill_at left (i + 1) s v (store m (s + i) v) a)

-- `memset` writes the low byte of `c` to the `n` bytes from `s`, leaves every other byte as it
-- was, and returns `s`.
pub memset_lem :
    (s : Ptr) (c n : ℕ) (m : Memory)
    → ((a : Ptr) → (memset s c n m).0 a ≡ (if within s n a then c % 2 ^ 8 else m a))
      × ((memset s c n m).1 ≡ s)
unfolding memset
memset_lem s c n m = (λ a. ground (arith, fill_at n 0 s (c % 2 ^ 8) m a), refl)

-- The bytes at `s1` and `s2` agree below index `i` and differ there.
pub record IsFirstDiff (m : Memory) (s1 s2 n i : ℕ) : Type 0 where
  pub inside : i < n
  pub before : (j : ℕ) → j < i → m (s1 + j) ≡ m (s2 + j)
  pub differ : m (s1 + i) ≢ m (s2 + i)

-- How two regions of `n` bytes compare, with the value that `memcmp` has for each outcome.
abbrev pub Compared : Memory → Ptr → Ptr → ℕ → ℤ → Type 0
Compared m s1 s2 n v =
    (((j : ℕ) → j < n → m (s1 + j) ≡ m (s2 + j)) × (v ≡ pos 0))
    ⊎ ((i : ℕ) × IsFirstDiff m s1 s2 n i
        × (v ≡ (if ltb (m (s1 + i)) (m (s2 + i)) then negsuc 0 else pos 1)))

-- The bytes below `i + 1` agree when those below `i` and those at `i` do.
agree_next :
    (m : Memory) (s1 s2 i : ℕ)
    → ((j : ℕ) → j < i → m (s1 + j) ≡ m (s2 + j))
    → m (s1 + i) ≡ m (s2 + i)
    → (j : ℕ) → j < i + 1
    → m (s1 + j) ≡ m (s2 + j)
agree_next m s1 s2 i before here j h = ground (arith, before j)

memcmp_loop-Compared :
    (left i n : ℕ) (s1 s2 : Ptr) (m : Memory)
    → i + left ≡ n
    → ((j : ℕ) → j < i → m (s1 + j) ≡ m (s2 + j))
    → Compared m s1 s2 n (memcmp_loop left i s1 s2 m)
unfolding memcmp_loop
memcmp_loop-Compared zero i n s1 s2 m e before = inl (λ j h. before j (omega arith), refl)
memcmp_loop-Compared (suc left) i n s1 s2 m e before =
    elim (Bool-cases (m (s1 + i) != m (s2 + i))) [
      | inl differ ↦
          rw differ
            (inr (i, record { inside = omega arith; before = before; differ = ground arith }, refl))
      | inr same ↦ rw same (
          memcmp_loop-Compared left (i + 1) n s1 s2 m (omega arith)
            (agree_next m s1 s2 i before (ground arith)))
    ]

-- `memcmp` is 0 when all `n` bytes agree, and else -1 or 1 by the first bytes that differ, read
-- as unsigned.
pub memcmp-Compared : (s1 s2 : Ptr) (n : ℕ) (m : Memory) → Compared m s1 s2 n (memcmp s1 s2 n m)
unfolding memcmp
memcmp-Compared s1 s2 n m =
    memcmp_loop-Compared n 0 n s1 s2 m (omega arith) (λ j h. absurd (omega arith))
