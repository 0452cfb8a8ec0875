-- ===== src/Libc/Mem.antt =====
-- `memcpy`, `mempcpy`, `memset`, `memmove` and `memcmp` of custom_libc/string.c.
-- Each loop recurs on the rounds that are left; a routine that writes returns the new memory
-- beside its value.
pub mod Laws
mod Tests
use stuos.Prelude.{ℕ, zero, suc, ◌+◌, ◌%◌, ◌^◌, ◌!=◌, ltb, if◌then◌else◌}
use stuos.Prelude.Int.{ℤ, pos, negsuc}
use stuos.Libc.Memory.{Ptr, Memory, store}

-- `for (i = ...; i < n; i++) pdest[i] = psrc[i]` from index `i`, with `left` rounds to go.
pub copy_up : (left i : ℕ) → Ptr → Ptr → Memory → Memory
copy_up zero i dest src m = m
copy_up (suc left) i dest src m = copy_up left (i + 1) dest src (store m (dest + i) (m (src + i)))

-- `for (i = n; i > 0; i--) pdest[i - 1] = psrc[i - 1]`
copy_down : (i : ℕ) → Ptr → Ptr → Memory → Memory
copy_down zero dest src m = m
copy_down (suc i) dest src m = copy_down i dest src (store m (dest + i) (m (src + i)))

pub memcpy : Ptr → Ptr → ℕ → Memory → Memory × Ptr
unfolding copy_up
memcpy dest src n m = (copy_up n 0 dest src m, dest)

pub mempcpy : Ptr → Ptr → ℕ → Memory → Memory × Ptr
unfolding copy_up
mempcpy dest src n m = (copy_up n 0 dest src m, dest + n)

-- The loop of `memset`, at index `i`.
fill : (left i : ℕ) → Ptr → ℕ → Memory → Memory
fill zero i s v m = m
fill (suc left) i s v m = fill left (i + 1) s v (store m (s + i) v)

pub memset : Ptr → ℕ → ℕ → Memory → Memory × Ptr
unfolding fill
memset s c n m = (fill n 0 s (c % 2 ^ 8) m, s)

pub memmove : Ptr → Ptr → ℕ → Memory → Memory × Ptr
unfolding copy_up copy_down
memmove dest src n m = (
  if ltb dest src
      then copy_up n 0 dest src m
      else if ltb src dest
      then copy_down n dest src m
      else m,
  dest,
)

-- The loop of `memcmp`, at index `i`.
memcmp_loop : (left i : ℕ) → Ptr → Ptr → Memory → ℤ
memcmp_loop zero i s1 s2 m = pos 0
memcmp_loop (suc left) i s1 s2 m =
    if m (s1 + i) != m (s2 + i)
    then if ltb (m (s1 + i)) (m (s2 + i)) then negsuc 0 else pos 1
    else memcmp_loop left (i + 1) s1 s2 m

pub memcmp : Ptr → Ptr → ℕ → Memory → ℤ
unfolding memcmp_loop
memcmp s1 s2 n m = memcmp_loop n 0 s1 s2 m
