-- ===== src/Libc/Str.antt =====
-- The string routines of custom_libc/string.c. A loop that runs to the end of a string recurs on
-- fuel, which the laws bound by the string's length; a counted loop recurs on its count.
-- A pointer result is an option, `none` for NULL.
pub mod Compare
pub mod Copy
pub mod Bounded
pub mod Span
mod Tests
use stuos.Prelude.{
  ℕ, zero, suc, ◌+◌, ◌-◌, ◌^◌, Bool, true, false, ◌%◌, ◌==◌, ◌!=◌, ltb, ◌&&◌, ◌||◌, if◌then◌else◌,
  Option, none, some,
}
use stuos.Prelude.Int.{ℤ, pos, ◌-ℤ◌, pos_part, neg_part}
use stuos.Libc.Memory.{Ptr, Memory, store, char_value, Run, returns, out_of_fuel, ◌>>=◌}

-- Equality of two `int`s.
abbrev pub eq_int : ℤ → ℤ → Bool
eq_int a b = pos_part a == pos_part b && neg_part a == neg_part b

strlen_loop : ℕ → Ptr → ℕ → Memory → Run ℕ
strlen_loop zero str result m = out_of_fuel
strlen_loop (suc fuel) str result m =
    let rest = strlen_loop fuel (str + 1) (result + 1) m in
    if m str == 0 then returns result else rest

pub strlen : ℕ → Ptr → Memory → Run ℕ
unfolding strlen_loop
strlen fuel str m = strlen_loop fuel str 0 m

-- `str + i` for an `int i` that is kept as its 32 bits.
abbrev pub at_int : Ptr → ℕ → Ptr
at_int str i = if ltb i (2 ^ 31) then str + i else (str + i + 2 ^ 64 - 2 ^ 32) % 2 ^ 64

-- The index at which the loop of `strcmp` stops. The `int` of the source, whose overflow C leaves
-- undefined, wraps in its 32 bits.
strcmp_loop : ℕ → ℕ → Ptr → Ptr → Memory → Run ℕ
strcmp_loop zero i str1 str2 m = out_of_fuel
strcmp_loop (suc fuel) i str1 str2 m =
    let rest = strcmp_loop fuel ((i + 1) % 2 ^ 32) str1 str2 m in
    let c1 = m (at_int str1 i) in
    let c2 = m (at_int str2 i) in
    if c1 == c2 then if c1 == 0 || c2 == 0 then returns i else rest else returns i

-- What `strcmp` returns for the index at which its loop stopped.
strcmp_value : Ptr → Ptr → Memory → ℕ → ℤ
strcmp_value str1 str2 m i =
    let c1 = m (at_int str1 i) in
    let c2 = m (at_int str2 i) in
    if c1 == 0 && c2 == 0 then pos 0 else char_value c1 -ℤ char_value c2

pub strcmp : ℕ → Ptr → Ptr → Memory → Run ℤ
unfolding strcmp_loop strcmp_value
strcmp fuel str1 str2 m = do
  i ← strcmp_loop fuel 0 str1 str2 m
  returns (strcmp_value str1 str2 m i)

pub strncmp : ℕ → Ptr → Ptr → Memory → ℤ
strncmp zero s1 s2 m = pos 0
strncmp (suc n) s1 s2 m =
    if m s1 != m s2
    then char_value (m s1) -ℤ char_value (m s2)
    else if m s1 == 0
    then pos 0
    else strncmp n (s1 + 1) (s2 + 1) m

-- `while ((*dest++ = *src++));` with the pointer behind the last byte written.
copy_string : ℕ → Ptr → Ptr → Memory → Run (Memory × Ptr)
copy_string zero dest src m = out_of_fuel
copy_string (suc fuel) dest src m =
    let m' = store m dest (m src) in
    let rest = copy_string fuel (dest + 1) (src + 1) m' in
    if m src == 0 then returns (m', dest + 1) else rest

pub stpcpy : ℕ → Ptr → Ptr → Memory → Run (Memory × Ptr)
unfolding copy_string
stpcpy fuel dest src m = do (m', dest') ← copy_string fuel dest src m; returns (m', dest' - 1)

pub strcpy : ℕ → Ptr → Ptr → Memory → Run (Memory × Ptr)
unfolding copy_string
strcpy fuel dest src m = do (m', dest') ← copy_string fuel dest src m; returns (m', dest)

-- What a loop of `stpncpy` or `strncpy` leaves: the count still to go, the place, the memory.
pub record Progress : Type 0 where
  pub left : ℕ
  pub place : Ptr
  pub memory : Memory

-- `while (n-- > 0) if ((*dest++ = *src++) == '\0') break;` The test that fails at 0 has
-- decremented the `size_t` below 0 all the same.
stpncpy_copy : ℕ → Ptr → Ptr → Memory → Progress
stpncpy_copy zero dest src m = record { left = 2 ^ 64 - 1; place = dest; memory = m }
stpncpy_copy (suc n) dest src m =
    let m' = store m dest (m src) in
    if m src == 0
    then record { left = n; place = dest + 1; memory = m' }
    else stpncpy_copy n (dest + 1) (src + 1) m'

-- `while (n-- > 0) *dest++ = '\0';`
pad : ℕ → Ptr → Memory → Memory × Ptr
pad zero dest m = (m, dest)
pad (suc n) dest m = pad n (dest + 1) (store m dest 0)

pub stpncpy : Ptr → Ptr → ℕ → Memory → Memory × Ptr
unfolding stpncpy_copy pad
stpncpy dest src n m = let p = stpncpy_copy n dest src m in pad p.left p.place p.memory

-- The first loop of `strncpy`, at index `i` with `left` of the `n` rounds to go.
strncpy_copy : (left i : ℕ) → Ptr → Ptr → Memory → Progress
strncpy_copy zero i dest src m = record { left = 0; place = i; memory = m }
strncpy_copy (suc left) i dest src m =
    if m (src + i) != 0
    then strncpy_copy left (i + 1) dest src (store m (dest + i) (m (src + i)))
    else record { left = suc left; place = i; memory = m }

-- `while (i < n) dest[i++] = '\0';`
strncpy_pad : (left i : ℕ) → Ptr → Memory → Memory
strncpy_pad zero i dest m = m
strncpy_pad (suc left) i dest m = strncpy_pad left (i + 1) dest (store m (dest + i) 0)

pub strncpy : Ptr → Ptr → ℕ → Memory → Memory × Ptr
unfolding strncpy_copy strncpy_pad
strncpy dest src n m =
    let p = strncpy_copy n 0 dest src m in (strncpy_pad p.left p.place dest p.memory, dest)

pub strchr : ℕ → Ptr → ℤ → Memory → Run (Option Ptr)
strchr zero s c m = out_of_fuel
strchr (suc fuel) s c m =
    let rest = strchr fuel (s + 1) c m in
    if eq_int (char_value (m s)) c
    then returns (some s)
    else if m s == 0
    then returns none
    else rest

pub strchrnul : ℕ → Ptr → ℤ → Memory → Run Ptr
strchrnul zero s c m = out_of_fuel
strchrnul (suc fuel) s c m =
    let rest = strchrnul fuel (s + 1) c m in
    if eq_int (char_value (m s)) c then returns s else if m s == 0 then returns s else rest

abbrev pub is_null : Option Ptr → Bool
is_null none = true
is_null (some p) = false

-- The loop of `strspn`. Each call of `strchr` has the fuel `k`.
strspn_loop : (k : ℕ) → ℕ → Ptr → Ptr → ℕ → Memory → Run ℕ
strspn_loop k zero s accept result m = out_of_fuel
strspn_loop k (suc fuel) s accept result m =
    let rest = strspn_loop k fuel (s + 1) accept (result + 1) m in
    strchr k accept (char_value (m s)) m >>= λ found. if is_null found then returns result else rest

pub strspn : ℕ → Ptr → Ptr → Memory → Run ℕ
unfolding strspn_loop
strspn fuel s accept m = strspn_loop fuel fuel s accept 0 m

strcspn_loop : (k : ℕ) → ℕ → Ptr → Ptr → ℕ → Memory → Run ℕ
strcspn_loop k zero s reject result m = out_of_fuel
strcspn_loop k (suc fuel) s reject result m =
    let rest = strcspn_loop k fuel (s + 1) reject (result + 1) m in
    strchr k reject (char_value (m s)) m >>= λ found. if is_null found then rest else returns result

pub strcspn : ℕ → Ptr → Ptr → Memory → Run ℕ
unfolding strcspn_loop
strcspn fuel s reject m = strcspn_loop fuel fuel s reject 0 m
