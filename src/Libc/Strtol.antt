-- ===== src/Libc/Strtol.antt =====
-- `strtol`, `strtoul` and their kin, custom_libc/strtol.c. A base is not negative. The loops
-- recur on fuel. A routine returns its value, the address that it stores through `endptr`, and
-- `errno` if it sets it.
pub mod Digits
pub mod Value
pub mod Unsigned
mod Tests
use stuos.Prelude.{
  ℕ, zero, suc, ◌+◌, ◌-◌, ◌*◌, ◌/◌, ◌%◌, ◌^◌, Bool, true, false, ◌==◌, leb, ltb, ◌&&◌, ◌||◌, not,
  if◌then◌else◌, Option, none, some,
}
use stuos.Prelude.Int.{ℤ, pos, negsuc, pos_part, sub_ℕ}
use stuos.Libc.Memory.{Ptr, Memory, char_value, Run, returns, out_of_fuel, ◌>>=◌}
use stuos.Libc.Ctype.{isspace, tolower, in_range, is_char}

abbrev pub ulong_max : ℕ
ulong_max = 2 ^ 64 - 1

abbrev pub long_max : ℕ
long_max = 2 ^ 63 - 1

pub data Errno : Type 0 where
  einval : Errno
  erange : Errno

-- The digit that a character stands for; none for the -1 of the source.
pub digit_value : ℤ → Option ℕ
digit_value c =
    let l = tolower c in
    if in_range 48 57 l
    then some (pos_part l - 48)
    else if in_range 97 122 l
    then some (pos_part l - 97 + 10)
    else none

pub record StrToResult : Type 0 where
  pub overflow : Bool
  pub sign : Bool
  pub magnitude : ℕ

-- What a digit does to the result.
pub add_digit : ℕ → ℕ → StrToResult → StrToResult
add_digit base d r =
    if r.overflow
    then r
    else if ltb ((ulong_max - d) / base) r.magnitude
    then record r { overflow = true }
    else record r { magnitude = (r.magnitude * base + d) % 2 ^ 64 }

-- The digit that the loop goes on with, below the base.
pub digit_in : ℕ → ℕ → Option ℕ
digit_in base byte = elim (digit_value (char_value byte)) [
  | some d ↦ if leb base d then none else some d
  | none ↦ none
]

-- `while(*current)`: where it ends, and the result.
pub digits_loop : ℕ → Ptr → ℕ → StrToResult → Memory → Run (Ptr × StrToResult)
digits_loop zero current base r m = out_of_fuel
digits_loop (suc fuel) current base r m =
    if m current == 0 then returns (current, r) else elim (digit_in base (m current)) [
      | some d ↦ digits_loop fuel (current + 1) base (add_digit base d r) m
      | none ↦ returns (current + 1, r)
    ]

pub skip_space : ℕ → Ptr → Memory → Run Ptr
skip_space zero current m = out_of_fuel
skip_space (suc fuel) current m =
    if isspace (char_value (m current)) then skip_space fuel (current + 1) m else returns current

-- The base, and where the digits start, if no base is set.
pub default_base : Ptr → ℕ → Memory → ℕ × Ptr
default_base current base m =
    if base == 0
    then if m current == 48 && is_char 120 (tolower (char_value (m (current + 1))))
      then (16, current + 2)
      else if m current == 48
      then (8, current)
      else (10, current)
    else (base, current)

-- The result, and the address that `endptr` gets.
pub strto : ℕ → Ptr → ℕ → Memory → Run (StrToResult × Ptr)
strto fuel nptr base m = skip_space fuel nptr m >>= λ signed.
    let negative = m signed == 45 in
    let start = if m signed == 43 || negative then signed + 1 else signed in
    let (radix, checkpoint) = default_base start base m in
    digits_loop fuel checkpoint radix (record { overflow = false; sign = negative; magnitude = 0 })
      m
    >>= λ (current, r). returns (r, (if current == checkpoint then nptr else current))

-- The result as a `long`, and `errno`.
pub as_long : StrToResult → ℤ × Option Errno
as_long r =
    if r.sign
    then if ltb (long_max + 1) r.magnitude || r.overflow
      then (negsuc long_max, some erange)
      else (sub_ℕ 0 r.magnitude, none)
    else if ltb long_max r.magnitude || r.overflow
    then (pos long_max, some erange)
    else (pos r.magnitude, none)

pub strtol : ℕ → Ptr → ℕ → Memory → Run (ℤ × Option Ptr × Option Errno)
strtol fuel nptr base m =
    if ltb 36 base
    then returns (pos 0, none, some einval)
    else strto fuel nptr base m >>= λ (r, end). returns ((as_long r).0, some end, (as_long r).1)

-- The result as an `unsigned long`, and `errno`.
pub as_ulong : StrToResult → ℕ × Option Errno
as_ulong r =
    if r.overflow
    then (ulong_max, some erange)
    else if r.sign
    then ((2 ^ 64 - r.magnitude) % 2 ^ 64, none)
    else (r.magnitude, none)

pub strtoul : ℕ → Ptr → ℕ → Memory → Run (ℕ × Option Ptr × Option Errno)
strtoul fuel nptr base m =
    if ltb 36 base
    then returns (0, none, some einval)
    else strto fuel nptr base m >>= λ (r, end). returns ((as_ulong r).0, some end, (as_ulong r).1)
