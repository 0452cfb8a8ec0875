-- ===== src/Libc/Strtol/Tests.antt =====
-- Number parsing on small strings, and the classes of a character.
use stuos.Prelude.{ℕ, ◌≡◌, refl, ◌==◌, if◌then◌else◌, List, [], ◌∷◌, none, some, arith}
use stuos.Prelude.Int.{negsuc}
use stuos.Libc.Memory.{Ptr, Memory, HasString, returns}
use stuos.Libc.Ctype.{tolower}
use stuos.Libc.Strtol.{strtol, strtoul, digit_in, digit_value}
use stuos.Libc.Strtol.Digits.{value, digits, passed}
use stuos.Libc.Strtol.Unsigned.{wrap, strtoul-wrap}
use stuos.Libc.Strtol.Value.{clamp, skip, without_sign, is_minus, strtol-clamp}

-- " -42x"
abbrev number : List ℕ
number = 32 ∷ 45 ∷ 52 ∷ 50 ∷ 120 ∷ []

abbrev number_memory : Memory
number_memory a =
    if a == 100
    then 32
    else if a == 101
    then 45
    else if a == 102
    then 52
    else if a == 103
    then 50
    else if a == 104
    then 120
    else 0

number-HasString : HasString number_memory 100 number
number-HasString = (
  refl,
  omega arith,
  omega arith,
  (
    refl,
    omega arith,
    omega arith,
    (
      refl,
      omega arith,
      omega arith,
      (refl, omega arith, omega arith, (refl, omega arith, omega arith, refl)),
    ),
  ),
)

strtol-clamp_example :
    (end : Ptr) × (strtol 6 100 10 number_memory
      ≡ returns (
        (clamp (is_minus (skip number)) (value 10 0 (digits 10 (without_sign (skip number))))).0,
        some end,
        (clamp (is_minus (skip number)) (value 10 0 (digits 10 (without_sign (skip number))))).1,
      ))
strtol-clamp_example =
    strtol-clamp 6 100 10 number_memory number (omega arith) (omega arith) number-HasString
      (omega arith)

strtoul-wrap_example :
    (end : Ptr) × (strtoul 6 100 10 number_memory
      ≡ returns (
        (wrap (is_minus (skip number)) (value 10 0 (digits 10 (without_sign (skip number))))).0,
        some end,
        (wrap (is_minus (skip number)) (value 10 0 (digits 10 (without_sign (skip number))))).1,
      ))
strtoul-wrap_example =
    strtoul-wrap 6 100 10 number_memory number (omega arith) (omega arith) number-HasString
      (omega arith)

minus_forty_two :
    clamp (is_minus (skip number)) (value 10 0 (digits 10 (without_sign (skip number))))
    ≡ (negsuc 41, none)
minus_forty_two = refl

-- The end pointer stands behind the "x".
one_too_far : passed 10 (52 ∷ 50 ∷ 120 ∷ []) ≡ 3
unfolding digit_in digit_value tolower
one_too_far = refl
