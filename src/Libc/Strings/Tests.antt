-- ===== src/Libc/Strings/Tests.antt =====
-- Two strings that differ in their case.
use stuos.Prelude.{◌≡◌, refl, ◌==◌, if◌then◌else◌, [], ◌∷◌, arith}
use stuos.Prelude.Int.{ℤ}
use stuos.Libc.Memory.{Memory, HasString, returns}
use stuos.Libc.Strings.{strcasecmp}
use stuos.Libc.Strings.Fold.{same_fold, is_zero, strcasecmp-same_fold}

-- "aB" at 100 and "Ab" at 200.
abbrev two_strings : Memory
two_strings a =
    if a == 100
    then 97
    else if a == 101
    then 66
    else if a == 200
    then 65
    else if a == 201
    then 98
    else 0

first-HasString : HasString two_strings 100 (97 ∷ 66 ∷ [])
first-HasString = (refl, omega arith, omega arith, (refl, omega arith, omega arith, refl))

second-HasString : HasString two_strings 200 (65 ∷ 98 ∷ [])
second-HasString = (refl, omega arith, omega arith, (refl, omega arith, omega arith, refl))

strcasecmp-same_fold_example :
    (d : ℤ) × (strcasecmp 3 100 200 two_strings ≡ returns d)
    × (is_zero d ≡ same_fold (97 ∷ 66 ∷ []) (65 ∷ 98 ∷ []))
strcasecmp-same_fold_example =
    strcasecmp-same_fold 3 100 200 two_strings (97 ∷ 66 ∷ []) (65 ∷ 98 ∷ []) first-HasString
      second-HasString (omega arith)
