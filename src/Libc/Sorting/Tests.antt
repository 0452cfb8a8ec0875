-- ===== src/Libc/Sorting/Tests.antt =====
-- `qsort` on a concrete array.
use mathlib.Core.List.{Perm}
use stuos.Prelude.{ℕ, ◌≤◌, ◌≡◌, refl, [], ◌∷◌, get_or, arith}
use stuos.Prelude.Int.{ℤ, sub_ℕ}
use stuos.Libc.Sorting.{qsort}
use stuos.Libc.Sorting.Insert.{IsOrder, IsSorted, items}
use stuos.Libc.Sorting.Order.{qsort-IsSorted}

abbrev by_number : ℕ → ℕ → ℤ
by_number x y = sub_ℕ x y

by_number-IsOrder : IsOrder by_number
by_number-IsOrder = record { asym = λ x y gt. ground arith; trans = λ x y z le le'. ground arith }

abbrev numbers : ℕ → ℕ
numbers i = get_or (3 ∷ 1 ∷ 2 ∷ 1 ∷ []) i 9

sorted_numbers : items 5 (qsort by_number 4 numbers) ≡ 9 ∷ 3 ∷ 2 ∷ 1 ∷ 1 ∷ []
unfolding qsort
sorted_numbers = refl

qsort-IsSorted_example :
    IsSorted by_number 4 (qsort by_number 4 numbers)
    × Perm (items 4 (qsort by_number 4 numbers)) (items 4 numbers)
    × ((k : ℕ) → 4 ≤ k → qsort by_number 4 numbers k ≡ numbers k)
qsort-IsSorted_example = qsort-IsSorted by_number 4 numbers by_number-IsOrder
