-- ===== src/Libc/Str/Tests.antt =====
-- Runs of the string routines at a concrete memory, and their theorems there.
use stuos.Prelude.{ℕ, ◌≡◌, refl, ◌↔◌, List, [], ◌∷◌, get_or, arith}
use stuos.Prelude.Int.{pos, negsuc, ◌-ℤ◌}
use stuos.Libc.Memory.{Memory, returns, HasString}
use stuos.Libc.Str.{strcmp}
use stuos.Libc.Str.Compare.{compare, strcmp-compare}

-- "ab" at 1, "abz" at 4, and room from 10 on.
abbrev bytes : List ℕ
bytes = 0 ∷ 97 ∷ 98 ∷ 0 ∷ 97 ∷ 98 ∷ 122 ∷ 0 ∷ 7 ∷ 7 ∷ 7 ∷ 7 ∷ 7 ∷ 7 ∷ 7 ∷ []

abbrev memory : Memory
memory a = get_or bytes a 0

abbrev ab : List ℕ
ab = 97 ∷ 98 ∷ []

abbrev abz : List ℕ
abz = 97 ∷ 98 ∷ 122 ∷ []

ab_at_one : HasString memory 1 ab
ab_at_one = omega arith

abz_at_four : HasString memory 4 abz
abz_at_four = omega arith

strcmp-compare_example :
    (strcmp 9 1 4 memory ≡ returns (compare ab abz)) × ((compare ab abz ≡ pos 0) ↔ (ab ≡ abz))
strcmp-compare_example =
    strcmp-compare 9 1 4 memory ab abz ab_at_one abz_at_four (omega arith) (omega arith)

strcmp_shorter : strcmp 9 1 4 memory ≡ returns (negsuc 121)
unfolding strcmp ◌-ℤ◌
strcmp_shorter = refl
