-- ===== src/Libc/Sorting.antt =====
-- custom_libc/qsort.c. An array is the element at each index; the copies of `size` bytes by
-- `memcpy` are copies of whole elements. `compar` is a function of the two elements.
pub mod Insert
pub mod Order
mod Tests
use stuos.Prelude.{ℕ, zero, suc, ◌-◌, Bool, ◌==◌, if◌then◌else◌}
use stuos.Prelude.Int.{ℤ, pos, ltb_ℤ}

module _ {A : Type 0} where
  abbrev pub put : ℕ → A → (ℕ → A) → ℕ → A
  put i v arr j = if j == i then v else arr j

  abbrev pub is_greater : (A → A → ℤ) → A → A → Bool
  is_greater compar x y = ltb_ℤ (pos 0) (compar x y)

  -- The inner loop from index `j` on, and the copy of `tmp` behind it.
  abbrev pub insert : (A → A → ℤ) → ℕ → A → (ℕ → A) → ℕ → A
  insert compar zero tmp arr = put 0 tmp arr
  insert compar (suc j) tmp arr =
      if is_greater compar (arr j) tmp
      then insert compar j tmp (put (suc j) (arr j) arr)
      else put (suc j) tmp arr

  abbrev pub qsort_loop : (A → A → ℤ) → ℕ → ℕ → (ℕ → A) → ℕ → A
  qsort_loop compar zero i arr = arr
  qsort_loop compar (suc rounds) i arr =
      qsort_loop compar rounds (suc i) (insert compar i (arr i) arr)

  pub qsort : (A → A → ℤ) → ℕ → (ℕ → A) → ℕ → A
  qsort compar nmemb arr = qsort_loop compar (nmemb - 1) 1 arr
