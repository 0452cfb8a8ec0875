-- ===== src/Libc/Sorting/Order.antt =====
-- `qsort` of custom_libc/qsort.c puts the elements in order and keeps them all.
use mathlib.Core.List.Perm
use mathlib.Core.List.{Perm}
use stuos.Prelude.{ℕ, zero, suc, ◌+◌, ◌-◌, ◌≤◌, ◌≡◌, refl, sym, ◌∙◌, subst, arith, ◌∷◌}
use stuos.Prelude.Int.{ℤ}
use stuos.Libc.Sorting.{insert, qsort_loop, qsort}
use stuos.Libc.Sorting.Insert.{IsOrder, items, IsSorted, insert-above, insert-Perm, insert-IsSorted}

module _ {A : Type 0} (compar : A → A → ℤ) where
  qsort_loop-IsSorted :
      (order : IsOrder compar) (rounds i : ℕ) (arr : ℕ → A)
      → IsSorted compar i arr
      → IsSorted compar (i + rounds) (qsort_loop compar rounds i arr)
  qsort_loop-IsSorted order zero i arr sorted m k less small =
      sorted m k less (omega (arith, small))
  qsort_loop-IsSorted order (suc rounds) i arr sorted m k less small =
      qsort_loop-IsSorted order rounds (suc i) (insert compar i (arr i) arr)
        (insert-IsSorted compar order i (arr i) arr sorted) m k less (omega (arith, small))

  -- An insertion keeps the elements of the whole array.
  insert-items :
      (m i : ℕ) (arr : ℕ → A)
      → Perm (items (m + suc i) (insert compar i (arr i) arr)) (items (m + suc i) arr)
  insert-items zero i arr =
      let size : 0 + suc i ≡ suc i = omega arith in rw size (insert-Perm compar i (arr i) arr)
  insert-items (suc m) i arr =
      let size : suc m + suc i ≡ suc (m + suc i) = omega arith in
      let same = insert-above compar i (arr i) arr (m + suc i) (omega arith) in
      let rest = insert-items m i arr in
      rw size (
        subst
          (λ x.
            Perm (x ∷ items (m + suc i) (insert compar i (arr i) arr))
              (items (suc (m + suc i)) arr))
          (sym same) (Perm.cons (arr (m + suc i)) rest))

  qsort_loop-above :
      (rounds i : ℕ) (arr : ℕ → A) (k : ℕ)
      → i + rounds ≤ k
      → qsort_loop compar rounds i arr k ≡ arr k
  qsort_loop-above zero i arr k above = refl
  qsort_loop-above (suc rounds) i arr k above =
      qsort_loop-above rounds (suc i) (insert compar i (arr i) arr) k (omega (arith, above))
      ∙ insert-above compar i (arr i) arr k (omega (arith, above))

  qsort_loop-Perm :
      (rounds i n : ℕ) (arr : ℕ → A)
      → i + rounds ≤ n
      → Perm (items n (qsort_loop compar rounds i arr)) (items n arr)
  qsort_loop-Perm zero i n arr le = Perm.refl _
  qsort_loop-Perm (suc rounds) i n arr le =
      let all : n - suc i + suc i ≡ n = omega (arith, le) in
      Perm.trans
        (qsort_loop-Perm rounds (suc i) n (insert compar i (arr i) arr) (omega (arith, le)))
        (subst (λ size. Perm (items size (insert compar i (arr i) arr)) (items size arr)) all
          (insert-items (n - suc i) i arr))

-- `qsort` with a comparison that orders the elements: afterwards no element is greater than one
-- behind it, the elements are those of before, each as often, and nothing behind the array is
-- touched.
pub qsort-IsSorted :
    {A : Type 0} (compar : A → A → ℤ) (nmemb : ℕ) (arr : ℕ → A)
    → IsOrder compar
    → IsSorted compar nmemb (qsort compar nmemb arr)
      × Perm (items nmemb (qsort compar nmemb arr)) (items nmemb arr)
      × ((k : ℕ) → nmemb ≤ k → qsort compar nmemb arr k ≡ arr k)
unfolding qsort
qsort-IsSorted compar zero arr order =
    (λ i k less small. absurd (omega (arith, small)), Perm.refl _, λ k le. refl)
qsort-IsSorted compar (suc n) arr order =
    let rounds : suc n - 1 ≡ n = omega arith in
    rw rounds (
      λ i k less small.
          qsort_loop-IsSorted compar order n 1 arr (λ m l lt one. absurd (omega (arith, lt, one))) i
            k less (omega (arith, small)),
      qsort_loop-Perm compar n 1 (suc n) arr (omega arith),
      λ k le. qsort_loop-above compar n 1 arr k (omega (arith, le)),
    )
