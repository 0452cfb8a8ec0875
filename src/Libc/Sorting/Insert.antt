-- ===== src/Libc/Sorting/Insert.antt =====
-- One insertion of `qsort` of custom_libc/qsort.c: what it does to the order and the elements.
use mathlib.Core.List.Perm
use mathlib.Core.List.{Perm}
use stuos.Prelude.{
  ℕ, zero, suc, ◌≤◌, ◌<◌, ◌≡◌, refl, sym, ap, ap₂, ◌∙◌, subst, inl, inr, true, false, ◌==◌, if_true,
  if_false, arith, Bool-cases, List, [], ◌∷◌,
}
use stuos.Prelude.Int.{ℤ}
use stuos.Libc.Sorting.{put, is_greater, insert}

-- A comparison that orders its elements: what is greater is not smaller, and "not greater" is
-- transitive.
pub record IsOrder {A : Type 0} (compar : A → A → ℤ) : Type 0 where
  pub asym : (x y : A) → is_greater compar x y ≡ true → is_greater compar y x ≡ false
  pub trans :
      (x y z : A)
      → is_greater compar x y ≡ false
      → is_greater compar y z ≡ false
      → is_greater compar x z ≡ false

module _ {A : Type 0} where
  -- The first `n` elements, the last of them first.
  abbrev pub items : ℕ → (ℕ → A) → List A
  items zero arr = []
  items (suc n) arr = arr n ∷ items n arr

  put-same : (i : ℕ) (v : A) (arr : ℕ → A) → put i v arr i ≡ v
  put-same i v arr = if_true {b = i == i} _ _ (ground arith)

  put-other : (i j : ℕ) (v : A) (arr : ℕ → A) → (j ≡ i → ⊥) → put i v arr j ≡ arr j
  put-other i j v arr ne = if_false {b = j == i} _ _ (ground (arith, ne))

  items-same :
      (n : ℕ) (arr arr' : ℕ → A) → ((i : ℕ) → i < n → arr' i ≡ arr i) → items n arr' ≡ items n arr
  items-same zero arr arr' same = refl
  items-same (suc n) arr arr' same =
      ap₂ (λ x xs. x ∷ xs) (same n (omega arith))
        (items-same n arr arr' (λ i lt. same i (omega (arith, lt))))

module _ {A : Type 0} (compar : A → A → ℤ) where
  pub insert-above :
      (j : ℕ) (tmp : A) (arr : ℕ → A) (i : ℕ) → j < i → insert compar j tmp arr i ≡ arr i
  insert-above zero tmp arr i above = put-other 0 i tmp arr (λ e. omega (arith, e, above))
  insert-above (suc j) tmp arr i above = elim (Bool-cases (is_greater compar (arr j) tmp)) [
    | inl greater ↦ rw greater (
        insert-above j tmp (put (suc j) (arr j) arr) i (omega (arith, above))
        ∙ put-other (suc j) i (arr j) arr (λ e. omega (arith, e, above)))
    | inr fits ↦ rw fits (put-other (suc j) i tmp arr (λ e. omega (arith, e, above)))
  ]

  pub insert-Perm :
      (j : ℕ) (tmp : A) (arr : ℕ → A)
      → Perm (items (suc j) (insert compar j tmp arr)) (tmp ∷ items j arr)
  insert-Perm zero tmp arr = Perm.refl _
  insert-Perm (suc j) tmp arr = elim (Bool-cases (is_greater compar (arr j) tmp)) [
    | inl greater ↦
        let arr' = put (suc j) (arr j) arr in
        let top : insert compar j tmp arr' (suc j) ≡ arr j =
          insert-above j tmp arr' (suc j) (omega arith) ∙ put-same (suc j) (arr j) arr in
        let low =
          items-same j arr arr'
            (λ i lt. put-other (suc j) i (arr j) arr (λ e. omega (arith, e, lt))) in
        let rest =
          subst (λ xs. Perm (items (suc j) (insert compar j tmp arr')) (tmp ∷ xs)) low
            (insert-Perm j tmp arr') in
        rw greater (
          subst (λ x. Perm (x ∷ items (suc j) (insert compar j tmp arr')) (tmp ∷ items (suc j) arr))
            (sym top) (Perm.trans (Perm.cons (arr j) rest) (Perm.swap tmp (arr j) (items j arr))))
    | inr fits ↦
        let same : items (suc (suc j)) (put (suc j) tmp arr) ≡ tmp ∷ items (suc j) arr =
          ap₂ (λ x xs. x ∷ xs) (put-same (suc j) tmp arr)
            (items-same (suc j) arr (put (suc j) tmp arr)
              (λ i lt. put-other (suc j) i tmp arr (λ e. omega (arith, e, lt)))) in
        rw fits (subst (λ xs. Perm xs (tmp ∷ items (suc j) arr)) (sym same) (Perm.refl _))
  ]

  -- What holds of `tmp` and of the elements in front of it holds of those that they become.
  insert-all :
      (P : A → Type 0) (j : ℕ) (tmp : A) (arr : ℕ → A)
      → P tmp
      → ((i : ℕ) → i < j → P (arr i))
      → (i : ℕ) → i ≤ j
      → P (insert compar j tmp arr i)
  insert-all P zero tmp arr here rest i le =
      let first : i ≡ 0 = omega (arith, le) in
      subst P (sym (ap (put 0 tmp arr) first ∙ put-same 0 tmp arr)) here
  insert-all P (suc j) tmp arr here rest i le = elim (Bool-cases (is_greater compar (arr j) tmp)) [
    | inl greater ↦
        let arr' = put (suc j) (arr j) arr in
        elim (Bool-cases (i == suc j)) [
          | inl top ↦
              let at : i ≡ suc j = ground arith in
              rw greater (
                subst P
                  (sym (
                    ap (insert compar j tmp arr') at
                    ∙ insert-above j tmp arr' (suc j) (omega arith)
                    ∙ put-same (suc j) (arr j) arr))
                  (rest j (omega arith)))
          | inr below ↦ rw greater (
              insert-all P j tmp arr' here
                (λ k lt.
                  subst P (sym (put-other (suc j) k (arr j) arr (λ e. omega (arith, e, lt))))
                    (rest k (omega (arith, lt))))
                i (ground (arith, le)))
        ]
    | inr fits ↦ elim (Bool-cases (i == suc j)) [
      | inl top ↦
          let at : i ≡ suc j = ground arith in
          rw fits (subst P (sym (ap (put (suc j) tmp arr) at ∙ put-same (suc j) tmp arr)) here)
      | inr below ↦ rw fits (
          subst P (sym (put-other (suc j) i tmp arr (λ e. ground (arith, e, below))))
            (rest i (ground (arith, le))))
    ]
  ]

  -- No element is greater than one behind it.
  abbrev pub IsSorted : ℕ → (ℕ → A) → Type 0
  IsSorted n arr = (i k : ℕ) → i < k → k < n → is_greater compar (arr i) (arr k) ≡ false

  module _ (order : IsOrder compar) where
    below_last :
        (j : ℕ) (tmp : A) (arr : ℕ → A)
        → IsSorted (suc j) arr
        → is_greater compar (arr j) tmp ≡ false
        → (i : ℕ) → i < suc j
        → is_greater compar (arr i) tmp ≡ false
    below_last j tmp arr sorted fits i lt = elim (Bool-cases (i == j)) [
      | inl last ↦
          let at : i ≡ j = ground arith in ap (λ m. is_greater compar (arr m) tmp) at ∙ fits
      | inr before ↦
          order.trans (arr i) (arr j) tmp (sorted i j (ground (arith, lt)) (omega arith)) fits
    ]

    pub insert-IsSorted :
        (j : ℕ) (tmp : A) (arr : ℕ → A)
        → IsSorted j arr
        → IsSorted (suc j) (insert compar j tmp arr)
    insert-IsSorted zero tmp arr sorted i k less small = absurd (omega (arith, less, small))
    insert-IsSorted (suc j) tmp arr sorted i k less small =
        elim (Bool-cases (is_greater compar (arr j) tmp)) [
          | inl greater ↦
              let arr' = put (suc j) (arr j) arr in
              let r = insert compar j tmp arr' in
              let kept : (m : ℕ) → m < suc j → arr' m ≡ arr m =
                λ m lt. put-other (suc j) m (arr j) arr (λ e. omega (arith, e, lt)) in
              elim (Bool-cases (k == suc j)) [
                | inl top ↦
                    let at : k ≡ suc j = ground arith in
                    let last : r k ≡ arr j =
                      ap r at
                      ∙ insert-above j tmp arr' (suc j) (omega arith)
                      ∙ put-same (suc j) (arr j) arr in
                    rw greater (
                      subst (λ x. is_greater compar (r i) x ≡ false) (sym last)
                        (insert-all (λ x. is_greater compar x (arr j) ≡ false) j tmp arr'
                          (order.asym (arr j) tmp greater)
                          (λ m lt.
                            subst (λ x. is_greater compar x (arr j) ≡ false)
                              (sym (kept m (omega (arith, lt)))) (sorted m j lt (omega arith)))
                          i (omega (arith, less, at))))
                | inr below ↦ rw greater (
                    insert-IsSorted j tmp arr'
                      (λ m n lt small'.
                        subst (λ x. is_greater compar x (arr' n) ≡ false)
                          (sym (kept m (omega (arith, lt, small'))))
                          (subst (λ x. is_greater compar (arr m) x ≡ false)
                            (sym (kept n (omega (arith, small'))))
                            (sorted m n lt (omega (arith, small')))))
                      i k less (ground (arith, small)))
              ]
          | inr fits ↦
              let kept : (m : ℕ) → m < suc j → put (suc j) tmp arr m ≡ arr m =
                λ m lt. put-other (suc j) m tmp arr (λ e. omega (arith, e, lt)) in
              elim (Bool-cases (k == suc j)) [
                | inl top ↦
                    let at : k ≡ suc j = ground arith in
                    let last : put (suc j) tmp arr k ≡ tmp =
                      ap (put (suc j) tmp arr) at ∙ put-same (suc j) tmp arr in
                    rw fits (
                      ap₂ (is_greater compar) (kept i (omega (arith, less, at))) last
                      ∙ below_last j tmp arr sorted fits i (omega (arith, less, at)))
                | inr below ↦ rw fits (
                    ap₂ (is_greater compar) (kept i (ground (arith, less, small)))
                      (kept k (ground (arith, small)))
                    ∙ sorted i k less (ground (arith, small)))
              ]
        ]
