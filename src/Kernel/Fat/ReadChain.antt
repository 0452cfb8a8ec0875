-- ===== src/Kernel/Fat/ReadChain.antt =====
-- `read_from_cluster_chain` of stuos/src/fs_fat.c against the bytes of the clusters of a chain.
use stuos.Prelude.{
  ℕ, zero, suc, ◌+◌, ◌-◌, ◌*◌, ◌/◌, ◌%◌, ◌≤◌, ◌<◌, ◌≡◌, refl, sym, ap, ◌∙◌, ◌⊎◌, inl, inr, false,
  ◌==◌, ltb, leb, min, arith, Bool-cases, List, [], ◌∷◌, length,
}
use stuos.Kernel.Fat.{
  Result, done, halted, out_of_fuel, Bytes, copy_bytes, Fat16Volume, bytes_per_cluster, read_chain,
  src_addr, is_invalid_cluster_num, read_from_cluster_chain,
}
use native.Mathlib.Nat.{div-add-mod, mod-lt}
use stuos.Kernel.Fat.Copy.{copy_bytes-inside, copy_bytes-outside}
use stuos.Kernel.Fat.Table.{fat_entry, read_fat-fat_entry}
use stuos.Kernel.Fat.Chain.{
  IsLinked, file_address, IsAt, IsAt-skip, IsAt-before, IsAt-next, start_in_cluster-IsAt,
  file_address-here, file_address-later,
}

-- Bytes that are copied from the first cluster.
pub in_first :
    (vol : Fat16Volume) (x p n src : ℕ)
    → (n ≡ 0) ⊎ ((src ≡ src_addr vol x p) × (p + n ≤ bytes_per_cluster vol))
    → 0 < n
    → (src ≡ src_addr vol x p) × (p + n ≤ bytes_per_cluster vol)
in_first vol x p n src (inl none) some_bytes = absurd (omega (arith, none))
in_first vol x p n src (inr here) some_bytes = here

module _ (vol : Fat16Volume) (d : Bytes) (required r : ℕ) where
  -- The bytes from `p` on of the file in `xs` are read to index `b` on.
  abbrev IsRead : List ℕ → ℕ → ℕ → ℕ → Bytes → Result Bytes → Type 0
  IsRead xs p b num out (done out') =
      ((j : ℕ) → j < num → out' (b + j) ≡ d (file_address vol xs (p + j)))
      × ((j : ℕ) → (j < b) ⊎ (b + num ≤ j) → out' j ≡ out j)
  IsRead xs p b num out halted = ⊥
  IsRead xs p b num out out_of_fuel = ⊥

  -- What is left after `n` bytes from the first cluster.
  IsRead-cons :
      (x : ℕ) (xs : List ℕ) (p p' n b num src : ℕ) (out : Bytes) (res : Result Bytes)
      → n ≤ num
      → (n ≡ num) ⊎ (p + n ≡ bytes_per_cluster vol + p')
      → (n ≡ 0) ⊎ ((src ≡ src_addr vol x p) × (p + n ≤ bytes_per_cluster vol))
      → IsRead xs p' (b + n) (num - n) (copy_bytes d src n out b) res
      → IsRead (x ∷ xs) p b num out res
  IsRead-cons x xs p p' n b num src out (done out') le there here (copied, other) = (
    λ j lt. elim (Bool-cases (ltb j n)) [
      | inl now ↦
          let less : j < n = ground arith in
          let (from, room) = in_first vol x p n src here (omega arith) in
          let same : src + (b + j - b) ≡ src_addr vol x p + j = omega (arith, from) in
          other (b + j) (inl (omega arith))
          ∙ copy_bytes-inside d src n out b (b + j) (omega arith) (omega arith)
          ∙ ap d (same ∙ sym (file_address-here vol x xs p j (omega arith)))
      | inr later ↦
          let more : n ≤ j = ground arith in
          let index : b + j ≡ b + n + (j - n) = omega arith in
          let beyond : p + j ≡ bytes_per_cluster vol + (p' + (j - n)) =
            omega (arith, there, more, lt) in
          ap out' index
          ∙ copied (j - n) (omega arith)
          ∙ ap d (
              sym (
                ap (file_address vol (x ∷ xs)) beyond ∙ file_address-later vol x xs (p' + (j - n))))
    ],
    λ j out_of.
        other j (omega (arith, out_of, le))
        ∙ copy_bytes-outside d src n out b j (omega (arith, out_of, le)),
  )
  IsRead-cons x xs p p' n b num src out halted le there here rest = rest
  IsRead-cons x xs p p' n b num src out out_of_fuel le there here rest = rest

  -- The loop, with fuel for the clusters to skip and the bytes to read.
  read_chain-IsRead :
      (fuel : ℕ) (xs : List ℕ) (skip i c start b num : ℕ) (out : Bytes)
      → IsLinked vol d c xs
      → start < bytes_per_cluster vol
      → IsAt required r i skip start
      → bytes_per_cluster vol * skip + start + num ≤ bytes_per_cluster vol * length xs
      → skip + num ≤ fuel
      → IsRead xs
          (bytes_per_cluster vol * skip + start)
          b
          num
          out
          (read_chain fuel vol d required r i c b num out)
  read_chain-IsRead zero xs skip i c start b num out chain room at within enough =
      let nothing : num ≡ 0 = omega (arith, enough) in
      rw nothing (λ j lt. absurd (omega (arith, lt)), λ j _. refl)
  read_chain-IsRead (suc fuel) [] skip i c start b num out chain room at within enough =
      let nothing : num ≡ 0 = omega (arith, within) in
      rw nothing (λ j lt. absurd (omega (arith, lt)), λ j _. refl)
  read_chain-IsRead (suc fuel) (x ∷ xs) (suc skip) i c start b num out (at_x, valid, chain) room at
        within enough =
      let ahead = IsAt-skip required r i skip start at in
      elim (Bool-cases (num == 0)) [
        | inl nothing ↦
            let none : num ≡ 0 = ground arith in
            rw none (λ j lt. absurd (omega (arith, lt)), λ j _. refl)
        | inr more ↦
            let before : leb required i ≡ false = IsAt-before required r i skip start at in
            rw (more, at_x, read_fat-fat_entry vol x d valid, before)
              (IsRead-cons x xs _ (bytes_per_cluster vol * skip + start) 0 b num _ out _
                (omega arith) (inr (omega arith)) (inl refl)
                (read_chain-IsRead fuel xs skip (suc i) (fat_entry vol d x) start (b + 0) (num - 0)
                  _ chain room ahead (omega (arith, within)) (omega (arith, enough))))
      ]
  read_chain-IsRead (suc fuel) (x ∷ xs) zero i c start b num out (at_x, valid, chain) room at within
        enough =
      let size = bytes_per_cluster vol in
      let ahead = IsAt-next required r i start at in
      let (from, now) = start_in_cluster-IsAt required r i start at in
      let n = min num (size - start) in
      elim (Bool-cases (num == 0)) [
        | inl nothing ↦
            let none : num ≡ 0 = ground arith in
            rw none (λ j lt. absurd (omega (arith, lt)), λ j _. refl)
        | inr more ↦
            let some_bytes : 0 < num = ground arith in
            let split : (n ≡ num) ⊎ (size * 0 + start + n ≡ size + (size * 0 + 0)) =
              omega (arith, room) in
            rw (more, at_x, read_fat-fat_entry vol x d valid, now, from)
              (IsRead-cons x xs _ (size * 0 + 0) n b num _ out _ (omega arith) split
                (inr (omega arith, omega arith))
                (read_chain-IsRead fuel xs zero (suc i) (fat_entry vol d x) 0 (b + n) (num - n) _
                  chain (omega arith) ahead (omega (arith, within))
                  (omega (arith, enough, some_bytes))))
      ]

first_is_valid :
    (vol : Fat16Volume) (d : Bytes) (c : ℕ) (xs : List ℕ) (size : ℕ)
    → IsLinked vol d c xs
    → 0 < size * length xs
    → is_invalid_cluster_num c ≡ false
first_is_valid vol d c [] size chain some_size = absurd (omega (arith, some_size))
first_is_valid vol d c (x ∷ xs) size (at_x, valid, chain) some_size = ground arith

read_chain-done :
    (vol : Fat16Volume) (d : Bytes) (required r : ℕ) (xs : List ℕ) (p num : ℕ) (out : Bytes)
    (res : Result Bytes)
    → IsRead vol d required r xs p 0 num out res
    → (out' : Bytes) × (res ≡ done out')
      × ((j : ℕ) → j < num → out' j ≡ d (file_address vol xs (p + j)))
      × ((j : ℕ) → (j < 0) ⊎ (num ≤ j) → out' j ≡ out j)
read_chain-done vol d required r xs p num out (done out') (copied, other) =
    let same : (j : ℕ) → 0 + j ≡ j = λ j. omega arith in
    (
      out',
      refl,
      λ j lt. ap out' (sym (same j)) ∙ copied j lt,
      λ j out_of. other j (omega (arith, out_of)),
    )
read_chain-done vol d required r xs p num out halted never = absurd never
read_chain-done vol d required r xs p num out out_of_fuel never = absurd never

-- `read_from_cluster_chain` of bytes within clusters that are linked: it returns them in
-- the buffer and leaves the rest of the buffer as it was.
pub read_from_cluster_chain-bytes :
    (vol : Fat16Volume) (c : ℕ) (xs : List ℕ) (requested_offset : ℕ) (out : Bytes) (num_bytes : ℕ)
    (d : Bytes)
    → IsLinked vol d c xs
    → 0 < bytes_per_cluster vol
    → requested_offset + num_bytes ≤ bytes_per_cluster vol * length xs
    → (out' : Bytes) × (read_from_cluster_chain vol c requested_offset out num_bytes d ≡ done out')
      × ((j : ℕ) → j < num_bytes → out' j ≡ d (file_address vol xs (requested_offset + j)))
      × ((j : ℕ) → num_bytes ≤ j → out' j ≡ out j)
unfolding read_from_cluster_chain
read_from_cluster_chain-bytes vol c xs requested_offset out num_bytes d chain some_size within =
    elim (Bool-cases (num_bytes == 0)) [
      | inl nothing ↦
          let none : num_bytes ≡ 0 = ground arith in
          (out, rw nothing refl, λ j lt. absurd (omega (arith, lt, none)), λ j ge. refl)
      | inr more ↦
          let size = bytes_per_cluster vol in
          let skip = requested_offset / size in
          let start = requested_offset % size in
          let valid : is_invalid_cluster_num c ≡ false =
            first_is_valid vol d c xs size chain (ground (arith, within)) in
          let position : size * skip + start ≡ requested_offset =
            div-add-mod requested_offset size in
          let (out', eq, copied, other) =
            read_chain-done vol d skip start xs (size * skip + start) num_bytes out
              (read_chain (skip + num_bytes) vol d skip start 0 c 0 num_bytes out)
              (read_chain-IsRead vol d skip start (skip + num_bytes) xs skip 0 c start 0 num_bytes
                out chain (mod-lt requested_offset some_size) (inl (omega arith, refl))
                (omega (arith, position, within)) (omega arith)) in
          (
            out',
            rw (more, valid) eq,
            λ j lt. copied j lt ∙ ap (λ p. d (file_address vol xs (p + j))) position,
            λ j ge. other j (inr ge),
          )
    ]
