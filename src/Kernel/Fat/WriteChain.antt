-- ===== src/Kernel/Fat/WriteChain.antt =====
-- `write_to_cluster_chain` of stuos/src/fs_fat.c within the clusters of a chain, and
-- `read_from_cluster_chain` behind it.
use stuos.Prelude.{
  ℕ, zero, suc, ◌+◌, ◌-◌, ◌*◌, ◌/◌, ◌%◌, ◌≤◌, ◌<◌, ◌≡◌, ◌≢◌, refl, sym, ap, ◌∙◌, ◌⊎◌, inl, inr,
  false, ◌==◌, leb, min, if◌then◌else◌, arith, Bool-cases, List, [], ◌∷◌, length, if_true, if_false,
}
use native.Mathlib.Nat.{div-add-mod, mod-lt}
use stuos.Kernel.Fat.{
  Result, done, halted, out_of_fuel, Bytes, copy_bytes, Fat16Volume, bytes_per_cluster, write_chain,
  src_addr, start_in_cluster, is_end_of_ll_num, is_invalid_cluster_num, read_from_cluster_chain,
  write_to_cluster_chain, root_dir_start_byte,
}
use stuos.Kernel.Fat.Table.{fat_entry, IsCluster}
use stuos.Kernel.Fat.Chain.{
  file_address, IsAt, IsAt-skip, IsAt-before, IsAt-next, start_in_cluster-IsAt,
}
use stuos.Kernel.Fat.ReadChain.{read_from_cluster_chain-bytes}
use stuos.Kernel.Fat.Clusters.{
  AreClusters, IsLaidOut, file_address-data, IsPath, IsPath-more, IsPath-IsLinked, IsPath-kept,
}
use stuos.Kernel.Fat.WriteStep.{IsWritten, IsWritten-cons, next_or_new-linked, tables_kept}

module _ (vol : Fat16Volume) (input : Bytes) (required r : ℕ) (laid : IsLaidOut vol) where
  -- A round of the loop in a cluster that another one follows.
  write_chain-round :
      (fuel x i b num n : ℕ) (d : Bytes)
      → num == 0 ≡ false
      → IsCluster x
      → (if leb required i
          then min num (bytes_per_cluster vol - start_in_cluster i required r)
          else 0)
        ≡ n
      → let d' = copy_bytes input b n d (src_addr vol x (start_in_cluster i required r)) in
        is_end_of_ll_num (fat_entry vol d' x) ≡ false
        → write_chain (suc fuel) vol input required r i x b num d
          ≡ write_chain fuel vol input required r (suc i) (fat_entry vol d' x) (b + n) (num - n) d'
  write_chain-round fuel x i b num n d more valid count linked =
      rw
        (
          more,
          count,
          next_or_new-linked vol x
              (copy_bytes input b n d (src_addr vol x (start_in_cluster i required r))) valid
              linked,
        )
        refl

  write_chain-IsWritten :
      (fuel : ℕ) (xs : List ℕ) (skip i c start b num : ℕ) (d : Bytes)
      → AreClusters vol xs
      → IsPath vol d c xs
      → start < bytes_per_cluster vol
      → IsAt required r i skip start
      → bytes_per_cluster vol * skip + start + num ≤ bytes_per_cluster vol * length xs
      → skip + num ≤ fuel
      → IsWritten vol input xs
          (bytes_per_cluster vol * skip + start)
          b
          num
          d
          (write_chain fuel vol input required r i c b num d)
  write_chain-IsWritten zero xs skip i c start b num d clusters path room at within enough =
      let nothing : num ≡ 0 = omega (arith, enough) in
      rw nothing (λ j lt. absurd (omega (arith, lt)), λ a _. refl)
  write_chain-IsWritten (suc fuel) [] skip i c start b num d clusters path room at within enough =
      let nothing : num ≡ 0 = omega (arith, within) in
      rw nothing (λ j lt. absurd (omega (arith, lt)), λ a _. refl)
  write_chain-IsWritten (suc fuel) (x ∷ xs) (suc skip) i c start b num d clusters path room at
        within enough =
      let size = bytes_per_cluster vol in
      let src = src_addr vol x (start_in_cluster i required r) in
      let d' = copy_bytes input b 0 d src in
      let (at', valid, path') =
        IsPath-kept vol d d' c (x ∷ xs) (tables_kept vol input x 0 0 b src d laid (inl refl))
          clusters path in
      elim (Bool-cases (num == 0)) [
        | inl nothing ↦
            let none : num ≡ 0 = ground arith in
            rw none (λ j lt. absurd (omega (arith, lt)), λ a _. refl)
        | inr more ↦
            rw
              (
                path.0,
                write_chain-round fuel x i b num 0 d more valid
                    (if_false _ _ (IsAt-before required r i skip start at))
                    (IsPath-more vol d' (fat_entry vol d' x) xs path'),
              )
              (IsWritten-cons vol input x xs _ (size * skip + start) 0 b num src d _ valid.0
                clusters.3 clusters.2 (omega arith) (omega (arith, within)) (inr (omega arith))
                (inl refl)
                (write_chain-IsWritten fuel xs skip (suc i) _ start (b + 0) (num - 0) _ clusters.3
                  path' room (IsAt-skip required r i skip start at) (omega (arith, within))
                  (omega (arith, enough))))
      ]
  write_chain-IsWritten (suc fuel) (x ∷ xs) zero i c start b num d clusters path room at within
        enough =
      let size = bytes_per_cluster vol in
      let src = src_addr vol x (start_in_cluster i required r) in
      let n = min num (size - start) in
      let (from, now) = start_in_cluster-IsAt required r i start at in
      let here : (src ≡ src_addr vol x (size * 0 + start)) × (size * 0 + start + n ≤ size) =
        (omega (arith, from), omega (arith, room)) in
      let d' = copy_bytes input b n d src in
      let (at', valid, path') =
        IsPath-kept vol d d' c (x ∷ xs)
          (tables_kept vol input x (size * 0 + start) n b src d laid (inr here)) clusters path in
      elim (Bool-cases (num == 0)) [
        | inl nothing ↦
            let none : num ≡ 0 = ground arith in
            rw none (λ j lt. absurd (omega (arith, lt)), λ a _. refl)
        | inr more ↦
            let some_bytes : 0 < num = ground arith in
            let split : (n ≡ num) ⊎ (size * 0 + start + n ≡ size + (size * 0 + 0)) =
              omega (arith, room) in
            rw
              (
                path.0,
                write_chain-round fuel x i b num n d more valid
                    (if_true _ _ now ∙ ap (λ s. min num (size - s)) from)
                    (IsPath-more vol d' (fat_entry vol d' x) xs path'),
              )
              (IsWritten-cons vol input x xs _ (size * 0 + 0) n b num src d _ valid.0 clusters.3
                clusters.2 (omega arith) (omega (arith, within)) split (inr here)
                (write_chain-IsWritten fuel xs zero (suc i) _ 0 (b + n) (num - n) _ clusters.3 path'
                  (omega (arith, room)) (IsAt-next required r i start at) (omega (arith, within))
                  (omega (arith, enough, some_bytes, room))))
      ]

first_valid :
    (vol : Fat16Volume) (d : Bytes) (c x : ℕ) (xs : List ℕ)
    → IsPath vol d c (x ∷ xs)
    → is_invalid_cluster_num c ≡ false
first_valid vol d c x xs (at_x, valid, path) = ground arith

IsWritten-done :
    (vol : Fat16Volume) (input : Bytes) (xs : List ℕ) (p num : ℕ) (d : Bytes) (res : Result Bytes)
    → IsWritten vol input xs p 0 num d res
    → (d' : Bytes) × (res ≡ done d') × IsWritten vol input xs p 0 num d (done d')
IsWritten-done vol input xs p num d (done d') written = (d', refl, written)
IsWritten-done vol input xs p num d halted never = absurd never
IsWritten-done vol input xs p num d out_of_fuel never = absurd never

-- `write_to_cluster_chain`, on a volume whose root directory ends in front of the data section, of
-- bytes within clusters that are linked, none of them twice, with another cluster behind the last: those bytes of the file become the bytes of the buffer, and no
-- other byte of the volume changes.
pub write_to_cluster_chain-bytes :
    (vol : Fat16Volume) (c x : ℕ) (xs : List ℕ) (requested_offset : ℕ) (input : Bytes)
    (num_bytes : ℕ) (d : Bytes)
    → IsLaidOut vol
    → AreClusters vol (x ∷ xs)
    → IsPath vol d c (x ∷ xs)
    → 0 < bytes_per_cluster vol
    → requested_offset + num_bytes ≤ bytes_per_cluster vol * length (x ∷ xs)
    → (d' : Bytes) × (write_to_cluster_chain vol c requested_offset input num_bytes d ≡ done d')
      × ((j : ℕ) → j < num_bytes → d' (file_address vol (x ∷ xs) (requested_offset + j)) ≡ input j)
      × ((a : ℕ)
          → ((j : ℕ) → j < num_bytes → a ≢ file_address vol (x ∷ xs) (requested_offset + j))
          → d' a ≡ d a)
unfolding write_to_cluster_chain
write_to_cluster_chain-bytes vol c x xs requested_offset input num_bytes d laid clusters path
      some_size within =
    let size = bytes_per_cluster vol in
    let skip = requested_offset / size in
    let start = requested_offset % size in
    let valid : is_invalid_cluster_num c ≡ false = first_valid vol d c x xs path in
    let position : size * skip + start ≡ requested_offset = div-add-mod requested_offset size in
    let (d', eq, (copied, other)) =
      IsWritten-done vol input (x ∷ xs) (size * skip + start) num_bytes d
        (write_chain (skip + num_bytes) vol input skip start 0 c 0 num_bytes d)
        (write_chain-IsWritten vol input skip start laid (skip + num_bytes) (x ∷ xs) skip 0 c start
          0 num_bytes d clusters path (mod-lt requested_offset some_size) (inl (omega arith, refl))
          (omega (arith, position, within)) (omega arith)) in
    (
      d',
      rw valid eq,
      λ j lt.
          ap (λ p. d' (file_address vol (x ∷ xs) (p + j))) (sym position)
          ∙ copied j lt
          ∙ ap input (omega arith),
      λ a out_of.
          other a
            (λ j lt e. out_of j lt (e ∙ ap (λ p. file_address vol (x ∷ xs) (p + j)) position)),
    )

-- What was written to a file, under the conditions of `write_to_cluster_chain-bytes`, is read back
-- from there.
pub read_from_cluster_chain-write_to_cluster_chain :
    (vol : Fat16Volume) (c x : ℕ) (xs : List ℕ) (requested_offset : ℕ) (input out : Bytes)
    (num_bytes : ℕ) (d : Bytes)
    → IsLaidOut vol
    → AreClusters vol (x ∷ xs)
    → IsPath vol d c (x ∷ xs)
    → 0 < bytes_per_cluster vol
    → requested_offset + num_bytes ≤ bytes_per_cluster vol * length (x ∷ xs)
    → (d' out' : Bytes) × (write_to_cluster_chain vol c requested_offset input num_bytes d
        ≡ done d')
      × (read_from_cluster_chain vol c requested_offset out num_bytes d' ≡ done out')
      × ((j : ℕ) → j < num_bytes → out' j ≡ input j)
read_from_cluster_chain-write_to_cluster_chain vol c x xs requested_offset input out num_bytes d
      laid clusters path some_size within =
    let (d', wrote, written, other) =
      write_to_cluster_chain-bytes vol c x xs requested_offset input num_bytes d laid clusters path
        some_size within in
    let kept : (a : ℕ) → a < root_dir_start_byte vol → d' a ≡ d a = λ a lt. other a (λ j small e.
      omega (
        arith,
        lt,
        e,
        laid,
        file_address-data vol (x ∷ xs) (requested_offset + j) (omega (arith, within, small)),
      )) in
    let linked =
      IsPath-IsLinked vol d' c (x ∷ xs) (IsPath-kept vol d d' c (x ∷ xs) kept clusters path) in
    let (out', did_read, copied, _) =
      read_from_cluster_chain-bytes vol c (x ∷ xs) requested_offset out num_bytes d' linked
        some_size within in
    (d', out', wrote, did_read, λ j lt. copied j lt ∙ written j lt)
