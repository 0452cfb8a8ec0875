-- ===== src/Kernel/Fat/WriteStep.antt =====
-- What a round of `write_to_cluster_chain` of stuos/src/fs_fat.c writes.
use stuos.Prelude.{
  ℕ, ◌+◌, ◌-◌, ◌*◌, ◌≤◌, ◌<◌, ◌≡◌, ◌≢◌, refl, sym, ap, ◌∙◌, ◌⊎◌, inl, inr, false, ltb, leb, arith,
  Bool-cases, List, ◌∷◌, length, ◌&&◌,
}
use stuos.Kernel.Fat.{
  Result, done, halted, out_of_fuel, Bytes, copy_bytes, Fat16Volume, bytes_per_cluster, src_addr,
  is_end_of_ll_num, root_dir_start_byte, next_or_new,
}
use stuos.Kernel.Fat.Copy.{copy_bytes-inside, copy_bytes-outside}
use stuos.Kernel.Fat.Table.{fat_entry, IsCluster, read_fat-fat_entry}
use stuos.Kernel.Fat.Chain.{file_address, file_address-first, file_address-later}
use stuos.Kernel.Fat.ReadChain.{in_first}
use stuos.Kernel.Fat.Clusters.{IsApart, AreClusters, IsLaidOut, file_address-apart}

module _ (vol : Fat16Volume) (input : Bytes) where
  -- The bytes from `p` on of the file in `xs`, and no other, are those of `input` from `b` on.
  abbrev pub IsWritten : List ℕ → ℕ → ℕ → ℕ → Bytes → Result Bytes → Type 0
  IsWritten xs p b num d (done d') =
      ((j : ℕ) → j < num → d' (file_address vol xs (p + j)) ≡ input (b + j))
      × ((a : ℕ) → ((j : ℕ) → j < num → a ≢ file_address vol xs (p + j)) → d' a ≡ d a)
  IsWritten xs p b num d halted = ⊥
  IsWritten xs p b num d out_of_fuel = ⊥

  pub IsWritten-cons :
      (x : ℕ) (xs : List ℕ) (p p' n b num src : ℕ) (d : Bytes) (res : Result Bytes)
      → 2 ≤ x
      → AreClusters vol xs
      → IsApart x xs
      → n ≤ num
      → p' + (num - n) ≤ bytes_per_cluster vol * length xs
      → (n ≡ num) ⊎ (p + n ≡ bytes_per_cluster vol + p')
      → (n ≡ 0) ⊎ ((src ≡ src_addr vol x p) × (p + n ≤ bytes_per_cluster vol))
      → IsWritten xs p' (b + n) (num - n) (copy_bytes input b n d src) res
      → IsWritten (x ∷ xs) p b num d res
  IsWritten-cons x xs p p' n b num src d (done d') hx clusters apart le within there here
        (copied, other) =
      let size = bytes_per_cluster vol in
      let later : (j : ℕ)
          → n ≤ j
          → j < num
          → file_address vol (x ∷ xs) (p + j) ≡ file_address vol xs (p' + (j - n)) =
        λ j ge lt.
          let beyond : p + j ≡ size + (p' + (j - n)) = omega (arith, there, ge, lt) in
          ap (file_address vol (x ∷ xs)) beyond ∙ file_address-later vol x xs (p' + (j - n)) in
      (
        λ j lt. elim (Bool-cases (ltb j n)) [
          | inl now ↦
              let less : j < n = ground arith in
              let (from, room) = in_first vol x p n src here (omega arith) in
              let at : file_address vol (x ∷ xs) (p + j) ≡ src + j =
                file_address-first vol x xs (p + j) (omega arith) ∙ omega (arith, from) in
              ap d' at
              ∙ other (src + j) (λ k small e.
                file_address-apart vol x xs (p + j) (p' + k) hx clusters apart (omega arith)
                  (omega (arith, within, small)) (omega (arith, from) ∙ e))
              ∙ copy_bytes-inside input b n d src (src + j) (omega arith) (omega arith)
              ∙ ap input (omega arith)
          | inr past ↦
              let ge : n ≤ j = ground arith in
              ap d' (later j ge lt) ∙ copied (j - n) (omega arith) ∙ ap input (omega arith)
        ],
        λ a out_of.
            other a (λ k small e. out_of (n + k) (omega (arith, small, le)) (
              e
              ∙ ap (λ i. file_address vol xs (p' + i)) (omega arith)
              ∙ sym (later (n + k) (omega arith) (omega (arith, small, le)))))
            ∙ elim (Bool-cases (leb src a && ltb a (src + n))) [
              | inl inside ↦
                  let some_bytes : 0 < n = ground arith in
                  let (from, room) = in_first vol x p n src here some_bytes in
                  let k = a - src in
                  let less : k < n = ground arith in
                  absurd (
                    out_of k (omega arith) (
                      ground (arith, inside, from)
                      ∙ sym (file_address-first vol x xs (p + k) (omega arith))))
              | inr outside ↦ copy_bytes-outside input b n d src a (ground arith)
            ],
      )
  IsWritten-cons x xs p p' n b num src d halted hx clusters apart le within there here rest = rest
  IsWritten-cons x xs p p' n b num src d out_of_fuel hx clusters apart le within there here rest =
      rest

pub next_or_new-linked :
    (vol : Fat16Volume) (x : ℕ) (d : Bytes)
    → IsCluster x
    → is_end_of_ll_num (fat_entry vol d x) ≡ false
    → next_or_new vol x d ≡ done (fat_entry vol d x, d)
unfolding next_or_new
next_or_new-linked vol x d valid linked = rw (read_fat-fat_entry vol x d valid, linked) refl

-- A copy into a cluster of a file leaves what lies in front of the data section.
pub tables_kept :
    (vol : Fat16Volume) (input : Bytes) (x p n b src : ℕ) (d : Bytes)
    → IsLaidOut vol
    → (n ≡ 0) ⊎ ((src ≡ src_addr vol x p) × (p + n ≤ bytes_per_cluster vol))
    → (a : ℕ) → a < root_dir_start_byte vol
    → copy_bytes input b n d src a ≡ d a
tables_kept vol input x p n b src d laid (inl none) a lt =
    copy_bytes-outside input b n d src a (omega (arith, none))
tables_kept vol input x p n b src d laid (inr (from, room)) a lt =
    copy_bytes-outside input b n d src a (omega (arith, from, lt, laid))
