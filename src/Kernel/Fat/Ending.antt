-- ===== src/Kernel/Fat/Ending.antt =====
-- The loops of stuos/src/fs_fat.c over chains end, whatever the table holds.
use stuos.Prelude.{
  ℕ, zero, suc, ◌+◌, ◌-◌, ◌/◌, ◌%◌, ◌≤◌, ◌<◌, ◌≡◌, ◌≢◌, Bool, inl, inr, true, false, ◌==◌, leb, min,
  if◌then◌else◌, arith, Bool-cases,
}
use native.Mathlib.Nat.{mod-lt}
use stuos.Kernel.Fat.{
  Result, done, halted, out_of_fuel, ◌>>=◌, Bytes, Fat16Volume, bytes_per_cluster, read_fat,
  write_fat, find_free_loop, find_free_cluster_number, allocate_next, next_or_new, read_chain,
  write_chain, is_invalid_cluster_num, is_free_cluster_num, is_end_of_ll_num, num_clusters,
  start_in_cluster, read_from_cluster_chain, write_to_cluster_chain,
}

-- The routine returns or stops the machine.
abbrev pub Ends {ℓ} : {A : Type ℓ} → Result A → Type 0
Ends (done a) = Unit
Ends halted = Unit
Ends out_of_fuel = ⊥

Ends-bind {ℓ κ} :
    {A : Type ℓ} {B : Type κ} (m : Result A) (k : A → Result B)
    → Ends m
    → ((a : A) → Ends (k a))
    → Ends (m >>= k)
Ends-bind (done a) k ends rest = rest a
Ends-bind halted k ends rest = tt
Ends-bind out_of_fuel k ends rest = ends

pub Ends-if : {A : Type 0} (b : Bool) (x y : Result A) → Ends x → Ends y → Ends (if b then x else y)
Ends-if true x y hx hy = hx
Ends-if false x y hx hy = hy

read_fat-Ends : (vol : Fat16Volume) (c : ℕ) (d : Bytes) → Ends (read_fat vol c d)
unfolding read_fat
read_fat-Ends vol c d = Ends-if (is_invalid_cluster_num c) _ _ tt tt

write_fat-Ends : (vol : Fat16Volume) (c v : ℕ) (d : Bytes) → Ends (write_fat vol c v d)
unfolding write_fat
write_fat-Ends vol c v d = Ends-if (is_invalid_cluster_num c) _ _ tt tt

find_free_loop-Ends :
    (rounds i : ℕ) (vol : Fat16Volume) (d : Bytes) → Ends (find_free_loop rounds i vol d)
find_free_loop-Ends zero i vol d = tt
find_free_loop-Ends (suc rounds) i vol d =
    Ends-bind (read_fat vol i d) _ (read_fat-Ends vol i d)
      λ entry. Ends-if (is_free_cluster_num entry) _ _ tt (find_free_loop-Ends rounds (suc i) vol d)

allocate_next-Ends : (vol : Fat16Volume) (c : ℕ) (d : Bytes) → Ends (allocate_next vol c d)
unfolding allocate_next find_free_cluster_number
allocate_next-Ends vol c d =
    Ends-bind (find_free_cluster_number vol d) _
      (find_free_loop-Ends (num_clusters vol - 2) 2 vol d)
      λ new.
        Ends-bind (write_fat vol new 0xFFF8 d) _ (write_fat-Ends vol new 0xFFF8 d)
          λ d'. Ends-bind (write_fat vol c new d') _ (write_fat-Ends vol c new d') λ d''. tt

next_or_new-Ends : (vol : Fat16Volume) (c : ℕ) (d : Bytes) → Ends (next_or_new vol c d)
unfolding next_or_new
next_or_new-Ends vol c d =
    Ends-bind (read_fat vol c d) _ (read_fat-Ends vol c d)
      λ next. Ends-if (is_end_of_ll_num next) _ _ (allocate_next-Ends vol c d) tt

-- A round skips a cluster or moves at least one byte.
round_bound :
    (size required r i num fuel : ℕ)
    → r < size
    → num ≢ 0
    → (required - i) + num ≤ suc fuel
    → (required - suc i)
        + (num - (if leb required i then min num (size - start_in_cluster i required r) else 0))
      ≤ fuel
round_bound size required r i num fuel small some_bytes enough = ground arith

module _ (vol : Fat16Volume) (required r : ℕ) (small : r < bytes_per_cluster vol) where
  read_chain-Ends :
      (fuel i c b num : ℕ) (d out : Bytes)
      → (required - i) + num ≤ fuel
      → Ends (read_chain fuel vol d required r i c b num out)
  read_chain-Ends zero i c b num d out enough =
      let nothing : num ≡ 0 = omega (arith, enough) in rw nothing tt
  read_chain-Ends (suc fuel) i c b num d out enough = elim (Bool-cases (num == 0)) [
    | inl nothing ↦ rw nothing tt
    | inr more ↦ rw more (
        Ends-bind (read_fat vol c d) _ (read_fat-Ends vol c d) λ next.
          read_chain-Ends fuel (suc i) next _ _ d _
            (round_bound (bytes_per_cluster vol) required r i num fuel small (ground arith) enough))
  ]

  write_chain-Ends :
      (fuel i c b num : ℕ) (input d : Bytes)
      → (required - i) + num ≤ fuel
      → Ends (write_chain fuel vol input required r i c b num d)
  write_chain-Ends zero i c b num input d enough =
      let nothing : num ≡ 0 = omega (arith, enough) in rw nothing tt
  write_chain-Ends (suc fuel) i c b num input d enough = elim (Bool-cases (num == 0)) [
    | inl nothing ↦ rw nothing tt
    | inr more ↦ rw more (
        Ends-bind (next_or_new vol c _) _ (next_or_new-Ends vol c _) λ next.
          write_chain-Ends fuel (suc i) next.0 _ _ input next.1
            (round_bound (bytes_per_cluster vol) required r i num fuel small (ground arith) enough))
  ]

pub read_from_cluster_chain-Ends :
    (vol : Fat16Volume) (c offset : ℕ) (out : Bytes) (num : ℕ) (d : Bytes)
    → 0 < bytes_per_cluster vol
    → Ends (read_from_cluster_chain vol c offset out num d)
unfolding read_from_cluster_chain
read_from_cluster_chain-Ends vol c offset out num d some_size =
    let required = offset / bytes_per_cluster vol in
    let r = offset % bytes_per_cluster vol in
    Ends-if (num == 0) _ _ tt (
      Ends-if (is_invalid_cluster_num c) _ _ tt (
        read_chain-Ends vol required r (mod-lt offset some_size) (required + num) 0 c 0 num d out
          (omega arith)))

-- `write_to_cluster_chain`, with clusters of at least one byte, ends: whatever the table holds, it
-- returns or halts, and no cycle of clusters and no run of free ones keeps it going.
pub write_to_cluster_chain-Ends :
    (vol : Fat16Volume) (c offset : ℕ) (input : Bytes) (num : ℕ) (d : Bytes)
    → 0 < bytes_per_cluster vol
    → Ends (write_to_cluster_chain vol c offset input num d)
unfolding write_to_cluster_chain
write_to_cluster_chain-Ends vol c offset input num d some_size =
    let required = offset / bytes_per_cluster vol in
    let r = offset % bytes_per_cluster vol in
    Ends-if (is_invalid_cluster_num c) _ _ tt (
      write_chain-Ends vol required r (mod-lt offset some_size) (required + num) 0 c 0 num input d
        (omega arith))
