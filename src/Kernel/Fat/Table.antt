-- ===== src/Kernel/Fat/Table.antt =====
-- The file allocation table: `read_fat`, `write_fat` and `find_free_cluster_number` of
-- stuos/src/fs_fat.c.
use stuos.Prelude.{
  ℕ, zero, suc, ◌+◌, ◌-◌, ◌*◌, ◌/◌, ◌%◌, ◌^◌, ◌≤◌, ◌<◌, ◌≡◌, ◌≢◌, refl, ap, ◌∙◌, subst, ◌⊎◌, inl,
  inr, false, ◌==◌, ltb, arith, Bool-cases,
}
use stuos.Kernel.Fat.Copy.{copy_bytes-inside, copy_bytes-outside}
use stuos.Kernel.Fat.{
  Result, done, halted, out_of_fuel, Bytes, copy_bytes, to_bytes, Fat16Volume,
  is_invalid_cluster_num, is_free_cluster_num, fat_address, read_fat, write_fat, num_clusters,
  find_free_loop, find_free_cluster_number,
}

-- The entry of a cluster in the first table.
abbrev pub fat_entry : Fat16Volume → Bytes → ℕ → ℕ
fat_entry vol d c = d (fat_address vol c) + 256 * d (fat_address vol c + 1)

-- A cluster that is neither free nor the end of a chain.
abbrev pub IsCluster : ℕ → Type 0
IsCluster c = (2 ≤ c) × (c < 0xFFF7)

pub read_fat-fat_entry :
    (vol : Fat16Volume) (c : ℕ) (d : Bytes)
    → IsCluster c
    → read_fat vol c d ≡ done (fat_entry vol d c)
unfolding read_fat
read_fat-fat_entry vol c d valid =
    let ok : is_invalid_cluster_num c ≡ false = ground arith in
    let first : d (fat_address vol c + 0) ≡ d (fat_address vol c) = ap d (omega arith) in
    rw ok (ap done (omega (arith, first)))

low_byte : (v i : ℕ) → i ≡ 0 → to_bytes v i ≡ v % 256
low_byte v i e = rw e (omega arith)

high_byte : (v i : ℕ) → v < 2 ^ 16 → i ≡ 1 → to_bytes v i ≡ v / 256
high_byte v i small e = rw e (omega (arith, small))

-- A value that is written to the table is read back, and no other entry changes.
pub fat_entry-write_fat :
    (vol : Fat16Volume) (c v : ℕ) (d : Bytes)
    → IsCluster c
    → v < 2 ^ 16
    → (d' : Bytes) × (write_fat vol c v d ≡ done d')
      × (fat_entry vol d' c ≡ v)
      × ((e : ℕ) → e ≢ c → fat_entry vol d' e ≡ fat_entry vol d e)
      × ((a : ℕ) → (a < fat_address vol c) ⊎ (fat_address vol c + 2 ≤ a) → d' a ≡ d a)
unfolding write_fat
fat_entry-write_fat vol c v d valid small =
    let ok : is_invalid_cluster_num c ≡ false = ground arith in
    let at = fat_address vol c in
    let other = copy_bytes-outside (to_bytes v) 0 2 d at in
    let low : copy_bytes (to_bytes v) 0 2 d at at ≡ v % 256 =
      copy_bytes-inside (to_bytes v) 0 2 d at at (omega arith) (omega arith)
      ∙ low_byte v (0 + (at - at)) (omega arith) in
    let high : copy_bytes (to_bytes v) 0 2 d at (at + 1) ≡ v / 256 =
      copy_bytes-inside (to_bytes v) 0 2 d at (at + 1) (omega arith) (omega arith)
      ∙ high_byte v (0 + (at + 1 - at)) small (omega arith) in
    (
      copy_bytes (to_bytes v) 0 2 d at,
      rw ok refl,
      omega (arith, low, high),
      λ e ne.
          let e0 = other (fat_address vol e) (omega (arith, ne)) in
          let e1 = other (fat_address vol e + 1) (omega (arith, ne)) in omega (arith, e0, e1),
      other,
    )

-- `find_free_cluster_number` returns the first free cluster of the ones that it counts, and halts
-- exactly when none of them is free.
abbrev pub IsFirstFree : Fat16Volume → Bytes → ℕ → ℕ → Result ℕ → Type 0
IsFirstFree vol d from to (done n) =
    (from ≤ n)
    × (n < to)
    × (fat_entry vol d n < 2)
    × ((m : ℕ) → from ≤ m → m < n → 2 ≤ fat_entry vol d m)
IsFirstFree vol d from to halted = (m : ℕ) → from ≤ m → m < to → 2 ≤ fat_entry vol d m
IsFirstFree vol d from to out_of_fuel = ⊥

IsFirstFree-cons :
    (vol : Fat16Volume) (d : Bytes) (i rounds : ℕ) (r : Result ℕ)
    → 2 ≤ fat_entry vol d i
    → IsFirstFree vol d (suc i) (suc i + rounds) r
    → IsFirstFree vol d i (i + suc rounds) r
IsFirstFree-cons vol d i rounds (done n) taken (from, to, free, first) = (
  omega (arith, from),
  omega (arith, to),
  free,
  λ m ge lt. elim (Bool-cases (m == i)) [
    | inl same ↦ let e : m ≡ i = ground arith in rw e taken
    | inr later ↦ first m (ground arith) lt
  ],
)
IsFirstFree-cons vol d i rounds halted taken none_free = λ m ge lt. elim (Bool-cases (m == i)) [
  | inl same ↦ let e : m ≡ i = ground arith in rw e taken
  | inr later ↦ none_free m (ground arith) (omega arith)
]
IsFirstFree-cons vol d i rounds out_of_fuel taken none_free = none_free

find_free_loop-IsFirstFree :
    (rounds i : ℕ) (vol : Fat16Volume) (d : Bytes)
    → 2 ≤ i
    → i + rounds ≤ 0xFFF7
    → IsFirstFree vol d i (i + rounds) (find_free_loop rounds i vol d)
find_free_loop-IsFirstFree zero i vol d ge le = λ m from to. absurd (omega arith)
find_free_loop-IsFirstFree (suc rounds) i vol d ge le =
    let rest = find_free_loop-IsFirstFree rounds (suc i) vol d (omega arith) (omega arith) in
    elim (Bool-cases (is_free_cluster_num (fat_entry vol d i))) [
      | inl free ↦
          rw (read_fat-fat_entry vol i d (omega arith, omega arith), free)
            (omega arith, omega arith, ground arith, λ m from to. absurd (omega arith))
      | inr taken ↦
          rw (read_fat-fat_entry vol i d (omega arith, omega arith), taken)
            (IsFirstFree-cons vol d i rounds (find_free_loop rounds (suc i) vol d) (ground arith)
              rest)
    ]

pub find_free_cluster_number-IsFirstFree :
    (vol : Fat16Volume) (d : Bytes)
    → num_clusters vol ≤ 0xFFF7
    → IsFirstFree vol d 2 (num_clusters vol) (find_free_cluster_number vol d)
unfolding find_free_cluster_number
find_free_cluster_number-IsFirstFree vol d le =
    let rounds = num_clusters vol - 2 in
    elim (Bool-cases (ltb (num_clusters vol) 2)) [
      | inl few ↦
          let no_rounds : rounds ≡ 0 = ground arith in
          rw no_rounds (λ m from to. absurd (ground arith))
      | inr some_left ↦
          let all : 2 + rounds ≡ num_clusters vol = ground arith in
          subst (λ to. IsFirstFree vol d 2 to (find_free_loop rounds 2 vol d)) all
            (find_free_loop-IsFirstFree rounds 2 vol d (omega arith) (omega (arith, le, all)))
    ]
