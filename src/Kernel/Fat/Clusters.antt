-- ===== src/Kernel/Fat/Clusters.antt =====
-- The clusters of a file, apart from each other and from the tables (stuos/src/fs_fat.c).
use stuos.Prelude.{
  ℕ, suc, ◌+◌, ◌-◌, ◌*◌, ◌≤◌, ◌<◌, ◌≡◌, ◌≢◌, ap, ◌∙◌, inl, inr, false, ltb, arith, Bool-cases, List,
  [], ◌∷◌, length,
}
use native.Mathlib.Nat.{mul-le-mul_left}
use stuos.Kernel.Fat.{
  Bytes, Fat16Volume, bytes_per_cluster, src_addr, is_end_of_ll_num, calculate_data_section_start,
  root_dir_start_byte, fat_address,
}
use stuos.Kernel.Fat.Table.{fat_entry, IsCluster}
use stuos.Kernel.Fat.Chain.{IsLinked, file_address, file_address-first, file_address-later}

-- The clusters of a file: each is one that the tables describe, which end in front of the
-- root directory, and none comes twice.
abbrev pub IsApart : ℕ → List ℕ → Type 0
IsApart x [] = Unit
IsApart x (y ∷ ys) = (x ≢ y) × IsApart x ys

abbrev pub AreClusters : Fat16Volume → List ℕ → Type 0
AreClusters vol [] = Unit
AreClusters vol (x ∷ xs) =
    IsCluster x
    × (fat_address vol x + 2 ≤ root_dir_start_byte vol)
    × IsApart x xs
    × AreClusters vol xs

-- The root directory stands in front of the data section, which the number of the section's first
-- sector says where it fits in 16 bits.
abbrev pub IsLaidOut : Fat16Volume → Type 0
IsLaidOut vol =
    root_dir_start_byte vol + vol.number_of_sectors_root_directory * vol.bytes_per_sector
    ≤ calculate_data_section_start vol

-- Two bytes of different clusters.
cluster_apart :
    (size x y o u : ℕ)
    → 2 ≤ x
    → 2 ≤ y
    → x ≢ y
    → o < size
    → u < size
    → size * (x - 2) + o ≢ size * (y - 2) + u
cluster_apart size x y o u hx hy ne ho hu e = elim (Bool-cases (ltb x y)) [
  | inl less ↦
      let le : suc (x - 2) ≤ y - 2 = ground arith in
      omega (arith, mul-le-mul_left size le, e, ho, hu)
  | inr more ↦
      let le : suc (y - 2) ≤ x - 2 = ground arith in
      omega (arith, mul-le-mul_left size le, e, ho, hu)
]

module _ (vol : Fat16Volume) where
  -- A byte of one cluster is none of the bytes of a file in others.
  pub file_address-apart :
      (x : ℕ) (xs : List ℕ) (o p : ℕ)
      → 2 ≤ x
      → AreClusters vol xs
      → IsApart x xs
      → o < bytes_per_cluster vol
      → p < bytes_per_cluster vol * length xs
      → src_addr vol x o ≢ file_address vol xs p
  file_address-apart x [] o p hx clusters apart small within = absurd (omega (arith, within))
  file_address-apart x (y ∷ ys) o p hx (valid, _, _, clusters) (ne, apart) small within =
      let size = bytes_per_cluster vol in
      elim (Bool-cases (ltb p size)) [
        | inl here ↦ λ e.
            cluster_apart size x y o p hx valid.0 ne small (ground arith)
              (omega (arith, e ∙ file_address-first vol y ys p (ground arith)))
        | inr later ↦
            let rest : p ≡ size + (p - size) = ground arith in
            λ e.
              file_address-apart x ys o (p - size) hx clusters apart small
                (omega (arith, within, rest))
                (e ∙ ap (file_address vol (y ∷ ys)) rest ∙ file_address-later vol y ys (p - size))
      ]

  -- The bytes of a file lie in the data section.
  pub file_address-data :
      (xs : List ℕ) (p : ℕ)
      → p < bytes_per_cluster vol * length xs
      → calculate_data_section_start vol ≤ file_address vol xs p
  file_address-data [] p within = absurd (omega (arith, within))
  file_address-data (y ∷ ys) p within =
      let size = bytes_per_cluster vol in
      elim (Bool-cases (ltb p size)) [
        | inl here ↦ rw here (omega arith)
        | inr later ↦ rw later (file_address-data ys (p - size) (ground (arith, within)))
      ]

  -- Linked clusters with another one behind the last.
  abbrev pub IsPath : Bytes → ℕ → List ℕ → Type 0
  IsPath d c [] = is_end_of_ll_num c ≡ false
  IsPath d c (x ∷ xs) = (c ≡ x) × IsCluster x × IsPath d (fat_entry vol d x) xs

  pub IsPath-more : (d : Bytes) (c : ℕ) (xs : List ℕ) → IsPath d c xs → is_end_of_ll_num c ≡ false
  IsPath-more d c [] path = path
  IsPath-more d c (x ∷ xs) (at_x, valid, path) = ground arith

  pub IsPath-IsLinked : (d : Bytes) (c : ℕ) (xs : List ℕ) → IsPath d c xs → IsLinked vol d c xs
  IsPath-IsLinked d c [] path = tt
  IsPath-IsLinked d c (x ∷ xs) (at_x, valid, path) =
      (at_x, valid, IsPath-IsLinked d (fat_entry vol d x) xs path)

  pub IsPath-kept :
      (d d' : Bytes) (c : ℕ) (xs : List ℕ)
      → ((a : ℕ) → a < root_dir_start_byte vol → d' a ≡ d a)
      → AreClusters vol xs
      → IsPath d c xs
      → IsPath d' c xs
  IsPath-kept d d' c [] same clusters path = path
  IsPath-kept d d' c (x ∷ xs) same (_, below, _, clusters) (at_x, valid, path) =
      let low = same (fat_address vol x) (omega (arith, below)) in
      let high = same (fat_address vol x + 1) (omega (arith, below)) in
      let entry : fat_entry vol d' x ≡ fat_entry vol d x = omega (arith, low, high) in
      (at_x, valid, rw entry (IsPath-kept d d' (fat_entry vol d x) xs same clusters path))
