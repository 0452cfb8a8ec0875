-- ===== src/Kernel/Fat/Chain.antt =====
-- The chains of clusters that the file allocation table of stuos/src/fs_fat.c links.
use stuos.Prelude.{
  ℕ, suc, ◌+◌, ◌-◌, ◌*◌, ◌<◌, ◌≡◌, refl, ap, ◌∙◌, ◌⊎◌, inl, inr, true, false, ltb, leb, if_true,
  if_false, if◌then◌else◌, arith, List, [], ◌∷◌,
}
use stuos.Kernel.Fat.{
  Bytes, Fat16Volume, bytes_per_cluster, calculate_data_section_start, src_addr, start_in_cluster,
}
use stuos.Kernel.Fat.Table.{fat_entry, IsCluster}

-- Clusters that the table links, from `c` on.
abbrev pub IsLinked : Fat16Volume → Bytes → ℕ → List ℕ → Type 0
IsLinked vol d c [] = Unit
IsLinked vol d c (x ∷ xs) = (c ≡ x) × IsCluster x × IsLinked vol d (fat_entry vol d x) xs

-- Where byte `p` of the file in those clusters lies.
abbrev pub file_address : Fat16Volume → List ℕ → ℕ → ℕ
file_address vol [] p = 0
file_address vol (x ∷ xs) p =
    if ltb p (bytes_per_cluster vol)
    then calculate_data_section_start vol + bytes_per_cluster vol * (x - 2) + p
    else file_address vol xs (p - bytes_per_cluster vol)

-- In round `i` of a loop over a chain: `skip` clusters are still to be skipped, and in the one
-- behind them the bytes from `start` on are next.
abbrev pub IsAt : ℕ → ℕ → ℕ → ℕ → ℕ → Type 0
IsAt required required_offset i skip start =
    ((i + skip ≡ required) × (start ≡ required_offset))
    ⊎ ((required < i) × (skip ≡ 0) × (start ≡ 0))

pub IsAt-skip :
    (required r i skip start : ℕ)
    → IsAt required r i (suc skip) start
    → IsAt required r (suc i) skip start
IsAt-skip required r i skip start (inl (e, same)) = inl (omega (arith, e), same)
IsAt-skip required r i skip start (inr (_, none_left, _)) = absurd (omega (arith, none_left))

pub IsAt-before :
    (required r i skip start : ℕ) → IsAt required r i (suc skip) start → leb required i ≡ false
IsAt-before required r i skip start (inl (e, same)) = ground (arith, e)
IsAt-before required r i skip start (inr (_, none_left, _)) = absurd (omega (arith, none_left))

pub IsAt-next : (required r i start : ℕ) → IsAt required r i 0 start → IsAt required r (suc i) 0 0
IsAt-next required r i start (inl (e, _)) = inr (omega (arith, e), refl, refl)
IsAt-next required r i start (inr (past, _, _)) = inr (omega (arith, past), refl, refl)

pub start_in_cluster-IsAt :
    (required r i start : ℕ)
    → IsAt required r i 0 start
    → (start_in_cluster i required r ≡ start) × (leb required i ≡ true)
start_in_cluster-IsAt required r i start (inl (e, same)) = (ground arith, ground arith)
start_in_cluster-IsAt required r i start (inr (past, _, none)) = (ground arith, ground arith)

module _ (vol : Fat16Volume) (x : ℕ) (xs : List ℕ) where
  pub file_address-here :
      (start j : ℕ)
      → start + j < bytes_per_cluster vol
      → file_address vol (x ∷ xs) (start + j) ≡ src_addr vol x start + j
  file_address-here start j lt =
      if_true {b = ltb (start + j) (bytes_per_cluster vol)} _ _ (ground arith) ∙ omega arith

  pub file_address-first :
      (p : ℕ) → p < bytes_per_cluster vol → file_address vol (x ∷ xs) p ≡ src_addr vol x p
  file_address-first p lt = if_true {b = ltb p (bytes_per_cluster vol)} _ _ (ground arith)

  pub file_address-later :
      (p : ℕ) → file_address vol (x ∷ xs) (bytes_per_cluster vol + p) ≡ file_address vol xs p
  file_address-later p =
      if_false {b = ltb (bytes_per_cluster vol + p) (bytes_per_cluster vol)} _ _ (ground arith)
      ∙ ap (file_address vol xs) (omega arith)
