-- ===== src/Kernel/Fat/Tests.antt =====
-- The file system on a concrete volume.
use stuos.Prelude.{
  ℕ, ◌+◌, ◌≤◌, ◌<◌, ◌≡◌, ◌≢◌, refl, ◌⊎◌, ◌==◌, if◌then◌else◌, arith, List, [], ◌∷◌, ◌++◌,
}
use stuos.Kernel.Fat.{
  done, halted, Bytes, copy_bytes, Fat16Volume, read_fat, num_clusters, find_free_cluster_number,
  read_from_cluster_chain, write_to_cluster_chain, allocate_next,
}
use stuos.Kernel.Fat.Table.{fat_entry, IsCluster}
use stuos.Kernel.Fat.Chain.{file_address, IsLinked}
use stuos.Kernel.Fat.ReadChain.{read_from_cluster_chain-bytes}
use stuos.Kernel.Fat.Clusters.{AreClusters, IsApart, IsLaidOut, IsPath}
use stuos.Kernel.Fat.WriteChain.{write_to_cluster_chain-bytes}
use stuos.Kernel.Fat.Ending.{Ends, write_to_cluster_chain-Ends}
use stuos.Kernel.Fat.Extend.{IsChain, allocate_next-chains}
use stuos.Kernel.Fat.Entries.{write_file, ftruncate, read_regular_file, put_file_size}
use stuos.Kernel.Fat.Entries.Files.{IsFile, entry_address, entry_at, ftruncate-size_only}
use stuos.Kernel.Fat.Entries.Written.{read_regular_file-write_file}

-- Sectors and clusters of 32 bytes: a table of 16 entries in sector 1, the root directory in the
-- sectors 2 and 3, cluster 2 in sector 4.
abbrev volume : Fat16Volume
volume = record {
  fats_start_sector = 1;
  number_of_fats = 1;
  number_of_sectors_per_fat = 1;
  bytes_per_sector = 32;
  sectors_per_cluster = 1;
  number_of_sectors_root_directory = 2;
}

-- One file of 40 bytes, in the clusters 2, 3 and 4.
abbrev disk : Bytes
disk a =
    if a == 36
    then 3
    else if a == 38
    then 4
    else if a == 40
    then 0xF8
    else if a == 41
    then 0xFF
    else if a == 90
    then 2
    else if a == 92
    then 40
    else 0

abbrev letters : Bytes
letters i = 97 + i

abbrev blank : Bytes
blank i = 0

is_two : IsCluster 2
is_two = (omega arith, omega arith)

is_three : IsCluster 3
is_three = (omega arith, omega arith)

is_four : IsCluster 4
is_four = (omega arith, omega arith)

linked : IsLinked volume disk 2 (2 ∷ 3 ∷ 4 ∷ [])
linked = (refl, is_two, (refl, is_three, (refl, is_four, tt)))

first_two : IsPath volume disk 2 (2 ∷ 3 ∷ [])
first_two = (refl, is_two, (refl, is_three, refl))

clusters : AreClusters volume (2 ∷ 3 ∷ [])
clusters =
    (is_two, omega arith, ((λ e. absurd (omega (arith, e))), tt), (is_three, omega arith, tt, tt))

laid_out : IsLaidOut volume
laid_out = omega arith

regular-IsFile : IsFile volume 0 disk
regular-IsFile = record { in_root = refl; in_range = refl; regular = refl; has_cluster = refl }

first_free : find_free_cluster_number volume disk ≡ done 5
unfolding find_free_cluster_number read_fat
first_free = refl

read_from_cluster_chain-bytes_example :
    (out' : Bytes) × (read_from_cluster_chain volume 2 30 blank 50 disk ≡ done out')
    × ((j : ℕ) → j < 50 → out' j ≡ disk (file_address volume (2 ∷ 3 ∷ 4 ∷ []) (30 + j)))
    × ((j : ℕ) → 50 ≤ j → out' j ≡ blank j)
read_from_cluster_chain-bytes_example =
    read_from_cluster_chain-bytes volume 2 (2 ∷ 3 ∷ 4 ∷ []) 30 blank 50 disk linked (omega arith)
      (omega arith)

write_to_cluster_chain-bytes_example :
    (d' : Bytes) × (write_to_cluster_chain volume 2 30 letters 20 disk ≡ done d')
    × ((j : ℕ) → j < 20 → d' (file_address volume (2 ∷ 3 ∷ []) (30 + j)) ≡ letters j)
    × ((a : ℕ) → ((j : ℕ) → j < 20 → a ≢ file_address volume (2 ∷ 3 ∷ []) (30 + j)) → d' a ≡ disk a)
write_to_cluster_chain-bytes_example =
    write_to_cluster_chain-bytes volume 2 2 (3 ∷ []) 30 letters 20 disk laid_out clusters first_two
      (omega arith) (omega arith)

write_to_cluster_chain-Ends_example : Ends (write_to_cluster_chain volume 2 90 letters 50 disk)
write_to_cluster_chain-Ends_example =
    write_to_cluster_chain-Ends volume 2 90 letters 50 disk (omega arith)

allocate_next-chains_example :
    ((new : ℕ) × (d' : Bytes) × (allocate_next volume 4 disk ≡ done (new, d'))
      × (fat_entry volume disk new < 2)
      × (new < num_clusters volume)
      × ((c₀ : ℕ) (xs : List ℕ)
          → IsChain volume disk c₀ (xs ++ 4 ∷ [])
          → IsApart 4 xs
          → IsChain volume d' c₀ (xs ++ 4 ∷ new ∷ []))
      × ((c₀ : ℕ) (xs : List ℕ)
          → IsChain volume disk c₀ xs
          → IsApart 4 xs
          → IsChain volume d' c₀ xs))
    ⊎ ((allocate_next volume 4 disk ≡ halted)
        × ((m : ℕ) → 2 ≤ m → m < num_clusters volume → 2 ≤ fat_entry volume disk m))
allocate_next-chains_example = allocate_next-chains volume 4 disk (omega arith) is_four refl

ftruncate-size_only_example :
    ftruncate volume 0 100 disk
    ≡ done
        (copy_bytes (put_file_size 100 (entry_at volume 0 disk)) 0 32 disk (entry_address volume 0))
ftruncate-size_only_example = ftruncate-size_only volume 0 100 disk regular-IsFile (omega arith)

read_regular_file-write_file_example :
    (d' out' : Bytes) × (write_file volume 0 30 letters 20 disk ≡ done (20, d'))
    × (read_regular_file volume 0 30 blank 20 d' ≡ done (20, out'))
    × ((j : ℕ) → j < 20 → out' j ≡ letters j)
read_regular_file-write_file_example =
    read_regular_file-write_file volume 0 2 (3 ∷ []) 30 20 letters blank disk laid_out
      regular-IsFile clusters first_two (omega arith) (omega arith) (omega arith)
