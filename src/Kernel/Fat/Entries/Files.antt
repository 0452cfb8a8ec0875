-- ===== src/Kernel/Fat/Entries/Files.antt =====
-- `write_file`, `ftruncate` and the end of `read_file` of stuos/src/fs_fat.c, for a file whose
-- entry stands in the root directory.
use stuos.Prelude.{
  ℕ, zero, suc, ◌+◌, ◌-◌, ◌*◌, ◌/◌, ◌%◌, ◌^◌, ◌≤◌, ◌<◌, ◌≡◌, refl, inl, inr, true, false, ◌==◌,
  ◌!=◌, ltb, leb, if◌then◌else◌, arith, Bool-cases,
}
use stuos.Kernel.Fat.{
  done, Bytes, copy_bytes, to_bytes, Fat16Volume, root_dir_start_byte, bytes_per_cluster,
  is_invalid_cluster_num, write_to_cluster_chain, write_chain,
}
use stuos.Kernel.Fat.Entries.{
  get_parent_cluster_num, get_dirent_index_in_parent, attributes, entry_cluster_number,
  file_size_bytes, put_file_size, s_ifreg, is_in_root_dir, read_from_root_dir, write_to_root_dir,
  read_parent_dirent, write_parent_dirent, read_fat_mode, stat_file, with_cluster, ftruncate, grow,
}

-- The entry of an inode whose directory is the root directory.
abbrev pub entry_address : Fat16Volume → ℕ → ℕ
entry_address vol inode = root_dir_start_byte vol + get_dirent_index_in_parent inode * 32

abbrev pub entry_at : Fat16Volume → ℕ → Bytes → Bytes
entry_at vol inode d = copy_bytes d (entry_address vol inode) 32 (λ _. 0) 0

-- A regular file with its entry in the root directory and a first cluster.
pub record IsFile (vol : Fat16Volume) (inode : ℕ) (d : Bytes) : Type 0 where
  pub in_root : get_parent_cluster_num inode ≡ 0
  pub in_range : is_in_root_dir vol (get_dirent_index_in_parent inode * 32) 32 ≡ true
  pub regular : attributes (entry_at vol inode d) % 32 ≡ 0
  pub has_cluster : is_invalid_cluster_num (entry_cluster_number (entry_at vol inode d)) ≡ false

module _ (vol : Fat16Volume) (inode : ℕ) (d : Bytes) (file : IsFile vol inode d) where
  pub read_parent_dirent-root : read_parent_dirent vol inode d ≡ done (entry_at vol inode d)
  unfolding read_parent_dirent read_from_root_dir
  read_parent_dirent-root = rw (file.in_root, file.in_range) refl

  pub write_parent_dirent-root :
      (e : Bytes)
      → write_parent_dirent vol inode e d ≡ done (copy_bytes e 0 32 d (entry_address vol inode))
  unfolding write_parent_dirent write_to_root_dir
  write_parent_dirent-root e = rw (file.in_root, file.in_range) refl

  pub stat_file-regular :
      stat_file vol inode d
      ≡ done (record {
        st_ino = inode;
        st_mode = s_ifreg;
        st_size = file_size_bytes (entry_at vol inode d);
      })
  unfolding stat_file read_fat_mode
  stat_file-regular =
      let a = attributes (entry_at vol inode d) in
      let low : a % 16 != 0 ≡ false = ground (arith, file.regular) in
      let plain : a / 16 % 2 == 1 ≡ false = ground (arith, file.regular) in
      rw (file.in_root, read_parent_dirent-root, low, plain) refl

  pub with_cluster-same : with_cluster vol (entry_at vol inode d) d ≡ done (entry_at vol inode d, d)
  unfolding with_cluster
  with_cluster-same = rw file.has_cluster refl

-- The fields of an entry that got a new size.
pub put_file_size-size : (v : ℕ) (e : Bytes) → v < 2 ^ 32 → file_size_bytes (put_file_size v e) ≡ v
put_file_size-size v e small =
    let b0 : to_bytes v 0 ≡ v % 256 = omega arith in
    let b1 : to_bytes v 1 ≡ v / 256 % 256 = omega arith in
    let b2 : to_bytes v 2 ≡ v / 256 ^ 2 % 256 = omega arith in
    let b3 : to_bytes v 3 ≡ v / 256 ^ 3 % 256 = omega arith in omega (arith, b0, b1, b2, b3, small)

pub put_file_size-cluster :
    (v : ℕ) (e : Bytes) → entry_cluster_number (put_file_size v e) ≡ entry_cluster_number e
put_file_size-cluster v e = refl

write_chain-none :
    (fuel : ℕ) (vol : Fat16Volume) (input : Bytes) (required r i c b : ℕ) (d : Bytes)
    → write_chain fuel vol input required r i c b 0 d ≡ done d
write_chain-none zero vol input required r i c b d = refl
write_chain-none (suc fuel) vol input required r i c b d = refl

-- `ftruncate` of a regular file with a first cluster, to a length below 2^32, changes the size in
-- its entry and nothing else: it writes no zero, also where the file grows.
pub ftruncate-size_only :
    (vol : Fat16Volume) (inode len : ℕ) (d : Bytes)
    → IsFile vol inode d
    → len < 2 ^ 32
    → ftruncate vol inode len d
      ≡ done
          (copy_bytes (put_file_size len (entry_at vol inode d)) 0 32 d (entry_address vol inode))
unfolding ftruncate write_to_cluster_chain
ftruncate-size_only vol inode len d file small =
    let e = entry_at vol inode d in
    let fits : ltb (2 ^ 32 - 1) len ≡ false = ground arith in
    let size = put_file_size-size len e small in
    let same : leb len len ≡ true = ground arith in
    let none : (len - len) % 2 ^ 32 ≡ 0 = omega arith in
    simp
      (
        stat_file-regular vol inode d file,
        read_parent_dirent-root vol inode d file,
        with_cluster-same vol inode d file,
        fits,
        size,
        same,
        none,
        file.has_cluster,
        write_chain-none (len / bytes_per_cluster vol + 0) vol (λ _. 0)
            (len / bytes_per_cluster vol) (len % bytes_per_cluster vol) 0 (entry_cluster_number e) 0
            d,
      )
      (write_parent_dirent-root vol inode d file (put_file_size len e))

-- The entry that `write_file` leaves, for an end of what was written below 2^32.
pub grown : ℕ → Bytes → Bytes
grown new_end e = if ltb (file_size_bytes e) new_end then put_file_size new_end e else e

pub grow-grown :
    (new_end : ℕ) (e : Bytes) → new_end < 2 ^ 32 → grow new_end e ≡ done (grown new_end e)
unfolding grown
grow-grown new_end e small =
    let fits : ltb (2 ^ 32 - 1) new_end ≡ false = ground arith in
    elim (Bool-cases (ltb (file_size_bytes e) new_end)) [
      | inl more ↦ simp (more, fits) refl
      | inr same ↦ simp same refl
    ]

pub grown-fields :
    (new_end : ℕ) (e : Bytes)
    → new_end < 2 ^ 32
    → (entry_cluster_number (grown new_end e) ≡ entry_cluster_number e)
      × (new_end ≤ file_size_bytes (grown new_end e))
unfolding grown
grown-fields new_end e small = elim (Bool-cases (ltb (file_size_bytes e) new_end)) [
  | inl more ↦ simp more (refl, omega (arith, put_file_size-size new_end e small))
  | inr same ↦ simp same (refl, ground arith)
]
