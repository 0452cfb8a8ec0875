-- ===== src/Kernel/Fat/Entries/Written.antt =====
-- What `write_file` of stuos/src/fs_fat.c writes is what `read_file` reads.
use stuos.Prelude.{
  ℕ, ◌+◌, ◌*◌, ◌%◌, ◌^◌, ◌≤◌, ◌<◌, ◌≡◌, refl, ap, ◌∙◌, inl, true, false, ltb, arith, List, ◌∷◌,
  length,
}
use stuos.Kernel.Fat.{
  done, Bytes, copy_bytes, Fat16Volume, calculate_data_section_start, bytes_per_cluster,
  read_from_cluster_chain, write_to_cluster_chain,
}
use stuos.Kernel.Fat.Copy.{copy_bytes-inside, copy_bytes-outside}
use stuos.Kernel.Fat.ReadChain.{read_from_cluster_chain-bytes}
use stuos.Kernel.Fat.Clusters.{
  AreClusters, IsLaidOut, IsPath, IsPath-kept, IsPath-IsLinked, file_address-data,
}
use stuos.Kernel.Fat.WriteChain.{write_to_cluster_chain-bytes}
use stuos.Kernel.Fat.Entries.{
  get_dirent_index_in_parent, entry_cluster_number, file_size_bytes, is_in_root_dir,
  read_from_root_dir, read_parent_dirent, write_file, read_regular_file,
}
use stuos.Kernel.Fat.Entries.Files.{
  entry_address, entry_at, IsFile, read_parent_dirent-root, write_parent_dirent-root,
  stat_file-regular, with_cluster-same, grown, grow-grown, grown-fields,
}

module _ (vol : Fat16Volume) (inode : ℕ) where
  -- The disk once the entry is written.
  with_entry : Bytes → Bytes → Bytes
  with_entry e d = copy_bytes e 0 32 d (entry_address vol inode)

  -- Reading after writing, in terms of the parts of both.
  write_file-parts :
      (offset num : ℕ) (input d d' : Bytes)
      → IsFile vol inode d
      → offset + num < 2 ^ 32
      → let e = grown (offset + num) (entry_at vol inode d) in
        write_to_cluster_chain vol
            (entry_cluster_number (entry_at vol inode d))
            offset
            input
            num
            (with_entry e d)
          ≡ done d'
        → write_file vol inode offset input num d ≡ done (num, d')
  unfolding write_file with_entry
  write_file-parts offset num input d d' file small wrote =
      let e = entry_at vol inode d in
      let new_end : (offset + num) % 2 ^ 64 ≡ offset + num = omega (arith, small) in
      let fields = grown-fields (offset + num) e small in
      simp
        (
          stat_file-regular vol inode d file,
          read_parent_dirent-root vol inode d file,
          with_cluster-same vol inode d file,
          new_end,
          grow-grown (offset + num) e small,
          write_parent_dirent-root vol inode d file (grown (offset + num) e),
          fields.0,
          wrote,
        )
        refl

  -- A field that the disk holds as the entry has it.
  same_fields :
      (e d' : Bytes)
      → ((k : ℕ) → k < 32 → d' (entry_address vol inode + k) ≡ e k)
      → (entry_cluster_number (entry_at vol inode d') ≡ entry_cluster_number e)
        × (file_size_bytes (entry_at vol inode d') ≡ file_size_bytes e)
  same_fields e d' same =
      let b26 = same 26 (omega arith) in
      let b27 = same 27 (omega arith) in
      let b28 = same 28 (omega arith) in
      let b29 = same 29 (omega arith) in
      let b30 = same 30 (omega arith) in
      let b31 = same 31 (omega arith) in
      (omega (arith, b26, b27), omega (arith, b28, b29, b30, b31))

  read_regular_file-parts :
      (offset num : ℕ) (out d d' out' e : Bytes)
      → IsFile vol inode d
      → ((k : ℕ) → k < 32 → d' (entry_address vol inode + k) ≡ e k)
      → offset + num ≤ file_size_bytes e
      → offset + num < 2 ^ 32
      → read_from_cluster_chain vol (entry_cluster_number e) offset out num d' ≡ done out'
      → read_regular_file vol inode offset out num d' ≡ done (num, out')
  unfolding read_regular_file read_parent_dirent read_from_root_dir
  read_regular_file-parts offset num out d d' out' e file same within small did_read =
      let fields = same_fields e d' same in
      let new_end : (offset + num) % 2 ^ 64 ≡ offset + num = omega (arith, small) in
      let inside : ltb (file_size_bytes e) (offset + num) ≡ false = ground (arith, within) in
      simp (file.in_root, file.in_range, fields.0, fields.1, new_end, inside, did_read) refl

in_data :
    (vol : Fat16Volume) (inode k : ℕ)
    → IsLaidOut vol
    → is_in_root_dir vol (get_dirent_index_in_parent inode * 32) 32 ≡ true
    → k < 32
    → entry_address vol inode + k < calculate_data_section_start vol
in_data vol inode k laid inside less =
    let room : get_dirent_index_in_parent inode * 32 + 32
        < vol.number_of_sectors_root_directory * vol.bytes_per_sector =
      ground (arith, inside) in
    omega (arith, laid, room, less)

-- What `write_file` writes to a regular file, `read_file` reads back: the file's entry stands in
-- the root directory and has a first cluster, the bytes lie within clusters of the file that
-- another one follows, and they end below byte 2^32. The read returns all of them, since the size
-- in the entry covers them.
pub read_regular_file-write_file :
    (vol : Fat16Volume) (inode x : ℕ) (xs : List ℕ) (offset num : ℕ) (input out d : Bytes)
    → IsLaidOut vol
    → IsFile vol inode d
    → AreClusters vol (x ∷ xs)
    → IsPath vol d (entry_cluster_number (entry_at vol inode d)) (x ∷ xs)
    → 0 < bytes_per_cluster vol
    → offset + num ≤ bytes_per_cluster vol * length (x ∷ xs)
    → offset + num < 2 ^ 32
    → (d' out' : Bytes) × (write_file vol inode offset input num d ≡ done (num, d'))
      × (read_regular_file vol inode offset out num d' ≡ done (num, out'))
      × ((j : ℕ) → j < num → out' j ≡ input j)
unfolding with_entry
read_regular_file-write_file vol inode x xs offset num input out d laid file clusters path some_size
      within small =
    let c = entry_cluster_number (entry_at vol inode d) in
    let e = grown (offset + num) (entry_at vol inode d) in
    let (cluster, size) = grown-fields (offset + num) (entry_at vol inode d) small in
    let d₂ = with_entry vol inode e d in
    let path₂ =
      IsPath-kept vol d d₂ c (x ∷ xs)
        (λ a lt. copy_bytes-outside e 0 32 d (entry_address vol inode) a (inl (omega (arith, lt))))
        clusters path in
    let (d', wrote, written, other) =
      write_to_cluster_chain-bytes vol c x xs offset input num d₂ laid clusters path₂ some_size
        within in
    let kept : (a : ℕ) → a < calculate_data_section_start vol → d' a ≡ d₂ a = λ a lt.
      other a (λ j less at. omega (
        arith,
        lt,
        at,
        file_address-data vol (x ∷ xs) (offset + j) (omega (arith, within, less)),
      )) in
    let linked = IsPath-IsLinked vol d' c (x ∷ xs) (
      IsPath-kept vol d₂ d' c (x ∷ xs) (λ a lt. kept a (omega (arith, lt, laid))) clusters path₂) in
    let (out', did_read, copied, _) =
      read_from_cluster_chain-bytes vol c (x ∷ xs) offset out num d' linked some_size within in
    let in_entry : (k : ℕ) → k < 32 → d' (entry_address vol inode + k) ≡ e k = λ k less.
      kept (entry_address vol inode + k) (in_data vol inode k laid file.in_range less)
      ∙ copy_bytes-inside e 0 32 d (entry_address vol inode) (entry_address vol inode + k)
          (omega arith) (omega arith)
      ∙ ap e (omega arith) in
    (
      d',
      out',
      write_file-parts vol inode offset num input d d' file small wrote,
      read_regular_file-parts vol inode offset num out d d' out' e file in_entry size small
          (rw cluster did_read),
      λ j lt. copied j lt ∙ written j lt,
    )
