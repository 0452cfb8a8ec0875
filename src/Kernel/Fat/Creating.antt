-- ===== src/Kernel/Fat/Creating.antt =====
-- `create_inode` of stuos/src/fs_fat.c. `create_idx` is its static counter, which is returned.
-- The array `entries_to_insert` has room for 65 entries; a name that needs more is not cut off.
use stuos.Prelude.{
  ℕ, zero, suc, ◌+◌, ◌-◌, ◌*◌, ◌/◌, ◌%◌, ◌^◌, ◌≤◌, ◌<◌, ◌==◌, ltb, leb, ◌&&◌, if◌then◌else◌, List,
  [], ◌∷◌, ◌++◌, length, map, get_or, arith, Bool-cases, inl, inr,
}
use stuos.Kernel.Fat.{
  Result, done, halted, out_of_fuel, ◌>>=◌, Bytes, to_bytes, Fat16Volume, find_free_cluster_number,
  write_fat, write_to_cluster_chain, root_dir_start_byte, copy_bytes,
}
use stuos.Kernel.Fat.Ending.{Ends, Ends-if}
use stuos.Kernel.Fat.Entries.{
  i_am_root_dir, entry_cluster_number, file_size_bytes, put_cluster_number, put_file_size, s_isdir,
  create_fat_mode, read_from_root_dir, write_to_root_dir, read_parent_dirent, write_parent_dirent,
  stat_file, is_in_root_dir,
}
use stuos.Kernel.Fat.Names.{LfnEntry, create_lfn_entries}

-- "READ_LFN" and three letters that count.
abbrev pub short_file_name : ℕ → List ℕ
short_file_name create_idx =
    82
    ∷ 69
    ∷ 65
    ∷ 68
    ∷ 95
    ∷ 76
    ∷ 70
    ∷ 78
    ∷ (65 + create_idx % 26)
    ∷ (65 + create_idx / 26 % 26)
    ∷ (65 + create_idx / 26 / 26 % 26)
    ∷ []

-- The 32 bytes of an entry of a long name.
abbrev pub lfn_bytes : LfnEntry → Bytes
lfn_bytes e i =
    let name_byte : ℕ → ℕ = λ k. to_bytes (get_or e.unicode_name (k / 2) 0) (k % 2) in
    if i == 0
    then e.sequence_number + (if e.is_last_in_sequence then 64 else 0)
    else if ltb i 11
    then name_byte (i - 1)
    else if i == 11
    then 0x0F
    else if i == 13
    then e.lfn_checksum
    else if leb 14 i && ltb i 26
    then name_byte (10 + (i - 14))
    else if leb 28 i && ltb i 32
    then name_byte (22 + (i - 28))
    else 0

-- The entry of the file itself.
abbrev pub dirent_bytes : List ℕ → ℕ → ℕ → ℕ → Bytes
dirent_bytes name attrs cluster_number size =
    put_file_size size
      (put_cluster_number cluster_number (λ i. if i == 11 then attrs else get_or name i 0))

-- Entries one behind the other.
abbrev pub entries_bytes : List Bytes → Bytes
entries_bytes entries i = get_or entries (i / 32) (λ _. 0) (i % 32)

-- The first cluster of a new directory, with an end mark in it: the cluster and the size.
pub new_directory : Fat16Volume → Bytes → Result (ℕ × ℕ × Bytes)
new_directory vol d = find_free_cluster_number vol d >>= λ cluster_number.
    write_fat vol cluster_number 0xFFF8 d >>= λ d₁.
    write_to_cluster_chain vol cluster_number 0 (λ _. 0) 32 d₁ >>= λ d₂.
    done (cluster_number, 32, d₂)

-- The loop that looks for the end of the root directory.
abbrev pub root_end_loop : ℕ → ℕ → Fat16Volume → Bytes → Result ℕ
root_end_loop zero offset vol d = out_of_fuel
root_end_loop (suc fuel) offset vol d =
    let rest = root_end_loop fuel (offset + 32) vol d in
    read_from_root_dir vol offset (λ _. 0) 32 d >>= λ e. if e 0 == 0 then done offset else rest

abbrev pub root_dir_size : Fat16Volume → ℕ
root_dir_size vol = vol.number_of_sectors_root_directory * vol.bytes_per_sector

pub insert_entries : Fat16Volume → ℕ → Bytes → ℕ → Bytes → Result Bytes
insert_entries vol parent_inode entries total d =
    if parent_inode == i_am_root_dir
    then (root_end_loop (suc (root_dir_size vol)) 0 vol d >>= λ offset.
        write_to_root_dir vol offset entries (32 * total) d)
    else (read_parent_dirent vol parent_inode d >>= λ e.
        let offset = (file_size_bytes e + 2 ^ 32 - 32) % 2 ^ 32 in
        let e' = put_file_size ((file_size_bytes e + 32 * (total - 1)) % 2 ^ 32) e in
        write_parent_dirent vol parent_inode e' d >>= λ d₁.
        write_to_cluster_chain vol (entry_cluster_number e') offset entries (32 * total) d₁)

pub create_inode : Fat16Volume → ℕ → ℕ → List ℕ → ℕ → Bytes → Result (ℕ × Bytes)
create_inode vol parent_inode new_inode_type name create_idx d =
    stat_file vol parent_inode d >>= λ st.
    if s_isdir st.st_mode && ltb (length name) (13 * 65)
    then (let short_name = short_file_name create_idx in
        let lfn = create_lfn_entries short_name name in
        (if s_isdir new_inode_type then new_directory vol d else done (0, 0, d))
        >>= λ (cluster_number, size, d₁). create_fat_mode new_inode_type >>= λ attrs.
            let entry = dirent_bytes short_name attrs cluster_number size in
            insert_entries vol parent_inode
              (entries_bytes (map lfn_bytes lfn ++ entry ∷ (λ _. 0) ∷ [])) (length lfn + 2) d₁
            >>= λ d₂. done ((create_idx + 1) % 2 ^ 32, d₂))
    else halted

-- The loop ends with the rounds that it gets.
root_end_loop-Ends :
    (fuel offset : ℕ) (vol : Fat16Volume) (d : Bytes)
    → offset ≤ root_dir_size vol
    → root_dir_size vol < offset + fuel
    → Ends (root_end_loop fuel offset vol d)
unfolding read_from_root_dir
root_end_loop-Ends zero offset vol d le enough = absurd (omega (arith, le, enough))
root_end_loop-Ends (suc fuel) offset vol d le enough =
    elim (Bool-cases (is_in_root_dir vol offset 32)) [
      | inl inside ↦
          let room : offset + 32 < root_dir_size vol = ground (arith, inside) in
          rw inside (
            Ends-if (copy_bytes d (root_dir_start_byte vol + offset) 32 (λ _. 0) 0 0 == 0) _ _ tt (
              root_end_loop-Ends fuel (offset + 32) vol d (omega (arith, room))
                (omega (arith, enough))))
      | inr past ↦ rw past tt
    ]
