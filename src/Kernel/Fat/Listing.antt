-- ===== src/Kernel/Fat/Listing.antt =====
-- `read_dirents` of stuos/src/fs_fat.c: listing a directory.
-- The names and inode numbers are a result; the names are the strings in `file_name`. The array
-- `long_file_names` has room for 20 entries, and a count above that is not cut off here.
pub mod Endless
mod Tests
use stuos.Prelude.{
  ℕ, zero, suc, ◌+◌, ◌-◌, ◌*◌, ◌/◌, ◌%◌, ◌^◌, Bool, true, false, ◌==◌, ◌!=◌, ltb, leb, ◌&&◌, ◌||◌,
  not, if◌then◌else◌, List, [], ◌∷◌, ◌++◌, length,
}
use stuos.Kernel.Fat.{
  Result, done, halted, out_of_fuel, ◌>>=◌, Bytes, from_bytes, Fat16Volume, read_from_cluster_chain,
}
use stuos.Kernel.Fat.Entries.{
  get_parent_cluster_num, parent_is_root_dir, i_am_root_dir, make_inode, attributes,
  entry_cluster_number, read_from_root_dir, read_parent_dirent, Stat, stat_file, s_isdir,
  read_regular_file,
}
use stuos.Kernel.Fat.Names.{LfnEntry, read_lfn_entries}

pub record Listed : Type 0 where
  pub inode : ℕ
  pub name : List ℕ

-- Some entries of the directory from entry `directory_i` on.
abbrev pub read_entries : Fat16Volume → ℕ → ℕ → ℕ → Bytes → Result Bytes
read_entries vol cluster_number directory_i count d =
    if cluster_number == parent_is_root_dir
    then read_from_root_dir vol (directory_i * 32) (λ _. 0) (count * 32) d
    else read_from_cluster_chain vol cluster_number (directory_i * 32) (λ _. 0) (count * 32) d

-- `n` characters of 16 bits from byte `at` on.
abbrev pub wide_chars : ℕ → Bytes → ℕ → List ℕ
wide_chars zero b at = []
wide_chars (suc n) b at = from_bytes 2 b at ∷ wide_chars n b (at + 2)

-- The entry in the 32 bytes from `at` on, with what is asserted of it.
abbrev pub lfn_entry : Bytes → ℕ → Result LfnEntry
lfn_entry b at =
    if (b (at + 12) == 0) && (from_bytes 2 b (at + 26) == 0) && (b (at + 11) == 0x0F)
    then done (record {
      sequence_number = b at % 64;
      is_last_in_sequence = b at / 64 % 2 == 1;
      unicode_name =
          wide_chars 5 b (at + 1) ++ wide_chars 6 b (at + 14) ++ wide_chars 2 b (at + 28);
      lfn_checksum = b (at + 13);
    })
    else halted

abbrev pub lfn_entries : ℕ → Bytes → ℕ → Result (List LfnEntry)
lfn_entries zero b at = done []
lfn_entries (suc n) b at = lfn_entry b at >>= λ e. lfn_entries n b (at + 32) >>= λ es. done (e ∷ es)

-- The string in front of the first 0.
abbrev pub c_string : List ℕ → List ℕ
c_string [] = []
c_string (c ∷ cs) = if c == 0 then [] else c ∷ c_string cs

abbrev pub lower : ℕ → ℕ
lower c = if leb 65 c && leb c 90 then c + 32 else c

-- The characters of a short name up to a space, in lower case.
abbrev pub short_part : ℕ → Bytes → ℕ → List ℕ
short_part zero e i = []
short_part (suc n) e i = if e i == 32 then [] else lower (e i) ∷ short_part n e (suc i)

abbrev pub short_name : Bytes → List ℕ
short_name e = short_part 8 e 0 ++ (if e 8 == 32 then [] else 46 ∷ []) ++ short_part 3 e 8

-- The variables of the loop.
pub record Listing : Type 0 where
  pub directory_i : ℕ
  pub file_name : List ℕ
  pub entries_read : ℕ
  pub entries : List Listed

-- An entry that is not a part of a long name: its name, the count and what is written.
abbrev pub list_entry : ℕ → ℕ → Bytes → Listing → Result Listing
list_entry cluster_number dirent_index e s =
    let name = (if length s.file_name == 0 then c_string (short_name e) else s.file_name) in
    if ltb dirent_index (suc s.entries_read)
    then (make_inode cluster_number (s.directory_i % 2 ^ 16) >>= λ inode. done (record {
      directory_i = suc s.directory_i;
      file_name = [];
      entries_read = suc s.entries_read;
      entries = s.entries ++ record { inode = inode; name = name } ∷ [];
    }))
    else done (record {
      directory_i = suc s.directory_i;
      file_name = [];
      entries_read = suc s.entries_read;
      entries = s.entries;
    })

-- The entries of a long name, of which `e` is the first.
abbrev pub list_long_name : Fat16Volume → ℕ → Bytes → Bytes → Listing → Result Listing
list_long_name vol cluster_number e d s =
    if length s.file_name != 0
    then halted
    else let n = e 0 % 64 in
      read_entries vol cluster_number s.directory_i n d >>= λ b. lfn_entries n b 0 >>= λ es.
      read_lfn_entries es >>= λ cs.
      done (record s { directory_i = s.directory_i + n; file_name = c_string cs })

-- The loop: the return value and what was written.
pub list_loop : ℕ → Fat16Volume → ℕ → ℕ → ℕ → Bytes → Listing → Result (ℕ × List Listed)
list_loop zero vol cluster_number dirent_index dirent_count d s = out_of_fuel
list_loop (suc fuel) vol cluster_number dirent_index dirent_count d s =
    read_entries vol cluster_number s.directory_i 1 d >>= λ e.
    if attributes e / 64 != 0
    then halted
    else if e 0 == 0
    then done (length s.entries, s.entries)
    else if e 0 == 0xE5
    then list_loop fuel vol cluster_number dirent_index dirent_count d s
    else if attributes e == 0x0F
    then (list_long_name vol cluster_number e d s >>= λ s'.
        list_loop fuel vol cluster_number dirent_index dirent_count d s')
    else if from_bytes 2 e 20 != 0
    then halted
    else if ltb dirent_index (suc s.entries_read) && leb dirent_count (length s.entries)
    then done (dirent_count, s.entries)
    else (list_entry cluster_number dirent_index e s >>= λ s'.
        list_loop fuel vol cluster_number dirent_index dirent_count d s')

-- `read_dirents` with room for at most `fuel` rounds.
pub read_dirents : ℕ → Fat16Volume → ℕ → ℕ → ℕ → Bytes → Result (ℕ × List Listed)
read_dirents fuel vol inode_num dirent_index dirent_count d =
    (if get_parent_cluster_num inode_num == i_am_root_dir
      then done parent_is_root_dir
      else (read_parent_dirent vol inode_num d >>= λ e. done (entry_cluster_number e)))
    >>= λ cluster_number.
        list_loop fuel vol cluster_number dirent_index dirent_count d
          (record { directory_i = 0; file_name = []; entries_read = 0; entries = [] })

-- `sizeof(struct dirent)`.
abbrev pub dirent_size : ℕ
dirent_size = 272

-- What `read_file` puts into its buffer, with its return value.
pub data FileRead : Type 0 where
  file_bytes : ℕ → Bytes → FileRead
  dir_entries : ℕ → List Listed → FileRead

pub read_file : ℕ → Fat16Volume → ℕ → ℕ → Bytes → ℕ → Bytes → Result FileRead
read_file fuel vol inode_num offset out num_bytes d = stat_file vol inode_num d >>= λ st.
    if s_isdir st.st_mode
    then (if (offset % dirent_size == 0) && (num_bytes % dirent_size == 0)
        then (read_dirents fuel vol inode_num (offset / dirent_size) (num_bytes / dirent_size) d
            >>= λ (n, entries). done (dir_entries (n * dirent_size) entries))
        else halted)
    else (read_regular_file vol inode_num offset out num_bytes d >>= λ (n, out').
        done (file_bytes n out'))
