-- ===== src/Kernel/Fat/Entries.antt =====
-- Inode numbers, directory entries and the operations on files of stuos/src/fs_fat.c.
-- A directory entry is its 32 bytes; what is read of it and written to it are the fields at their
-- offsets in `struct Fat16DirectoryEntry`.
pub mod Inodes
pub mod Files
pub mod Written
use stuos.Prelude.{
  ℕ, ◌+◌, ◌-◌, ◌*◌, ◌/◌, ◌%◌, ◌^◌, Bool, true, false, ◌==◌, ◌!=◌, ltb, leb, ◌&&◌, ◌||◌,
  if◌then◌else◌,
}
use stuos.Kernel.Fat.{
  Result, done, halted, ◌>>=◌, Bytes, copy_bytes, to_bytes, from_bytes, Fat16Volume,
  root_dir_start_byte, is_invalid_cluster_num, find_free_cluster_number, write_fat,
  read_from_cluster_chain, write_to_cluster_chain,
}

-- `i_am_root_dir` is the number that stands for the root directory itself, `parent_is_root_dir`
-- stands in the inode numbers of its entries.
abbrev pub parent_is_root_dir : ℕ
parent_is_root_dir = 0

abbrev pub i_am_root_dir : ℕ
i_am_root_dir = 1

abbrev pub get_parent_cluster_num : ℕ → ℕ
get_parent_cluster_num inode_num = inode_num % 2 ^ 16

abbrev pub get_dirent_index_in_parent : ℕ → ℕ
get_dirent_index_in_parent inode_num = inode_num / 2 ^ 16 % 2 ^ 16

-- The entry's number is shifted as an `int`, so from 0x8000 on the result is negative and its sign
-- fills the upper half of the inode number.
unfoldable pub make_inode : ℕ → ℕ → Result ℕ
make_inode parent_cluster_number parent_dirent_number =
    if (parent_cluster_number == i_am_root_dir) && (parent_dirent_number != 0)
    then halted
    else done (
        parent_cluster_number
        + parent_dirent_number * 2 ^ 16
        + (if leb 0x8000 parent_dirent_number then 2 ^ 64 - 2 ^ 32 else 0))

abbrev pub attributes : Bytes → ℕ
attributes e = e 11

abbrev pub entry_cluster_number : Bytes → ℕ
entry_cluster_number e = from_bytes 2 e 26

abbrev pub file_size_bytes : Bytes → ℕ
file_size_bytes e = from_bytes 4 e 28

abbrev pub put_cluster_number : ℕ → Bytes → Bytes
put_cluster_number v e = copy_bytes (to_bytes v) 0 2 e 26

abbrev pub put_file_size : ℕ → Bytes → Bytes
put_file_size v e = copy_bytes (to_bytes v) 0 4 e 28

abbrev pub s_ifdir : ℕ
s_ifdir = 0x4000

abbrev pub s_ifreg : ℕ
s_ifreg = 0x8000

abbrev pub s_isdir : ℕ → Bool
s_isdir mode = mode / 2 ^ 12 % 2 ^ 4 == 4

abbrev pub s_isreg : ℕ → Bool
s_isreg mode = mode / 2 ^ 12 % 2 ^ 4 == 8

-- `read_fat_mode`: the bits 0 to 3 are those of a file that is read-only, hidden, of the system or
-- the label of the volume, bit 4 that of a directory.
pub read_fat_mode : ℕ → Result ℕ
read_fat_mode attrs =
    if attrs % 16 != 0 then halted else done (if attrs / 16 % 2 == 1 then s_ifdir else s_ifreg)

pub create_fat_mode : ℕ → Result ℕ
create_fat_mode mode = if s_isdir mode then done 16 else if s_isreg mode then done 0 else halted

-- The tests at the start of `read_from_root_dir` and `write_to_root_dir`.
abbrev pub is_in_root_dir : Fat16Volume → ℕ → ℕ → Bool
is_in_root_dir vol requested_offset num_bytes =
    (requested_offset % 32 == 0)
    && (num_bytes % 32 == 0)
    && ltb (requested_offset + num_bytes)
        (vol.number_of_sectors_root_directory * vol.bytes_per_sector)

unfoldable pub read_from_root_dir : Fat16Volume → ℕ → Bytes → ℕ → Bytes → Result Bytes
read_from_root_dir vol requested_offset out num_bytes d =
    if is_in_root_dir vol requested_offset num_bytes
    then done (copy_bytes d (root_dir_start_byte vol + requested_offset) num_bytes out 0)
    else halted

pub write_to_root_dir : Fat16Volume → ℕ → Bytes → ℕ → Bytes → Result Bytes
write_to_root_dir vol requested_offset input num_bytes d =
    if is_in_root_dir vol requested_offset num_bytes
    then done (copy_bytes input 0 num_bytes d (root_dir_start_byte vol + requested_offset))
    else halted

pub read_parent_dirent : Fat16Volume → ℕ → Bytes → Result Bytes
read_parent_dirent vol inode_num d =
    let parent = get_parent_cluster_num inode_num in
    let offset = get_dirent_index_in_parent inode_num * 32 in
    if parent == i_am_root_dir
    then halted
    else if parent == parent_is_root_dir
    then read_from_root_dir vol offset (λ _. 0) 32 d
    else read_from_cluster_chain vol parent offset (λ _. 0) 32 d

pub write_parent_dirent : Fat16Volume → ℕ → Bytes → Bytes → Result Bytes
write_parent_dirent vol inode_num value d =
    let parent = get_parent_cluster_num inode_num in
    let offset = get_dirent_index_in_parent inode_num * 32 in
    if parent == i_am_root_dir
    then halted
    else if parent == parent_is_root_dir
    then write_to_root_dir vol offset value 32 d
    else write_to_cluster_chain vol parent offset value 32 d

-- `struct stat`, without the fields that are 0.
pub record Stat : Type 0 where
  pub st_ino : ℕ
  pub st_mode : ℕ
  pub st_size : ℕ

pub stat_file : Fat16Volume → ℕ → Bytes → Result Stat
stat_file vol inode_num d =
    if get_parent_cluster_num inode_num == i_am_root_dir
    then done (record {
      st_ino = inode_num;
      st_mode = s_ifdir;
      st_size = vol.number_of_sectors_root_directory * vol.bytes_per_sector;
    })
    else read_parent_dirent vol inode_num d >>= λ e. read_fat_mode (attributes e) >>= λ mode.
        done (record { st_ino = inode_num; st_mode = mode; st_size = file_size_bytes e })

-- The end of `read_file`, for what is not a directory.
pub read_regular_file : Fat16Volume → ℕ → ℕ → Bytes → ℕ → Bytes → Result (ℕ × Bytes)
read_regular_file vol inode_num offset out num_bytes d = read_parent_dirent vol inode_num d >>= λ e.
    let size = file_size_bytes e in
    let num =
      (if ltb size ((offset + num_bytes) % 2 ^ 64)
        then (size + 2 ^ 64 - offset) % 2 ^ 64
        else num_bytes) in
    read_from_cluster_chain vol (entry_cluster_number e) offset out num d >>= λ out'.
    done (num, out')

-- "no clusters allocated to this file yet" in `write_file` and `ftruncate`.
pub first_cluster : Fat16Volume → Bytes → Bytes → Result (Bytes × Bytes)
first_cluster vol e d = find_free_cluster_number vol d >>= λ new.
    write_fat vol new 0xFFF8 d >>= λ d'. done (put_cluster_number new e, d')

pub with_cluster : Fat16Volume → Bytes → Bytes → Result (Bytes × Bytes)
with_cluster vol e d =
    if is_invalid_cluster_num (entry_cluster_number e) then first_cluster vol e d else done (e, d)

-- The size that `write_file` puts in the entry.
abbrev pub grow : ℕ → Bytes → Result Bytes
grow new_end e =
    if ltb (file_size_bytes e) new_end
    then if ltb (2 ^ 32 - 1) new_end then halted else done (put_file_size new_end e)
    else done e

pub write_file : Fat16Volume → ℕ → ℕ → Bytes → ℕ → Bytes → Result (ℕ × Bytes)
write_file vol inode_num offset input num_bytes d = stat_file vol inode_num d >>= λ st.
    if s_isdir st.st_mode
    then halted
    else read_parent_dirent vol inode_num d >>= λ e. with_cluster vol e d >>= λ (e', d₁).
        grow ((offset + num_bytes) % 2 ^ 64) e' >>= λ e''.
        write_parent_dirent vol inode_num e'' d₁ >>= λ d₂.
        write_to_cluster_chain vol (entry_cluster_number e'') offset input num_bytes d₂ >>= λ d₃.
        done (num_bytes, d₃)

-- The zero padding of `ftruncate`, whose size is set before it is compared.
abbrev pub zero_pad : Fat16Volume → ℕ → Bytes → Bytes → Result Bytes
zero_pad vol len e d =
    if leb (file_size_bytes e) len
    then write_to_cluster_chain vol (entry_cluster_number e) (file_size_bytes e) (λ _. 0)
        ((len - file_size_bytes e) % 2 ^ 32) d
    else done d

pub ftruncate : Fat16Volume → ℕ → ℕ → Bytes → Result Bytes
ftruncate vol inode_num len d = stat_file vol inode_num d >>= λ st.
    if s_isdir st.st_mode
    then halted
    else read_parent_dirent vol inode_num d >>= λ e. with_cluster vol e d >>= λ (e', d₁).
        if ltb (2 ^ 32 - 1) len
        then halted
        else zero_pad vol len (put_file_size len e') d₁ >>= λ d₂.
            write_parent_dirent vol inode_num (put_file_size len e') d₂
