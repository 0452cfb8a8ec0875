-- ===== src/Kernel/Fat.antt =====
-- The FAT16 file system, stuos/src/fs_fat.c.
-- The block device below is its row of bytes, as Kernel/Fat/Device shows of a partition. The
-- volume is an entry of `all_fat_mounts`, which no operation changes once it is mounted. Products
-- of sector counts and sizes are taken not to overflow `int`.
pub mod Copy
pub mod Table
pub mod Chain
pub mod ReadChain
pub mod Clusters
pub mod WriteStep
pub mod WriteChain
pub mod Ending
pub mod Extend
pub mod Entries
pub mod Names
pub mod Mounts
pub mod Listing
pub mod Creating
pub mod Device
mod Tests
use stuos.Prelude.{
  ℕ, zero, suc, ◌+◌, ◌-◌, ◌*◌, ◌/◌, ◌%◌, ◌^◌, Bool, true, false, ◌==◌, ◌!=◌, ltb, leb, ◌&&◌, ◌||◌,
  min, if◌then◌else◌,
}

-- A routine returns, stops the machine (`HCF`), or has a loop that needs more rounds.
pub data Result {ℓ} (A : Type ℓ) : Type ℓ where
  done : A → Result A
  halted : Result A
  out_of_fuel : Result A

infixl 5 ◌>>=◌
abbrev pub ◌>>=◌ {ℓ κ} : {A : Type ℓ} {B : Type κ} → Result A → (A → Result B) → Result B
done a >>= k = k a
halted >>= k = halted
out_of_fuel >>= k = out_of_fuel

abbrev pub Bytes : Type 0
Bytes = ℕ → ℕ

-- `n` bytes of `from`, from index `src` on, over those of `to` from index `dst` on: `read_file` of
-- the block device into a buffer, and `write_file` of a buffer to the block device.
abbrev pub copy_bytes : Bytes → ℕ → ℕ → Bytes → ℕ → Bytes
copy_bytes from src n to dst a =
    if leb dst a && ltb a (dst + n) then from (src + (a - dst)) else to a

-- A number as its bytes in memory, and back.
abbrev pub to_bytes : ℕ → Bytes
to_bytes v i = v / 256 ^ i % 256

abbrev pub from_bytes : ℕ → Bytes → ℕ → ℕ
from_bytes zero b at = 0
from_bytes (suc n) b at = b at + 256 * from_bytes n b (suc at)

pub record Fat16Volume : Type 0 where
  pub fats_start_sector : ℕ
  pub number_of_fats : ℕ
  pub number_of_sectors_per_fat : ℕ
  pub bytes_per_sector : ℕ
  pub sectors_per_cluster : ℕ
  pub number_of_sectors_root_directory : ℕ

-- The byte where the data section starts; the number of its sector is kept in 16 bits.
abbrev pub calculate_data_section_start : Fat16Volume → ℕ
calculate_data_section_start vol =
    (vol.fats_start_sector
      + vol.number_of_fats * vol.number_of_sectors_per_fat
      + vol.number_of_sectors_root_directory)
    % 2 ^ 16
    * vol.bytes_per_sector

abbrev pub root_dir_start_byte : Fat16Volume → ℕ
root_dir_start_byte vol =
    (vol.fats_start_sector + vol.number_of_sectors_per_fat * vol.number_of_fats)
    * vol.bytes_per_sector

abbrev pub is_invalid_cluster_num : ℕ → Bool
is_invalid_cluster_num n = ltb n 2 || leb 0xFFF7 n

abbrev pub is_free_cluster_num : ℕ → Bool
is_free_cluster_num n = ltb n 2

abbrev pub is_end_of_ll_num : ℕ → Bool
is_end_of_ll_num n = leb 0xFFF8 n

-- Where the entry of a cluster stands in the first file allocation table.
abbrev pub fat_address : Fat16Volume → ℕ → ℕ
fat_address vol cluster_number = vol.fats_start_sector * vol.bytes_per_sector + 2 * cluster_number

pub read_fat : Fat16Volume → ℕ → Bytes → Result ℕ
read_fat vol cluster_number d =
    if is_invalid_cluster_num cluster_number
    then halted
    else done (from_bytes 2 (copy_bytes d (fat_address vol cluster_number) 2 (λ _. 0) 0) 0)

pub write_fat : Fat16Volume → ℕ → ℕ → Bytes → Result Bytes
write_fat vol cluster_number value d =
    if is_invalid_cluster_num cluster_number
    then halted
    else done (copy_bytes (to_bytes value) 0 2 d (fat_address vol cluster_number))

abbrev pub num_clusters : Fat16Volume → ℕ
num_clusters vol = vol.number_of_sectors_per_fat * vol.bytes_per_sector / 2 % 2 ^ 16

-- The loop of `find_free_cluster_number`, with `rounds` clusters left.
abbrev pub find_free_loop : ℕ → ℕ → Fat16Volume → Bytes → Result ℕ
find_free_loop zero i vol d = halted
find_free_loop (suc rounds) i vol d =
    let rest = find_free_loop rounds (suc i) vol d in
    read_fat vol i d >>= λ entry. if is_free_cluster_num entry then done i else rest

pub find_free_cluster_number : Fat16Volume → Bytes → Result ℕ
find_free_cluster_number vol d = find_free_loop (num_clusters vol - 2) 2 vol d

abbrev pub bytes_per_cluster : Fat16Volume → ℕ
bytes_per_cluster vol = vol.bytes_per_sector * vol.sectors_per_cluster

-- One round of the loops over a chain, in its round `i`: where the part of the cluster starts that
-- is read or written, and how many bytes of it there are.
abbrev pub start_in_cluster : ℕ → ℕ → ℕ → ℕ
start_in_cluster i required_cluster_number required_offset =
    if i == required_cluster_number then required_offset else 0

-- The address for a valid cluster. With another one, the round ends in `read_fat`, which halts.
abbrev pub src_addr : Fat16Volume → ℕ → ℕ → ℕ
src_addr vol cluster_number start =
    calculate_data_section_start vol + bytes_per_cluster vol * (cluster_number - 2) + start

-- The loop of `read_from_cluster_chain`, with `bytes` read so far and `num_bytes` to read.
abbrev pub read_chain : ℕ → Fat16Volume → Bytes → ℕ → ℕ → ℕ → ℕ → ℕ → ℕ → Bytes → Result Bytes
read_chain zero vol d required required_offset i cluster_number bytes num_bytes out =
    if num_bytes == 0 then done out else out_of_fuel
read_chain (suc fuel) vol d required required_offset i cluster_number bytes num_bytes out =
    let start = start_in_cluster i required required_offset in
    let n = (if leb required i then min num_bytes (bytes_per_cluster vol - start) else 0) in
    let out' = copy_bytes d (src_addr vol cluster_number start) n out bytes in
    if num_bytes == 0
    then done out
    else read_fat vol cluster_number d >>= λ next.
        read_chain fuel vol d required required_offset (suc i) next (bytes + n) (num_bytes - n) out'

pub read_from_cluster_chain : Fat16Volume → ℕ → ℕ → Bytes → ℕ → Bytes → Result Bytes
read_from_cluster_chain vol cluster_number requested_offset out num_bytes d =
    let required = requested_offset / bytes_per_cluster vol in
    if num_bytes == 0
    then done out
    else if is_invalid_cluster_num cluster_number
    then halted
    else read_chain (required + num_bytes) vol d required (requested_offset % bytes_per_cluster vol)
        0 cluster_number 0 num_bytes out

-- The block under "allocate item" of `write_to_cluster_chain`.
pub allocate_next : Fat16Volume → ℕ → Bytes → Result (ℕ × Bytes)
allocate_next vol cluster_number d = find_free_cluster_number vol d >>= λ new.
    write_fat vol new 0xFFF8 d >>= λ d'.
    write_fat vol cluster_number new d' >>= λ d''. done (new, d'')

-- "skip to the next entry" of `write_to_cluster_chain`, which allocates one at the end.
pub next_or_new : Fat16Volume → ℕ → Bytes → Result (ℕ × Bytes)
next_or_new vol cluster_number d = read_fat vol cluster_number d >>= λ next.
    if is_end_of_ll_num next then allocate_next vol cluster_number d else done (next, d)

abbrev pub write_chain : ℕ → Fat16Volume → Bytes → ℕ → ℕ → ℕ → ℕ → ℕ → ℕ → Bytes → Result Bytes
write_chain zero vol input required required_offset i cluster_number bytes num_bytes d =
    if num_bytes == 0 then done d else out_of_fuel
write_chain (suc fuel) vol input required required_offset i cluster_number bytes num_bytes d =
    let start = start_in_cluster i required required_offset in
    let n = (if leb required i then min num_bytes (bytes_per_cluster vol - start) else 0) in
    let d' = copy_bytes input bytes n d (src_addr vol cluster_number start) in
    if num_bytes == 0
    then done d
    else next_or_new vol cluster_number d' >>= λ (next, d'').
        write_chain fuel vol input required required_offset (suc i) next (bytes + n) (num_bytes - n)
          d''

pub write_to_cluster_chain : Fat16Volume → ℕ → ℕ → Bytes → ℕ → Bytes → Result Bytes
write_to_cluster_chain vol cluster_number requested_offset input num_bytes d =
    let required = requested_offset / bytes_per_cluster vol in
    if is_invalid_cluster_num cluster_number
    then halted
    else write_chain (required + num_bytes) vol input required
        (requested_offset % bytes_per_cluster vol) 0 cluster_number 0 num_bytes d
