-- ===== src/Kernel/BlockDevice.antt =====
-- Block devices and their partitions, stuos/src/fs_dev.c.
-- A driver is the pair of functions that it gives to `fs_dev_add_block_device`. A buffer is the
-- byte at each index; the devices are the entries of `block_devices` that are in use.
pub mod Copy
pub mod Read
pub mod Write
pub mod Partitions
pub mod Entries
pub mod MemoryDisk
mod Tests
use stuos.Prelude.{
  ℕ, zero, suc, ◌+◌, ◌-◌, ◌*◌, ◌/◌, ◌%◌, ◌^◌, ◌<◌, ◌≡◌, Bool, true, false, ◌==◌, ◌!=◌, ltb, leb,
  ◌&&◌, ◌||◌, if◌then◌else◌, List, [], ◌∷◌, ◌++◌, length, get_elem?, set, Option, none, some,
}
use stuos.Kernel.Outcome.{Outcome, done, halted, ◌>>=◌}

abbrev pub Buffer : Type 0
Buffer = ℕ → ℕ

abbrev pub put_byte : ℕ → ℕ → Buffer → Buffer
put_byte i v b j = if j == i then v else b j

-- What the driver promises: a sector that was written is read back, and the others are kept.
pub record Driver (D : Type 0) : Type 0 where
  pub block_read : D → ℕ → Buffer
  pub block_write : D → ℕ → Buffer → D
  pub block_read-block_write :
      (d : D) (n : ℕ) (v : Buffer) (m i : ℕ)
      → i < 512
      → block_read (block_write d n v) m i ≡ (if m == n then v i else block_read d m i)

pub record SectorCache : Type 0 where
  pub contents : Buffer
  pub sector_number : ℕ
  pub is_valid : Bool

pub record BlockDevicePartition : Type 0 where
  pub byte_offset : ℕ
  pub byte_length : ℕ

pub record BlockDevice (D : Type 0) : Type 0 where
  pub driver_private : D
  pub cache : SectorCache
  pub partitions : List BlockDevicePartition

pub record VNodeData : Type 0 where
  pub inode : ℕ
  pub mount_id : ℕ

abbrev pub dev_root_dir_inode_num : ℕ
dev_root_dir_inode_num = 2 ^ 64 - 1

abbrev or_halt {ℓ} : {A : Type ℓ} → Option A → Outcome A
or_halt none = halted
or_halt (some a) = done a

-- The loop `while(offset_in_sector < 512 && bytes < num_bytes)` that fills the caller's buffer
-- `out` from a sector, with `room` bytes of the sector left: the buffer and the bytes copied.
abbrev pub copy_out : ℕ → Buffer → ℕ → ℕ → ℕ → Buffer → Buffer × ℕ
copy_out zero contents offset_in_sector bytes num_bytes out = (out, bytes)
copy_out (suc room) contents offset_in_sector bytes num_bytes out =
    if ltb bytes num_bytes
    then copy_out room contents (suc offset_in_sector) (suc bytes) num_bytes
        (put_byte bytes (contents offset_in_sector) out)
    else (out, bytes)

-- The same loop in the other direction: `input` is written over a sector.
abbrev pub copy_in : ℕ → Buffer → ℕ → ℕ → ℕ → Buffer → Buffer × ℕ
copy_in zero input offset_in_sector bytes num_bytes contents = (contents, bytes)
copy_in (suc room) input offset_in_sector bytes num_bytes contents =
    if ltb bytes num_bytes
    then copy_in room input (suc offset_in_sector) (suc bytes) num_bytes
        (put_byte offset_in_sector (input bytes) contents)
    else (contents, bytes)

-- `last_sector_number`, and how often the loop over the sectors runs.
abbrev pub last_sector_number : ℕ → ℕ → ℕ
last_sector_number offset num_bytes = ((offset + num_bytes) % 2 ^ 64 + 2 ^ 64 - 1) % 2 ^ 64 / 512

abbrev pub sector_rounds : ℕ → ℕ → ℕ
sector_rounds offset num_bytes = suc (last_sector_number offset num_bytes) - offset / 512

-- `size` bytes from index `at`, as the number that they are on this target.
abbrev pub little_endian : Buffer → ℕ → ℕ → ℕ
little_endian b at zero = 0
little_endian b at (suc size) = b at + 256 * little_endian b (suc at) size

-- The products of `fs_dev_add_block_device` are those of a `uint32_t` and an `int`.
abbrev pub table_partition : Buffer → ℕ → BlockDevicePartition
table_partition mbr i = record {
  byte_offset = little_endian mbr (454 + 16 * i) 4 * 512 % 2 ^ 32;
  byte_length = little_endian mbr (458 + 16 * i) 4 * 512 % 2 ^ 32;
}

abbrev pub add_partitions :
    ℕ → ℕ → Buffer → List BlockDevicePartition → Outcome (List BlockDevicePartition)
add_partitions zero i mbr partitions = done partitions
add_partitions (suc rounds) i mbr partitions =
    if leb 9 (length partitions)
    then halted
    else if little_endian mbr (458 + 16 * i) 4 == 0
    then done partitions
    else add_partitions rounds (suc i) mbr (partitions ++ table_partition mbr i ∷ [])

abbrev pub new_device : {D : Type 0} → D → List BlockDevicePartition → BlockDevice D
new_device driver_private partitions = record {
  driver_private = driver_private;
  cache = record { contents = λ _. 0; sector_number = 0; is_valid = false };
  partitions = partitions;
}

-- `get_block_device`: the device's number, the device and the partition.
unfoldable pub get_block_device :
    {D : Type 0}
    → VNodeData
    → List (BlockDevice D)
    → Outcome (ℕ × BlockDevice D × BlockDevicePartition)
get_block_device inode_num devices =
    if inode_num.mount_id != 0
    then halted
    else if inode_num.inode == dev_root_dir_inode_num
    then halted
    else let dev_num = inode_num.inode / 2 ^ 16 % 2 ^ 16 in
      or_halt (get_elem? devices dev_num) >>= λ dev.
      or_halt (get_elem? dev.partitions (inode_num.inode % 2 ^ 16)) >>= λ part.
      done (dev_num, dev, part)

module _ {D : Type 0} ⦃driver : Driver D⦄ where
  -- "read the sector into cache if it is not already there"
  abbrev pub fill_cache : ℕ → BlockDevice D → BlockDevice D
  fill_cache sector dev =
      if (dev.cache.sector_number != sector) || (if dev.cache.is_valid then false else true)
      then record dev {
        cache = record {
          contents = driver.block_read dev.driver_private sector;
          sector_number = sector;
          is_valid = true;
        };
      }
      else dev

  abbrev pub read_sectors : ℕ → ℕ → ℕ → ℕ → ℕ → BlockDevice D → Buffer → Buffer × BlockDevice D
  read_sectors zero sector offset_in_sector bytes_read num_bytes dev out = (out, dev)
  read_sectors (suc rounds) sector offset_in_sector bytes_read num_bytes dev out =
      let dev' = fill_cache sector dev in
      let copied =
        copy_out (512 - offset_in_sector) dev'.cache.contents offset_in_sector bytes_read num_bytes
          out in
      read_sectors rounds (suc sector) 0 copied.1 num_bytes dev' copied.0

  -- One sector is read, written over and written back.
  abbrev pub write_back : ℕ → Buffer → BlockDevice D → BlockDevice D
  write_back sector contents dev = record dev {
    driver_private = driver.block_write dev.driver_private sector contents;
    cache = record dev.cache { is_valid = false };
  }

  abbrev pub write_sectors : ℕ → ℕ → ℕ → ℕ → ℕ → Buffer → BlockDevice D → BlockDevice D
  write_sectors zero sector offset_in_sector bytes_written num_bytes input dev = dev
  write_sectors (suc rounds) sector offset_in_sector bytes_written num_bytes input dev =
      let copied =
        copy_in (512 - offset_in_sector) input offset_in_sector bytes_written num_bytes
          (driver.block_read dev.driver_private sector) in
      write_sectors rounds (suc sector) 0 copied.1 num_bytes input (write_back sector copied.0 dev)

  -- `blockdev_read_file` into `out`: the return value, the buffer and the devices.
  pub blockdev_read_file :
      VNodeData
      → ℕ
      → Buffer
      → ℕ
      → List (BlockDevice D)
      → Outcome (ℕ × Buffer × List (BlockDevice D))
  blockdev_read_file inode_num offset out num_bytes devices =
      get_block_device inode_num devices >>= λ (dev_num, dev, part).
      let start = (offset + part.byte_offset) % 2 ^ 64 in
      let read =
        read_sectors (sector_rounds start num_bytes) (start / 512) (start % 512) 0 num_bytes dev
          out in
      done (num_bytes, read.0, set devices dev_num read.1)

  pub blockdev_write_file :
      VNodeData → ℕ → Buffer → ℕ → List (BlockDevice D) → Outcome (ℕ × List (BlockDevice D))
  blockdev_write_file inode_num offset input num_bytes devices =
      get_block_device inode_num devices >>= λ (dev_num, dev, part).
      let start = (offset + part.byte_offset) % 2 ^ 64 in
      let dev' =
        write_sectors (sector_rounds start num_bytes) (start / 512) (start % 512) 0 num_bytes input
          dev in
      done (num_bytes, set devices dev_num dev')

  -- `fs_dev_add_block_device`.
  -- The structure that is read into: the table from byte 446, 16 bytes an entry, with the start of
  -- a partition in its bytes 8 to 11 and its length in sectors behind that, and the signature.
  pub fs_dev_add_block_device : D → List (BlockDevice D) → Outcome (List (BlockDevice D))
  fs_dev_add_block_device driver_private devices =
      if length devices == 26
      then halted
      else let mbr = driver.block_read driver_private 0 in
        let whole = record { byte_offset = 0; byte_length = 0 } ∷ [] in
        (if little_endian mbr 510 2 == 0xAA55 then add_partitions 4 0 mbr whole else done whole)
        >>= λ partitions. done (devices ++ new_device driver_private partitions ∷ [])

-- `struct stat`, without the fields that are 0.
pub record Stat : Type 0 where
  pub st_ino : ℕ
  pub st_mode : ℕ
  pub st_size : ℕ

pub blockdev_stat : {D : Type 0} → VNodeData → List (BlockDevice D) → Outcome Stat
blockdev_stat inode_num devices = get_block_device inode_num devices >>= λ (_, _, part).
    done (record { st_ino = inode_num.inode; st_mode = 0x6000; st_size = part.byte_length })
