-- ===== src/Kernel/BlockDevice/Read.antt =====
-- Reading a block device through the cache: `blockdev_read_file` of stuos/src/fs_dev.c against
-- the disk as a row of bytes.
use stuos.Prelude.{
  ℕ, zero, suc, ◌+◌, ◌-◌, ◌*◌, ◌/◌, ◌%◌, ◌^◌, ◌≤◌, ◌<◌, ◌≡◌, refl, ap, ◌∙◌, ◌⊎◌, true, false, ◌==◌,
  ◌!=◌, ltb, ◌||◌, if◌then◌else◌, arith, Bool-cases, inl, inr, List, set,
}
use stuos.Kernel.Outcome.{done}
use stuos.Kernel.BlockDevice.{
  Buffer, Driver, BlockDevice, BlockDevicePartition, copy_out, fill_cache, read_sectors,
  sector_rounds, last_sector_number, VNodeData, get_block_device, blockdev_read_file,
}
use stuos.Kernel.BlockDevice.Copy.{copy_out-count, copy_out-other, copy_out-copied}

-- The sectors from `first_sector_number` to `last_sector_number` hold all the bytes.
pub sector_rounds-enough :
    (start num : ℕ)
    → 0 < num
    → start + num ≤ 2 ^ 64
    → start + num ≤ 512 * (start / 512 + sector_rounds start num)
sector_rounds-enough start num some_bytes fits = elim (Bool-cases (start + num == 2 ^ 64)) [
  | inl full ↦
      let e : start + num ≡ 2 ^ 64 = ground arith in
      let last : last_sector_number start num ≡ 2 ^ 55 - 1 = rw e refl in omega (arith, e, last)
  | inr part ↦
      let less : start + num < 2 ^ 64 = ground arith in
      let last : last_sector_number start num ≡ (start + num - 1) / 512 =
        ap (λ n. n / 512) (omega (arith, less, some_bytes)) in
      omega (arith, last)
]

module _ {D : Type 0} ⦃driver : Driver D⦄ where
  -- The disk as one row of bytes.
  abbrev pub disk_byte : BlockDevice D → ℕ → ℕ
  disk_byte dev a = driver.block_read dev.driver_private (a / 512) (a % 512)

  -- A valid cache holds the sector that it names.
  abbrev pub IsCached : BlockDevice D → Type 0
  IsCached dev =
      dev.cache.is_valid ≡ true
      → (i : ℕ) → i < 512
      → dev.cache.contents i ≡ driver.block_read dev.driver_private dev.cache.sector_number i

  -- What a read leaves of a device: all but its cache, and that in order.
  pub record SameDisk (dev : BlockDevice D) (dev' : BlockDevice D) : Type 0 where
    pub same_driver : dev'.driver_private ≡ dev.driver_private
    pub same_partitions : dev'.partitions ≡ dev.partitions
    pub cached : IsCached dev'

  fill_cache-SameDisk :
      (s : ℕ) (dev : BlockDevice D)
      → IsCached dev
      → SameDisk dev (fill_cache s dev)
        × ((i : ℕ)
            → i < 512
            → (fill_cache s dev).cache.contents i ≡ driver.block_read dev.driver_private s i)
  fill_cache-SameDisk s dev ok =
      elim (Bool-cases
        ((dev.cache.sector_number != s) || (if dev.cache.is_valid then false else true))) [
          | inl miss ↦ rw miss (
            record { same_driver = refl; same_partitions = refl; cached = λ _ i lt. refl },
            λ i lt. refl,
          )
          | inr hit ↦
              let here : dev.cache.sector_number ≡ s = ground arith in
              let valid : dev.cache.is_valid ≡ true = ground arith in
              rw hit (
                record { same_driver = refl; same_partitions = refl; cached = ok },
                λ i lt. ok valid i lt ∙ ap (λ n. driver.block_read dev.driver_private n i) here,
              )
        ]

  pub read_sectors-SameDisk :
      (rounds s o b num : ℕ) (dev : BlockDevice D) (out : Buffer)
      → IsCached dev
      → SameDisk dev (read_sectors rounds s o b num dev out).1
  read_sectors-SameDisk zero s o b num dev out ok = record {
    same_driver = refl;
    same_partitions = refl;
    cached = ok;
  }
  read_sectors-SameDisk (suc rounds) s o b num dev out ok =
      let dev' = fill_cache s dev in
      let filled = (fill_cache-SameDisk s dev ok).0 in
      let copied = copy_out (512 - o) dev'.cache.contents o b num out in
      let rest = read_sectors-SameDisk rounds (suc s) 0 copied.1 num dev' copied.0 filled.cached in
      record {
        same_driver = rest.same_driver ∙ filled.same_driver;
        same_partitions = rest.same_partitions ∙ filled.same_partitions;
        cached = rest.cached;
      }

  -- The loop over the sectors, from byte `o` of sector `s`, which is byte `base + b` of the disk.
  -- A byte below `b` or from `num` on is not written, and the others come from the disk.
  pub read_sectors-other :
      (rounds s o b num : ℕ) (dev : BlockDevice D) (out : Buffer) (i : ℕ)
      → b ≤ num
      → (i < b) ⊎ (num ≤ i)
      → (read_sectors rounds s o b num dev out).0 i ≡ out i
  read_sectors-other zero s o b num dev out i le other = refl
  read_sectors-other (suc rounds) s o b num dev out i le other =
      let dev' = fill_cache s dev in
      let copied = copy_out (512 - o) dev'.cache.contents o b num out in
      let count = copy_out-count (512 - o) dev'.cache.contents o b num out le in
      read_sectors-other rounds (suc s) 0 copied.1 num dev' copied.0 i (omega arith) (omega arith)
      ∙ copy_out-other (512 - o) dev'.cache.contents o b num out i (omega arith)

  pub read_sectors-copied :
      (rounds s o b num base : ℕ) (dev : BlockDevice D) (out : Buffer) (i : ℕ)
      → IsCached dev
      → o < 512
      → b ≤ num
      → 512 * s + o ≡ base + b
      → base + num ≤ 512 * (s + rounds)
      → b ≤ i
      → i < num
      → (read_sectors rounds s o b num dev out).0 i ≡ disk_byte dev (base + i)
  read_sectors-copied zero s o b num base dev out i ok small le at enough ge lt =
      absurd (omega (arith, ge, lt, at, enough))
  read_sectors-copied (suc rounds) s o b num base dev out i ok small le at enough ge lt =
      let dev' = fill_cache s dev in
      let filled = fill_cache-SameDisk s dev ok in
      let room = 512 - o in
      let copied = copy_out room dev'.cache.contents o b num out in
      let count = copy_out-count room dev'.cache.contents o b num out le in
      elim (Bool-cases (ltb i (b + room))) [
        | inl here ↦
            let less : i < b + room = ground arith in
            let sector : (base + i) / 512 ≡ s = omega (arith, less, at, small, ge) in
            let index : (base + i) % 512 ≡ o + i - b = omega (arith, less, at, small, ge) in
            read_sectors-other rounds (suc s) 0 copied.1 num dev' copied.0 i (omega arith)
              (ground arith)
            ∙ copy_out-copied room dev'.cache.contents o b num out i ge (ground arith)
            ∙ filled.1 (o + i - b) (ground arith)
            ∙ rw (disk_byte, sector, index) refl
        | inr later ↦
            read_sectors-copied rounds (suc s) 0 copied.1 num base dev' copied.0 i filled.0.cached
              (omega arith) (omega arith) (ground arith) (omega arith) (ground arith) lt
            ∙ ap (λ d. driver.block_read d ((base + i) / 512) ((base + i) % 512))
                filled.0.same_driver
      ]

  -- `blockdev_read_file` of some bytes of a partition, from a device whose cache is in order and
  -- without a wrap of the address: it fills the buffer with the bytes of the disk, reads no other
  -- byte and writes nothing behind them. The disk is not touched and the cache is in order again.
  pub blockdev_read_file-bytes :
      (inode_num : VNodeData) (offset : ℕ) (out : Buffer) (num_bytes : ℕ)
      (devices : List (BlockDevice D)) (n : ℕ) (dev : BlockDevice D) (part : BlockDevicePartition)
      → get_block_device inode_num devices ≡ done (n, dev, part)
      → IsCached dev
      → 0 < num_bytes
      → offset + part.byte_offset + num_bytes ≤ 2 ^ 64
      → (out' : Buffer) × (dev' : BlockDevice D) × (blockdev_read_file inode_num offset out
            num_bytes devices
          ≡ done (num_bytes, out', set devices n dev'))
        × SameDisk dev dev'
        × ((i : ℕ) → i < num_bytes → out' i ≡ disk_byte dev (offset + part.byte_offset + i))
        × ((i : ℕ) → num_bytes ≤ i → out' i ≡ out i)
  unfolding blockdev_read_file
  blockdev_read_file-bytes inode_num offset out num_bytes devices n dev part found ok some_bytes
        fits =
      let start = offset + part.byte_offset in
      let rounds = sector_rounds start num_bytes in
      let within : (offset + part.byte_offset) % 2 ^ 64 ≡ start = omega arith in
      let read = read_sectors rounds (start / 512) (start % 512) 0 num_bytes dev out in
      (
        read.0,
        read.1,
        rw (found, within) refl,
        read_sectors-SameDisk rounds (start / 512) (start % 512) 0 num_bytes dev out ok,
        λ i lt.
            read_sectors-copied rounds (start / 512) (start % 512) 0 num_bytes start dev out i ok
              (omega arith) (omega arith) (omega arith)
              (sector_rounds-enough start num_bytes some_bytes fits) (omega arith) lt,
        λ i ge.
            read_sectors-other rounds (start / 512) (start % 512) 0 num_bytes dev out i
              (omega arith) (inr ge),
      )
