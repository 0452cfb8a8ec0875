-- ===== src/Kernel/BlockDevice/Write.antt =====
-- Writing a block device: `blockdev_write_file` of stuos/src/fs_dev.c against the disk as a row
-- of bytes, and with `blockdev_read_file` behind it.
use stuos.Prelude.{
  ℕ, zero, suc, ◌+◌, ◌-◌, ◌*◌, ◌/◌, ◌%◌, ◌^◌, ◌≤◌, ◌<◌, ◌≡◌, refl, ap, ◌∙◌, ◌⊎◌, false, ◌==◌, ◌!=◌,
  if◌then◌else◌, arith, Bool-cases, inl, inr, some, List, [], ◌∷◌, set, length, get_elem?,
  get_elem?-set_self,
}
use stuos.Kernel.Outcome.{done}
use stuos.Kernel.BlockDevice.{
  Buffer, Driver, BlockDevice, dev_root_dir_inode_num, BlockDevicePartition, VNodeData, copy_in,
  write_back, write_sectors, sector_rounds, get_block_device, blockdev_read_file,
  blockdev_write_file,
}
use stuos.Kernel.BlockDevice.Copy.{copy_in-count, copy_in-other, copy_in-copied}
use stuos.Kernel.BlockDevice.Read.{
  disk_byte, IsCached, sector_rounds-enough, blockdev_read_file-bytes,
}

get_elem?-lt {ℓ} :
    {A : Type ℓ} (xs : List A) (i : ℕ) (v : A) → get_elem? xs i ≡ some v → i < length xs
get_elem?-lt [] i v e = absurd (ground arith)
get_elem?-lt (x ∷ xs) zero v e = omega arith
get_elem?-lt (x ∷ xs) (suc i) v e = omega (arith, get_elem?-lt xs i v e)

module _ {D : Type 0} ⦃driver : Driver D⦄ where
  abbrev IsFound :
      VNodeData → List (BlockDevice D) → ℕ → BlockDevice D → BlockDevicePartition → Type 0
  IsFound inode_num devices n dev part =
      (inode_num.mount_id != 0 ≡ false)
      × (inode_num.inode == dev_root_dir_inode_num ≡ false)
      × (inode_num.inode / 2 ^ 16 % 2 ^ 16 ≡ n)
      × (get_elem? devices n ≡ some dev)
      × (get_elem? dev.partitions (inode_num.inode % 2 ^ 16) ≡ some part)

  get_block_device-IsFound :
      (inode_num : VNodeData) (devices : List (BlockDevice D)) (n : ℕ) (dev : BlockDevice D)
      (part : BlockDevicePartition)
      → get_block_device inode_num devices ≡ done (n, dev, part)
      → IsFound inode_num devices n dev part
  unfolding get_block_device
  get_block_device-IsFound inode_num devices n dev part found = ground arith

  -- A device that is replaced by one with the same partitions is found in its place.
  get_block_device-set :
      (inode_num : VNodeData) (devices : List (BlockDevice D)) (n : ℕ) (dev dev' : BlockDevice D)
      (part : BlockDevicePartition)
      → get_block_device inode_num devices ≡ done (n, dev, part)
      → dev'.partitions ≡ dev.partitions
      → get_block_device inode_num (set devices n dev') ≡ done (n, dev', part)
  unfolding get_block_device
  get_block_device-set inode_num devices n dev dev' part found same =
      let (local, other, number, here, there) =
        get_block_device-IsFound inode_num devices n dev part found in
      let size : n < length devices = get_elem?-lt devices n dev here in
      rw (local, other, number, get_elem?-set_self devices n dev' size, same, there) refl

module _ {D : Type 0} ⦃driver : Driver D⦄ where
  write_back-byte :
      (s : ℕ) (contents : Buffer) (dev : BlockDevice D) (a : ℕ)
      → disk_byte (write_back s contents dev) a
        ≡ (if a / 512 == s then contents (a % 512) else disk_byte dev a)
  write_back-byte s contents dev a =
      driver.block_read-block_write dev.driver_private s contents (a / 512) (a % 512) (omega arith)

  write_sectors-IsCached :
      (rounds s o b num : ℕ) (input : Buffer) (dev : BlockDevice D)
      → IsCached dev
      → IsCached (write_sectors rounds s o b num input dev)
        × ((write_sectors rounds s o b num input dev).partitions ≡ dev.partitions)
  write_sectors-IsCached zero s o b num input dev ok = (ok, refl)
  write_sectors-IsCached (suc rounds) s o b num input dev ok =
      let copied = copy_in (512 - o) input o b num (driver.block_read dev.driver_private s) in
      write_sectors-IsCached rounds (suc s) 0 copied.1 num input (write_back s copied.0 dev)
        (λ valid. absurd (ground arith))

  -- Byte `o` of sector `s` is byte `base + b` of the disk, or there is nothing left to write.
  write_sectors-other :
      (rounds s o b num base : ℕ) (input : Buffer) (dev : BlockDevice D) (a : ℕ)
      → o < 512
      → b ≤ num
      → (b ≡ num) ⊎ (512 * s + o ≡ base + b)
      → (a < base + b) ⊎ (base + num ≤ a)
      → disk_byte (write_sectors rounds s o b num input dev) a ≡ disk_byte dev a
  write_sectors-other zero s o b num base input dev a small le at other = refl
  write_sectors-other (suc rounds) s o b num base input dev a small le at other =
      let sector = driver.block_read dev.driver_private s in
      let copied = copy_in (512 - o) input o b num sector in
      let count = copy_in-count (512 - o) input o b num sector le in
      let rest =
        write_sectors-other rounds (suc s) 0 copied.1 num base input (write_back s copied.0 dev) a
          (omega arith) (omega arith) (ground arith) (ground arith) in
      rest ∙ write_back-byte s copied.0 dev a ∙ elim (Bool-cases (a / 512 == s)) [
        | inl here ↦
            let same : a / 512 ≡ s = ground arith in
            rw here (
              copy_in-other (512 - o) input o b num sector (a % 512) (ground arith)
              ∙ rw (disk_byte, same) refl)
        | inr there ↦ rw there refl
      ]

  write_sectors-copied :
      (rounds s o b num base : ℕ) (input : Buffer) (dev : BlockDevice D) (a : ℕ)
      → o < 512
      → b ≤ num
      → 512 * s + o ≡ base + b
      → base + num ≤ 512 * (s + rounds)
      → base + b ≤ a
      → a < base + num
      → disk_byte (write_sectors rounds s o b num input dev) a ≡ input (a - base)
  write_sectors-copied zero s o b num base input dev a small le at enough ge lt =
      absurd (omega (arith, ge, lt, at, enough))
  write_sectors-copied (suc rounds) s o b num base input dev a small le at enough ge lt =
      let sector = driver.block_read dev.driver_private s in
      let copied = copy_in (512 - o) input o b num sector in
      let count = copy_in-count (512 - o) input o b num sector le in
      elim (Bool-cases (a / 512 == s)) [
        | inl here ↦
            let same : a / 512 ≡ s = ground arith in
            let index : b + a % 512 - o ≡ a - base = omega (arith, at, same, ge) in
            write_sectors-other rounds (suc s) 0 copied.1 num base input (write_back s copied.0 dev)
              a (omega arith) (omega arith) (ground arith) (ground arith)
            ∙ write_back-byte s copied.0 dev a
            ∙ rw here (
                copy_in-copied (512 - o) input o b num sector (a % 512) (omega arith) (omega arith)
                  (omega arith)
                ∙ ap input index)
        | inr there ↦
            let past : suc s ≤ a / 512 = ground arith in
            write_sectors-copied rounds (suc s) 0 copied.1 num base input
              (write_back s copied.0 dev) a (omega arith) (omega arith) (ground arith) (omega arith)
              (ground arith) lt
      ]

  -- `blockdev_write_file` of some bytes of a partition, without a wrap of the address: those bytes
  -- of the disk become the bytes of the buffer, every other byte of the disk is kept, and the
  -- cache is in order again.
  pub blockdev_write_file-bytes :
      (inode_num : VNodeData) (offset : ℕ) (input : Buffer) (num_bytes : ℕ)
      (devices : List (BlockDevice D)) (n : ℕ) (dev : BlockDevice D) (part : BlockDevicePartition)
      → get_block_device inode_num devices ≡ done (n, dev, part)
      → IsCached dev
      → 0 < num_bytes
      → offset + part.byte_offset + num_bytes ≤ 2 ^ 64
      → (dev' : BlockDevice D) × (blockdev_write_file inode_num offset input num_bytes devices
          ≡ done (num_bytes, set devices n dev'))
        × IsCached dev'
        × (dev'.partitions ≡ dev.partitions)
        × ((i : ℕ) → i < num_bytes → disk_byte dev' (offset + part.byte_offset + i) ≡ input i)
        × ((a : ℕ)
            → (a < offset + part.byte_offset) ⊎ (offset + part.byte_offset + num_bytes ≤ a)
            → disk_byte dev' a ≡ disk_byte dev a)
  unfolding blockdev_write_file
  blockdev_write_file-bytes inode_num offset input num_bytes devices n dev part found ok some_bytes
        fits =
      let start = offset + part.byte_offset in
      let rounds = sector_rounds start num_bytes in
      let within : (offset + part.byte_offset) % 2 ^ 64 ≡ start = omega arith in
      let kept =
        write_sectors-IsCached rounds (start / 512) (start % 512) 0 num_bytes input dev ok in
      (
        write_sectors rounds (start / 512) (start % 512) 0 num_bytes input dev,
        rw (found, within) refl,
        kept.0,
        kept.1,
        λ i lt.
            write_sectors-copied rounds (start / 512) (start % 512) 0 num_bytes start input dev
              (start + i) (omega arith) (omega arith) (omega arith)
              (sector_rounds-enough start num_bytes some_bytes fits) (omega arith) (omega arith)
            ∙ ap input (omega arith),
        λ a other.
            write_sectors-other rounds (start / 512) (start % 512) 0 num_bytes start input dev a
              (omega arith) (omega arith) (inr (omega arith)) (omega (arith, other)),
      )

  -- What was written to a partition, the whole of it without a wrap of the address, is read back
  -- from there.
  pub blockdev_read_file-blockdev_write_file :
      (inode_num : VNodeData) (offset : ℕ) (input out : Buffer) (num_bytes : ℕ)
      (devices : List (BlockDevice D)) (n : ℕ) (dev : BlockDevice D) (part : BlockDevicePartition)
      → get_block_device inode_num devices ≡ done (n, dev, part)
      → IsCached dev
      → 0 < num_bytes
      → offset + part.byte_offset + num_bytes ≤ 2 ^ 64
      → (written read : List (BlockDevice D)) × (out' : Buffer) × (blockdev_write_file inode_num
            offset input num_bytes devices
          ≡ done (num_bytes, written))
        × (blockdev_read_file inode_num offset out num_bytes written ≡ done (num_bytes, out', read))
        × ((i : ℕ) → i < num_bytes → out' i ≡ input i)
  blockdev_read_file-blockdev_write_file inode_num offset input out num_bytes devices n dev part
        found ok some_bytes fits =
      let (dev', wrote, ok', same, bytes, _) =
        blockdev_write_file-bytes inode_num offset input num_bytes devices n dev part found ok
          some_bytes fits in
      let (out', dev'', did_read, _, copied, _) =
        blockdev_read_file-bytes inode_num offset out num_bytes (set devices n dev') n dev' part
          (get_block_device-set inode_num devices n dev dev' part found same) ok' some_bytes fits in
      (
        set devices n dev',
        set (set devices n dev') n dev'',
        out',
        wrote,
        did_read,
        λ i lt. copied i lt ∙ bytes i lt,
      )
