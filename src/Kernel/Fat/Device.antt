-- ===== src/Kernel/Fat/Device.antt =====
-- A partition of stuos/src/fs_dev.c as the block device of stuos/src/fs_fat.c: `copy_bytes`, by
-- which the file system reads and writes, is what the partition's two operations do.
mod Tests
use stuos.Prelude.{
  ℕ, ◌+◌, ◌-◌, ◌^◌, ◌≤◌, ◌<◌, ◌≡◌, refl, ap, ◌∙◌, sym, ◌⊎◌, inl, inr, true, false, ltb, leb, ◌&&◌,
  arith, Bool-cases, List, set,
}
use stuos.Kernel.Outcome.{done}
use stuos.Kernel.BlockDevice.{
  Buffer, Driver, BlockDevice, BlockDevicePartition, VNodeData, get_block_device,
  blockdev_read_file, blockdev_write_file,
}
use stuos.Kernel.BlockDevice.Read.{disk_byte, IsCached, SameDisk, blockdev_read_file-bytes}
use stuos.Kernel.BlockDevice.Write.{blockdev_write_file-bytes}
use stuos.Kernel.Fat.{Bytes, copy_bytes}
use stuos.Kernel.Fat.Copy.{copy_bytes-inside, copy_bytes-outside}

module _ {D : Type 0} ⦃driver : Driver D⦄ where
  -- The bytes of a partition.
  abbrev pub partition_bytes : BlockDevice D → BlockDevicePartition → Bytes
  partition_bytes dev part a = disk_byte dev (part.byte_offset + a)

  -- `blockdev_read_file` of some bytes of a partition, from a device whose cache is in order and
  -- without a wrap of the address, is the file system's read of the partition's bytes: they are
  -- copied to the start of the buffer, and the rest of it is as before. The disk is not touched
  -- and the cache is in order again.
  pub blockdev_read_file-copy_bytes :
      (inode_num : VNodeData) (offset : ℕ) (out : Buffer) (num_bytes : ℕ)
      (devices : List (BlockDevice D)) (n : ℕ) (dev : BlockDevice D) (part : BlockDevicePartition)
      → get_block_device inode_num devices ≡ done (n, dev, part)
      → IsCached dev
      → 0 < num_bytes
      → offset + part.byte_offset + num_bytes ≤ 2 ^ 64
      → (out' : Buffer) × (dev' : BlockDevice D) × (blockdev_read_file inode_num offset out
            num_bytes devices
          ≡ done (num_bytes, out', set devices n dev'))
        × SameDisk dev dev'
        × ((i : ℕ) → out' i ≡ copy_bytes (partition_bytes dev part) offset num_bytes out 0 i)
  blockdev_read_file-copy_bytes inode_num offset out num_bytes devices n dev part found ok
        some_bytes fits =
      let (out', dev', eq, same, copied, rest) =
        blockdev_read_file-bytes inode_num offset out num_bytes devices n dev part found ok
          some_bytes fits in
      (
        out',
        dev',
        eq,
        same,
        λ i. elim (Bool-cases (ltb i num_bytes)) [
          | inl inside ↦
              let less : i < num_bytes = ground arith in
              copied i less
              ∙ ap (disk_byte dev) (omega arith)
              ∙ sym (
                  copy_bytes-inside (partition_bytes dev part) offset num_bytes out 0 i
                    (omega arith) (omega arith))
          | inr outside ↦
              let more : num_bytes ≤ i = ground arith in
              rest i more
              ∙ sym (
                  copy_bytes-outside (partition_bytes dev part) offset num_bytes out 0 i
                    (inr (omega arith)))
        ],
      )

  -- `blockdev_write_file` of some bytes of a partition, without a wrap of the address, is the file
  -- system's write: the buffer's bytes are copied over those of the partition from the offset on.
  -- No byte in front of the partition changes, and the cache is in order again.
  pub blockdev_write_file-copy_bytes :
      (inode_num : VNodeData) (offset : ℕ) (input : Buffer) (num_bytes : ℕ)
      (devices : List (BlockDevice D)) (n : ℕ) (dev : BlockDevice D) (part : BlockDevicePartition)
      → get_block_device inode_num devices ≡ done (n, dev, part)
      → IsCached dev
      → 0 < num_bytes
      → offset + part.byte_offset + num_bytes ≤ 2 ^ 64
      → (dev' : BlockDevice D) × (blockdev_write_file inode_num offset input num_bytes devices
          ≡ done (num_bytes, set devices n dev'))
        × IsCached dev'
        × (dev'.partitions ≡ dev.partitions)
        × ((a : ℕ)
            → partition_bytes dev' part a
              ≡ copy_bytes input 0 num_bytes (partition_bytes dev part) offset a)
        × ((a : ℕ) → a < part.byte_offset → disk_byte dev' a ≡ disk_byte dev a)
  blockdev_write_file-copy_bytes inode_num offset input num_bytes devices n dev part found ok
        some_bytes fits =
      let (dev', eq, ok', same, copied, rest) =
        blockdev_write_file-bytes inode_num offset input num_bytes devices n dev part found ok
          some_bytes fits in
      (
        dev',
        eq,
        ok',
        same,
        λ a. elim (Bool-cases (leb offset a && ltb a (offset + num_bytes))) [
          | inl inside ↦
              let from : offset ≤ a = ground arith in
              let to : a < offset + num_bytes = ground arith in
              ap (disk_byte dev') (omega arith)
              ∙ copied (a - offset) (omega arith)
              ∙ ap input (omega arith)
              ∙ sym
                  (copy_bytes-inside input 0 num_bytes (partition_bytes dev part) offset a from to)
          | inr outside ↦
              let other : (a < offset) ⊎ (offset + num_bytes ≤ a) = ground arith in
              rest (part.byte_offset + a) (omega (arith, other))
              ∙ sym (copy_bytes-outside input 0 num_bytes (partition_bytes dev part) offset a other)
        ],
        λ a before. rest a (inl (omega (arith, before))),
      )
