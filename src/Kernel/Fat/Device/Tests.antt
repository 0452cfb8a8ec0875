-- ===== src/Kernel/Fat/Device/Tests.antt =====
-- A partition as the block device of the file system, on concrete input.
use stuos.Prelude.{ℕ, ◌+◌, ◌<◌, ◌≡◌, refl, arith, [], ◌∷◌, set}
use stuos.Kernel.Outcome.{done}
use stuos.Kernel.BlockDevice.{
  Buffer, BlockDevice, BlockDevicePartition, VNodeData, get_block_device, new_device,
  blockdev_read_file, blockdev_write_file,
}
use stuos.Kernel.BlockDevice.MemoryDisk.{Disk, memory_disk}
use stuos.Kernel.BlockDevice.Read.{disk_byte, IsCached, SameDisk}
use stuos.Kernel.Fat.{copy_bytes}
use stuos.Kernel.Fat.Device.{
  partition_bytes, blockdev_read_file-copy_bytes, blockdev_write_file-copy_bytes,
}

-- Every byte is the number of its sector.
abbrev numbered : Disk
numbered sector i = sector

abbrev device : BlockDevice Disk
device = new_device numbered (
    record { byte_offset = 0; byte_length = 0 }
    ∷ record { byte_offset = 1000; byte_length = 0 }
    ∷ [])

abbrev file : VNodeData
file = record { inode = 1; mount_id = 0 }

abbrev blank : Buffer
blank i = 0

abbrev second : BlockDevicePartition
second = record { byte_offset = 1000; byte_length = 0 }

abbrev letters : Buffer
letters i = 97 + i

blockdev_read_file-copy_bytes_example :
    (out' : Buffer) × (dev' : BlockDevice Disk) × (blockdev_read_file file 20 blank 10 (device ∷ [])
      ≡ done (10, out', set (device ∷ []) 0 dev'))
    × SameDisk device dev'
    × ((i : ℕ) → out' i ≡ copy_bytes (partition_bytes device second) 20 10 blank 0 i)
unfolding get_block_device
blockdev_read_file-copy_bytes_example =
    blockdev_read_file-copy_bytes file 20 blank 10 (device ∷ []) 0 device second refl
      (λ valid i small. refl) (omega arith) (omega arith)

blockdev_write_file-copy_bytes_example :
    (dev' : BlockDevice Disk) × (blockdev_write_file file 20 letters 10 (device ∷ [])
      ≡ done (10, set (device ∷ []) 0 dev'))
    × IsCached dev'
    × (dev'.partitions ≡ device.partitions)
    × ((a : ℕ)
        → partition_bytes dev' second a
          ≡ copy_bytes letters 0 10 (partition_bytes device second) 20 a)
    × ((a : ℕ) → a < 1000 → disk_byte dev' a ≡ disk_byte device a)
unfolding get_block_device
blockdev_write_file-copy_bytes_example =
    blockdev_write_file-copy_bytes file 20 letters 10 (device ∷ []) 0 device second refl
      (λ valid i small. refl) (omega arith) (omega arith)
