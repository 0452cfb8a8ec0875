-- ===== src/Kernel/BlockDevice/Tests.antt =====
-- The block devices on concrete input.
use stuos.Prelude.{◌+◌, ◌*◌, ◌≡◌, refl, false, ◌==◌, if◌then◌else◌, arith, [], ◌∷◌}
use stuos.Kernel.Outcome.{done}
use stuos.Kernel.BlockDevice.{BlockDevice, fs_dev_add_block_device, new_device, table_partition}
use stuos.Kernel.BlockDevice.Partitions.{listed, table, fs_dev_add_block_device-partitions}
use stuos.Kernel.BlockDevice.MemoryDisk.{Disk, memory_disk}

-- A disk with the signature and one partition, from sector 2^23 on, of three sectors.
abbrev with_table : Disk
with_table sector i =
    if i == 510
    then 0x55
    else if i == 511
    then 0xAA
    else if i == 456
    then 0x80
    else if i == 458
    then 3
    else 0

fs_dev_add_block_device-partitions_example :
    (dev : BlockDevice Disk) × (fs_dev_add_block_device with_table (new_device with_table [] ∷ [])
      ≡ done (new_device with_table [] ∷ dev ∷ []))
    × (dev.driver_private ≡ with_table)
    × (dev.cache.is_valid ≡ false)
    × (dev.partitions
        ≡ record { byte_offset = 0; byte_length = 0 }
          ∷ (if with_table 0 510 + 256 * with_table 0 511 == 0x55 + 256 * 0xAA
              then listed (with_table 0) table
              else []))
fs_dev_add_block_device-partitions_example =
    fs_dev_add_block_device-partitions with_table (new_device with_table [] ∷ []) (omega arith)

-- Its partition starts at byte 0.
starts_at_0 : (table_partition (with_table 0) 0).byte_offset ≡ 0
starts_at_0 = refl
