-- ===== src/Kernel/Fat/Mounts.antt =====
-- `mount_fat16` of stuos/src/fs_fat.c: the tests on the header and the entry of `all_fat_mounts`.
-- The header is read by the offsets of `struct Fat16Header`.
pub mod Slots
use stuos.Prelude.{
  ℕ, zero, suc, ◌+◌, ◌-◌, ◌*◌, ◌/◌, ◌%◌, ◌^◌, Bool, true, false, ◌==◌, ◌!=◌, ltb, ◌&&◌, ◌||◌,
  if◌then◌else◌,
}
use stuos.Kernel.Fat.{Result, done, halted, ◌>>=◌, Bytes, copy_bytes, from_bytes, Fat16Volume}
use stuos.Kernel.Fat.Entries.{make_inode, i_am_root_dir}

abbrev pub Mounts : Type 0
Mounts = ℕ → Fat16Volume

abbrev pub max_fat_mounts : ℕ
max_fat_mounts = 10

-- Whether the tests at the start let the header pass.
abbrev pub is_fat16_header : Bytes → Bool
is_fat16_header hdr =
    (from_bytes 2 hdr 14 != 0)
    && (from_bytes 2 hdr 17 != 0)
    && ((from_bytes 2 hdr 19 != 0) || (from_bytes 4 hdr 32 != 0))
    && (from_bytes 2 hdr 22 != 0)
    && ((hdr 38 == 0x28) || (hdr 38 == 0x29))
    && (from_bytes 2 hdr 510 == 0xAA55)

-- The loop for a mount that is not in use, with `rounds` entries left from `mount_id` on.
abbrev pub find_mount : ℕ → ℕ → Mounts → Result ℕ
find_mount zero mount_id mounts = halted
find_mount (suc rounds) mount_id mounts =
    if (mounts mount_id).number_of_fats == 0
    then done mount_id
    else find_mount rounds (suc mount_id) mounts

-- `new_vol`; the division is one by the bytes of a sector, which are not tested to be more than 0.
abbrev pub volume_of_header : Bytes → Fat16Volume
volume_of_header hdr = record {
  fats_start_sector = from_bytes 2 hdr 14;
  number_of_fats = hdr 16;
  number_of_sectors_per_fat = from_bytes 2 hdr 22;
  bytes_per_sector = from_bytes 2 hdr 11;
  sectors_per_cluster = hdr 13;
  number_of_sectors_root_directory =
      (from_bytes 2 hdr 17 * 32 + from_bytes 2 hdr 11 - 1) / from_bytes 2 hdr 11 % 2 ^ 16;
}

abbrev pub put_mount : ℕ → Fat16Volume → Mounts → Mounts
put_mount i vol mounts j = if j == i then vol else mounts j

-- What `mount_fat16` hands to `vfs_add_mount`, and the mounts behind it.
pub record Mounted : Type 0 where
  pub mount_id : ℕ
  pub inode : ℕ
  pub mounts : Mounts

abbrev pub mount_volume : Fat16Volume → Mounts → Result Mounted
mount_volume new_vol mounts = find_mount max_fat_mounts 0 mounts >>= λ mount_id.
    make_inode i_am_root_dir 0 >>= λ inode.
    done (record { mount_id = mount_id; inode = inode; mounts = put_mount mount_id new_vol mounts })

pub mount_fat16 : Bytes → Mounts → Result Mounted
mount_fat16 block_device mounts =
    let hdr = copy_bytes block_device 0 512 (λ _. 0) 0 in
    if is_fat16_header hdr then mount_volume (volume_of_header hdr) mounts else halted
