-- ===== src/Kernel/Fat/Listing/Tests.antt =====
-- Listing a concrete root directory.
use stuos.Prelude.{◌≡◌, refl, ◌==◌, if◌then◌else◌, [], ◌∷◌, arith}
use stuos.Kernel.Fat.{done, out_of_fuel, Bytes, copy_bytes, Fat16Volume}
use stuos.Kernel.Fat.Entries.{read_from_root_dir, make_inode}
use stuos.Kernel.Fat.Listing.{list_loop, read_dirents}
use stuos.Kernel.Fat.Listing.Endless.{list_loop-endless}

-- A root directory of 128 bytes from byte 64 on.
abbrev volume : Fat16Volume
volume = record {
  fats_start_sector = 1;
  number_of_fats = 1;
  number_of_sectors_per_fat = 1;
  bytes_per_sector = 32;
  sectors_per_cluster = 1;
  number_of_sectors_root_directory = 4;
}

-- The entry "A", then the end.
abbrev one_file : Bytes
one_file a = if a == 64 then 65 else if a == 65 then 32 else if a == 72 then 32 else 0

listed : read_dirents 3 volume 1 0 10 one_file ≡ done (1, record { inode = 0; name = 97 ∷ [] } ∷ [])
unfolding read_dirents list_loop read_from_root_dir make_inode
listed = refl

-- The entry was emptied.
abbrev emptied : Bytes
emptied a = if a == 64 then 0xE5 else 0

list_loop-endless_example :
    list_loop 1000 volume 0 0 10 emptied
      (record { directory_i = 0; file_name = []; entries_read = 0; entries = [] })
    ≡ out_of_fuel
unfolding read_from_root_dir
list_loop-endless_example =
    list_loop-endless 1000 volume 0 0 10 emptied (copy_bytes emptied 64 32 (λ _. 0) 0)
      (record { directory_i = 0; file_name = []; entries_read = 0; entries = [] }) refl refl
      (omega arith)
