-- ===== src/Kernel/Fat/Listing/Endless.antt =====
-- An empty entry keeps `read_dirents` of stuos/src/fs_fat.c going for ever.
use stuos.Prelude.{ℕ, zero, suc, ◌/◌, ◌<◌, ◌≡◌, refl, false, ◌!=◌, arith}
use stuos.Kernel.Fat.{done, out_of_fuel, Bytes, Fat16Volume}
use stuos.Kernel.Fat.Entries.{attributes}
use stuos.Kernel.Fat.Listing.{Listing, read_entries, list_loop}

-- Where the loop of `read_dirents` comes to an entry that was emptied, which starts with the byte
-- 0xE5: it never ends, however many rounds it is given, and whatever it has listed so far.
pub list_loop-endless :
    (fuel : ℕ) (vol : Fat16Volume) (cluster_number dirent_index dirent_count : ℕ) (d e : Bytes)
    (s : Listing)
    → read_entries vol cluster_number s.directory_i 1 d ≡ done e
    → e 0 ≡ 0xE5
    → attributes e < 64
    → list_loop fuel vol cluster_number dirent_index dirent_count d s ≡ out_of_fuel
unfolding list_loop
list_loop-endless zero vol cluster_number dirent_index dirent_count d e s reads empty attrs = refl
list_loop-endless (suc fuel) vol cluster_number dirent_index dirent_count d e s reads empty attrs =
    let rest =
      list_loop-endless fuel vol cluster_number dirent_index dirent_count d e s reads empty attrs in
    let plain : attributes e / 64 != 0 ≡ false = ground (arith, attrs) in
    simp (reads, plain, empty) rest
