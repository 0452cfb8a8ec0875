-- ===== src/Kernel/Fat/Entries/Inodes.antt =====
-- The inode numbers of stuos/src/fs_fat.c.
use stuos.Prelude.{
  ℕ, ◌+◌, ◌-◌, ◌*◌, ◌^◌, ◌<◌, ◌≡◌, refl, inl, inr, false, ◌==◌, ◌!=◌, leb, ◌&&◌, arith, Bool-cases,
}
use stuos.Kernel.Fat.{done}
use stuos.Kernel.Fat.Entries.{make_inode, get_parent_cluster_num, get_dirent_index_in_parent}

-- The inode number of an entry, other than one of "directory" 1 but its first, gives the cluster
-- of its directory and its index there back, also from index 0x8000 on.
pub make_inode-parts :
    (parent dirent : ℕ)
    → parent < 2 ^ 16
    → dirent < 2 ^ 16
    → (parent ≡ 1 → dirent ≡ 0)
    → (inode : ℕ) × (make_inode parent dirent ≡ done inode)
      × (get_parent_cluster_num inode ≡ parent)
      × (get_dirent_index_in_parent inode ≡ dirent)
unfolding make_inode
make_inode-parts parent dirent hp hd first =
    let inside : (parent == 1) && (dirent != 0) ≡ false = ground (arith, first) in
    elim (Bool-cases (leb 0x8000 dirent)) [
      | inl high ↦ (
        parent + dirent * 2 ^ 16 + (2 ^ 64 - 2 ^ 32),
        rw (inside, high) refl,
        omega (arith, hp, hd),
        omega (arith, hp, hd),
      )
      | inr low ↦ (
        parent + dirent * 2 ^ 16 + 0,
        rw (inside, low) refl,
        omega (arith, hp, hd),
        omega (arith, hp, hd),
      )
    ]

-- The root directory's own number.
pub make_inode-root : make_inode 1 0 ≡ done 1
unfolding make_inode
make_inode-root = refl
