-- ===== src/Kernel/Fat/Mounts/Slots.antt =====
-- Which entry of `all_fat_mounts` a volume gets (stuos/src/fs_fat.c).
use stuos.Prelude.{
  ℕ, zero, suc, ◌+◌, ◌≤◌, ◌<◌, ◌≡◌, ◌≢◌, refl, sym, subst, ◌⊎◌, inl, inr, true, false, ◌==◌, arith,
  Bool-cases,
}
use stuos.Kernel.Fat.{Result, done, halted, Bytes, copy_bytes}
use stuos.Kernel.Fat.Entries.Inodes.{make_inode-root}
use stuos.Kernel.Fat.Mounts.{
  Mounts, is_fat16_header, find_mount, volume_of_header, put_mount, mount_fat16,
}

-- The first entry from `from` to `to` that is not in use, or a halt where there is none.
FirstMount : Mounts → ℕ → ℕ → Result ℕ → Type 0
FirstMount mounts from to r =
    ((i : ℕ) × (r ≡ done i)
      × (from ≤ i)
      × (i < to)
      × ((mounts i).number_of_fats ≡ 0)
      × ((m : ℕ) → from ≤ m → m < i → (mounts m).number_of_fats ≢ 0))
    ⊎ ((r ≡ halted) × ((m : ℕ) → from ≤ m → m < to → (mounts m).number_of_fats ≢ 0))

still_used :
    (mounts : Mounts) (m i : ℕ)
    → (m == i) ≡ true
    → ((mounts i).number_of_fats == 0) ≡ false
    → (mounts m).number_of_fats ≢ 0
still_used mounts m i here used =
    let at : m ≡ i = ground arith in
    subst (λ k. (mounts k).number_of_fats ≢ 0) (sym at) (λ e. ground (arith, e, used))

find_mount-FirstMount :
    (rounds i : ℕ) (mounts : Mounts) → FirstMount mounts i (i + rounds) (find_mount rounds i mounts)
unfolding FirstMount
find_mount-FirstMount zero i mounts = inr (refl, λ m from to. absurd (omega (arith, from, to)))
find_mount-FirstMount (suc rounds) i mounts = elim (Bool-cases ((mounts i).number_of_fats == 0)) [
  | inl free ↦ inl (
    i,
    simp free refl,
    omega arith,
    omega arith,
    ground (arith, free),
    λ m from to. absurd (omega (arith, from, to)),
  )
  | inr used ↦ elim (find_mount-FirstMount rounds (suc i) mounts) [
    | inl (n, found, from, to, free, first) ↦ inl (
      n,
      simp (used, found) refl,
      omega (arith, from),
      omega (arith, to),
      free,
      λ m ge lt. elim (Bool-cases (m == i)) [
        | inl here ↦ still_used mounts m i here used
        | inr later ↦ first m (ground (arith, ge, later)) lt
      ],
    )
    | inr (none, all) ↦ inr (
      simp (used, none) refl,
      λ m ge lt. elim (Bool-cases (m == i)) [
        | inl here ↦ still_used mounts m i here used
        | inr later ↦ all m (ground (arith, ge, later)) (omega (arith, lt))
      ],
    )
  ]
]

-- A volume with a good header gets the first of the ten entries that is not in use: that entry
-- becomes the volume that the header describes, no other changes, and the root of the volume has
-- the inode number 1. It halts only where all ten are in use.
pub mount_fat16-mounted :
    (block_device : Bytes) (mounts : Mounts)
    → let hdr = copy_bytes block_device 0 512 (λ _. 0) 0 in
      is_fat16_header hdr ≡ true
      → ((i : ℕ) × (mount_fat16 block_device mounts
            ≡ done (record {
              mount_id = i;
              inode = 1;
              mounts = put_mount i (volume_of_header hdr) mounts;
            }))
          × (i < 10)
          × ((mounts i).number_of_fats ≡ 0)
          × ((m : ℕ) → m < i → (mounts m).number_of_fats ≢ 0))
        ⊎ ((mount_fat16 block_device mounts ≡ halted)
            × ((m : ℕ) → m < 10 → (mounts m).number_of_fats ≢ 0))
unfolding mount_fat16 FirstMount
mount_fat16-mounted block_device mounts good =
    let hdr = copy_bytes block_device 0 512 (λ _. 0) 0 in
    elim (find_mount-FirstMount 10 0 mounts) [
      | inl (i, found, from, to, free, first) ↦
          inl (
            i,
            simp (good, found, make_inode-root) refl,
            to,
            free,
            λ m lt. first m (omega arith) lt,
          )
      | inr (none, all) ↦ inr (simp (good, none) refl, λ m lt. all m (omega arith) lt)
    ]
