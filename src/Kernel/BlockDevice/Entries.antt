-- ===== src/Kernel/BlockDevice/Entries.antt =====
-- The entries of /dev: `devroot_read_dirents` of stuos/src/fs_dev.c against the list of all the
-- partitions.
use stuos.Prelude.{
  ℕ, zero, suc, ◌+◌, ◌-◌, ◌*◌, ◌^◌, ◌≤◌, ◌≡◌, refl, sym, ◌∙◌, ap, subst, if_true, if_false, Bool,
  true, false, ◌==◌, ◌!=◌, ◌||◌, arith, Bool-cases, inl, inr, List, [], ◌∷◌, ◌++◌, length,
  length-append, take, drop, if◌then◌else◌,
}
use mathlib.Core.List.{append-nil, append_assoc}
use stuos.Kernel.Outcome.{Outcome, done, halted}
use stuos.Kernel.BlockDevice.{BlockDevice, VNodeData, dev_root_dir_inode_num}

-- What `devroot_read_dirents` writes for a partition: the number and the name.
pub record DirEntry : Type 0 where
  pub d_ino : ℕ
  pub d_name : List ℕ

abbrev pub dir_entry : ℕ → ℕ → DirEntry
dir_entry dev_num partition_num = record {
  d_ino = dev_num * 2 ^ 16 + partition_num;
  d_name =
      98
      ∷ 108
      ∷ 107
      ∷ (65 + dev_num)
      ∷ (if partition_num == 0 then 0 else 112)
      ∷ (if partition_num == 0 then 0 else 48 + partition_num)
      ∷ 0
      ∷ [];
}

-- The variables of `devroot_read_dirents`; `is_full` once it has returned from within its loops.
pub record Scan : Type 0 where
  pub dirent_index : ℕ
  pub count : ℕ
  pub entries : List DirEntry
  pub is_full : Bool

-- One round of the inner loop.
abbrev pub scan_entry : ℕ → DirEntry → Scan → Scan
scan_entry dirent_count e s =
    if s.dirent_index != 0
    then record s { dirent_index = s.dirent_index - 1 }
    else if s.count == dirent_count
    then record s { is_full = true }
    else record s { count = suc s.count; entries = s.entries ++ e ∷ [] }

-- The loops of `devroot_read_dirents`: over the partitions of a device, over the devices.
abbrev pub list_partitions : ℕ → ℕ → ℕ → ℕ → Scan → Scan
list_partitions zero partition_num dev_num dirent_count s = s
list_partitions (suc rounds) partition_num dev_num dirent_count s =
    if s.is_full
    then s
    else list_partitions rounds (suc partition_num) dev_num dirent_count
        (scan_entry dirent_count (dir_entry dev_num partition_num) s)

abbrev pub list_devices : {D : Type 0} → List (BlockDevice D) → ℕ → ℕ → Scan → Scan
list_devices [] dev_num dirent_count s = s
list_devices (dev ∷ devices) dev_num dirent_count s =
    list_devices devices (suc dev_num) dirent_count
      (list_partitions (length dev.partitions) 0 dev_num dirent_count s)

-- `devroot_read_dirents`, its return value and what it writes to `dirent_buf`.
pub devroot_read_dirents :
    {D : Type 0} → VNodeData → ℕ → ℕ → List (BlockDevice D) → Outcome (ℕ × List DirEntry)
devroot_read_dirents inode_num dirent_index dirent_count devices =
    if (inode_num.inode != dev_root_dir_inode_num) || (inode_num.mount_id != 0)
    then halted
    else let s =
        list_devices devices 0 dirent_count
          (record { dirent_index = dirent_index; count = 0; entries = []; is_full = false }) in
      done (if s.is_full then dirent_count else s.count, s.entries)

-- The entries of `rounds` partitions of one device.
abbrev partition_entries : ℕ → ℕ → ℕ → List DirEntry
partition_entries zero partition_num dev_num = []
partition_entries (suc rounds) partition_num dev_num =
    dir_entry dev_num partition_num ∷ partition_entries rounds (suc partition_num) dev_num

-- An entry for each partition, device by device.
abbrev pub all_entries : {D : Type 0} → List (BlockDevice D) → ℕ → List DirEntry
all_entries [] dev_num = []
all_entries (dev ∷ devices) dev_num =
    partition_entries (length dev.partitions) 0 dev_num ++ all_entries devices (suc dev_num)

abbrev scan_all : List DirEntry → ℕ → Scan → Scan
scan_all [] limit s = s
scan_all (e ∷ es) limit s = if s.is_full then s else scan_all es limit (scan_entry limit e s)

scan_all-full :
    (es : List DirEntry) (limit : ℕ) (s : Scan) → s.is_full ≡ true → scan_all es limit s ≡ s
scan_all-full [] limit s full = refl
scan_all-full (e ∷ es) limit s full = if_true _ _ full

scan_all-append :
    (xs ys : List DirEntry) (limit : ℕ) (s : Scan)
    → scan_all (xs ++ ys) limit s ≡ scan_all ys limit (scan_all xs limit s)
scan_all-append [] ys limit s = refl
scan_all-append (x ∷ xs) ys limit s = elim (Bool-cases s.is_full) [
  | inl full ↦
      if_true _ _ full
      ∙ sym (ap (scan_all ys limit) (if_true _ _ full) ∙ scan_all-full ys limit s full)
  | inr more ↦
      if_false _ _ more
      ∙ scan_all-append xs ys limit (scan_entry limit x s)
      ∙ sym (ap (scan_all ys limit) (if_false _ _ more))
]

list_partitions-scan :
    (n p dev_num limit : ℕ) (s : Scan)
    → list_partitions n p dev_num limit s ≡ scan_all (partition_entries n p dev_num) limit s
list_partitions-scan zero p dev_num limit s = refl
list_partitions-scan (suc n) p dev_num limit s =
    ap (λ r. if s.is_full then s else r)
      (list_partitions-scan n (suc p) dev_num limit (scan_entry limit (dir_entry dev_num p) s))

list_devices-scan :
    {D : Type 0} (devices : List (BlockDevice D)) (dev_num limit : ℕ) (s : Scan)
    → list_devices devices dev_num limit s ≡ scan_all (all_entries devices dev_num) limit s
list_devices-scan [] dev_num limit s = refl
list_devices-scan (dev ∷ devices) dev_num limit s =
    let first = partition_entries (length dev.partitions) 0 dev_num in
    list_devices-scan devices (suc dev_num) limit
      (list_partitions (length dev.partitions) 0 dev_num limit s)
    ∙ ap (scan_all (all_entries devices (suc dev_num)) limit)
        (list_partitions-scan (length dev.partitions) 0 dev_num limit s)
    ∙ sym (scan_all-append first (all_entries devices (suc dev_num)) limit s)

-- From `index` entries still to skip and `entries` written.
abbrev scanning : ℕ → List DirEntry → Scan
scanning index entries = record {
  dirent_index = index;
  count = length entries;
  entries = entries;
  is_full = false;
}

abbrev stopped : List DirEntry → Scan
stopped entries = record (scanning 0 entries) { is_full = true }

abbrev returned : ℕ → Scan → ℕ
returned limit s = if s.is_full then limit else s.count

scan_entry-skip :
    (limit index : ℕ) (e : DirEntry) (entries : List DirEntry)
    → scan_entry limit e (scanning (suc index) entries) ≡ scanning index entries
scan_entry-skip limit index e entries =
    if_true {b = suc index != 0} _ _ (ground arith) ∙ ap (λ n. scanning n entries) (omega arith)

scan_entry-full :
    (limit : ℕ) (e : DirEntry) (entries : List DirEntry)
    → (length entries == limit) ≡ true
    → scan_entry limit e (scanning 0 entries) ≡ stopped entries
scan_entry-full limit e entries full = if_true _ _ full

scan_entry-more :
    (limit : ℕ) (e : DirEntry) (entries : List DirEntry)
    → (length entries == limit) ≡ false
    → scan_entry limit e (scanning 0 entries) ≡ scanning 0 (entries ++ e ∷ [])
scan_entry-more limit e entries more =
    if_false _ _ more
    ∙ ap (λ n. record (scanning 0 (entries ++ e ∷ [])) { count = n })
        (sym (length-append entries (e ∷ []) ∙ omega arith))

abbrev IsSlice : List DirEntry → ℕ → ℕ → List DirEntry → Scan → Type 0
IsSlice es limit index entries s =
    (s.entries ≡ entries ++ take (limit - length entries) (drop index es))
    × (returned limit s ≡ length s.entries)

nothing_left : (n index : ℕ) (entries : List DirEntry) → entries ≡ entries ++ take n (drop index [])
nothing_left zero index entries = sym (append-nil entries)
nothing_left (suc n) zero entries = sym (append-nil entries)
nothing_left (suc n) (suc index) entries = sym (append-nil entries)

scan_all-IsSlice :
    (es : List DirEntry) (limit index : ℕ) (entries : List DirEntry)
    → length entries ≤ limit
    → IsSlice es limit index entries (scan_all es limit (scanning index entries))
scan_all-IsSlice [] limit index entries le =
    (nothing_left (limit - length entries) index entries, refl)
scan_all-IsSlice (e ∷ es) limit (suc index) entries le =
    subst (λ s. IsSlice es limit index entries (scan_all es limit s))
      (sym (scan_entry-skip limit index e entries)) (scan_all-IsSlice es limit index entries le)
scan_all-IsSlice (e ∷ es) limit zero entries le = elim (Bool-cases (length entries == limit)) [
  | inl full ↦
      let same : length entries ≡ limit = ground arith in
      let none_left : limit - length entries ≡ 0 = omega arith in
      let ends =
        ap (scan_all es limit) (scan_entry-full limit e entries full)
        ∙ scan_all-full es limit (stopped entries) refl in
      subst (IsSlice (e ∷ es) limit 0 entries) (sym ends)
        (rw none_left (sym (append-nil entries)), sym same)
  | inr more ↦
      let left : limit - length entries ≡ suc (limit - suc (length entries)) = ground arith in
      let size : length (entries ++ e ∷ []) ≡ suc (length entries) =
        length-append entries (e ∷ []) ∙ omega arith in
      let rest = scan_all-IsSlice es limit 0 (entries ++ e ∷ []) (ground (arith, size)) in
      subst (λ s. IsSlice (e ∷ es) limit 0 entries (scan_all es limit s))
        (sym (scan_entry-more limit e entries more))
        (
          rest.0
              ∙ append_assoc entries (e ∷ []) (take (limit - length (entries ++ e ∷ [])) es)
              ∙ ap (λ r. entries ++ r) (rw (left, size) refl),
          rest.1,
        )
]

-- `devroot_read_dirents` of the root of /dev: it writes the entries of all the partitions, device
-- by device, without the first `dirent_index` of them and at most `dirent_count`, and returns
-- their number.
pub devroot_read_dirents-slice :
    {D : Type 0} (dirent_index dirent_count : ℕ) (devices : List (BlockDevice D))
    → let expected = take dirent_count (drop dirent_index (all_entries devices 0)) in
      devroot_read_dirents
        (record { inode = dev_root_dir_inode_num; mount_id = 0 })
        dirent_index
        dirent_count
        devices
      ≡ done (length expected, expected)
unfolding devroot_read_dirents
devroot_read_dirents-slice dirent_index dirent_count devices =
    let slice =
      scan_all-IsSlice (all_entries devices 0) dirent_count dirent_index [] (omega arith) in
    let all_left : dirent_count - 0 ≡ dirent_count = omega arith in
    rw
      (
        list_devices-scan devices 0 dirent_count (scanning dirent_index []),
        slice.1,
        slice.0,
        all_left,
      )
      refl
