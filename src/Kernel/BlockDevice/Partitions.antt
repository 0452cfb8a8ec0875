-- ===== src/Kernel/BlockDevice/Partitions.antt =====
-- The partitions that `fs_dev_add_block_device` of stuos/src/fs_dev.c finds.
use stuos.Prelude.{
  ℕ, zero, suc, ◌+◌, ◌*◌, ◌≤◌, ◌<◌, ◌≡◌, ◌%◌, ◌^◌, refl, sym, ◌∙◌, ap, ap₂, true, false, ◌==◌, leb,
  arith, Bool-cases, inl, inr, List, [], ◌∷◌, ◌++◌, length, length-append, if◌then◌else◌,
}
use mathlib.Core.List.{append-nil, append_assoc}
use stuos.Kernel.Outcome.{done}
use stuos.Kernel.BlockDevice.{
  Buffer, Driver, BlockDevice, BlockDevicePartition, little_endian, table_partition, add_partitions,
  new_device, fs_dev_add_block_device,
}

-- The number in four bytes from index `at` on, the lowest first.
abbrev pub word : Buffer → ℕ → ℕ
word b at = b at + 256 * b (at + 1) + 65536 * b (at + 2) + 16777216 * b (at + 3)

-- What the entries of a partition table describe, given the bytes that they start at: an entry has
-- the first sector in its bytes 8 to 11 and the count of sectors in its bytes 12 to 15, and one
-- without sectors ends the table. Bytes are counted in 32 bits.
abbrev pub listed : Buffer → List ℕ → List BlockDevicePartition
listed mbr [] = []
listed mbr (entry ∷ entries) =
    if word mbr (entry + 12) == 0
    then []
    else record {
      byte_offset = 512 * word mbr (entry + 8) % 2 ^ 32;
      byte_length = 512 * word mbr (entry + 12) % 2 ^ 32;
    }
      ∷ listed mbr entries

-- Where the four entries of a table lie in the first sector.
abbrev pub table : List ℕ
table = 446 ∷ 462 ∷ 478 ∷ 494 ∷ []

little_endian-word : (b : Buffer) (at place : ℕ) → at ≡ place → little_endian b at 4 ≡ word b place
little_endian-word b at place same =
    let second : b (suc place) ≡ b (place + 1) = ap b (omega arith) in
    let third : b (suc (suc place)) ≡ b (place + 2) = ap b (omega arith) in
    let fourth : b (suc (suc (suc place))) ≡ b (place + 3) = ap b (omega arith) in
    rw same (omega (arith, second, third, fourth))

-- The entries from number `i` on.
places : ℕ → ℕ → List ℕ
places zero i = []
places (suc n) i = (446 + 16 * i) ∷ places n (suc i)

add_partitions-listed :
    (n i : ℕ) (mbr : Buffer) (ps : List BlockDevicePartition)
    → length ps + n ≤ 9
    → add_partitions n i mbr ps ≡ done (ps ++ listed mbr (places n i))
unfolding places
add_partitions-listed zero i mbr ps le = ap done (sym (append-nil ps))
add_partitions-listed (suc n) i mbr ps le =
    let room : leb 9 (length ps) ≡ false = ground arith in
    let start = little_endian-word mbr (454 + 16 * i) (446 + 16 * i + 8) (omega arith) in
    let count = little_endian-word mbr (458 + 16 * i) (446 + 16 * i + 12) (omega arith) in
    let part : BlockDevicePartition = record {
      byte_offset = 512 * word mbr (446 + 16 * i + 8) % 2 ^ 32;
      byte_length = 512 * word mbr (446 + 16 * i + 12) % 2 ^ 32;
    } in
    let same : table_partition mbr i ≡ part =
      ap₂ (λ x y. record { byte_offset = x % 2 ^ 32; byte_length = y % 2 ^ 32 })
        (omega (arith, start)) (omega (arith, count)) in
    elim (Bool-cases (little_endian mbr (458 + 16 * i) 4 == 0)) [
      | inl last ↦
          let last' : (word mbr (446 + 16 * i + 12) == 0) ≡ true = rw (← count) last in
          rw (room, last, last') (ap done (sym (append-nil ps)))
      | inr more ↦
          let more' : (word mbr (446 + 16 * i + 12) == 0) ≡ false = rw (← count) more in
          rw (room, more, more')
            (add_partitions-listed n (suc i) mbr (ps ++ table_partition mbr i ∷ [])
                (omega (arith, le, length-append ps (table_partition mbr i ∷ [])))
              ∙ ap done (
                  append_assoc ps (table_partition mbr i ∷ []) (listed mbr (places n (suc i)))
                  ∙ ap (λ p. ps ++ p ∷ listed mbr (places n (suc i))) same))
    ]

-- A device that is added, where fewer than 26 are: it stands behind the others with an empty cache
-- and with partition 0, which starts at byte 0 and has the length 0. Where the first sector ends
-- in the signature 55 AA, the entries of its partition table, at bytes 446, 462, 478 and 494, in
-- front of the first one without sectors, follow; where it does not, no other partition. A
-- partition starts at the byte that its first sector times 512 is and is as long as its sectors
-- times 512, less what does not fit in 32 bits.
pub fs_dev_add_block_device-partitions :
    {D : Type 0} ⦃driver : Driver D⦄ (d : D) (devices : List (BlockDevice D))
    → length devices < 26
    → (dev : BlockDevice D) × (fs_dev_add_block_device d devices ≡ done (devices ++ dev ∷ []))
      × (dev.driver_private ≡ d)
      × (dev.cache.is_valid ≡ false)
      × (dev.partitions
          ≡ record { byte_offset = 0; byte_length = 0 }
            ∷ (if driver.block_read d 0 510 + 256 * driver.block_read d 0 511 == 0x55 + 256 * 0xAA
                then listed (driver.block_read d 0) table
                else []))
unfolding fs_dev_add_block_device places
fs_dev_add_block_device-partitions ⦃driver⦄ d devices few =
    let room : length devices == 26 ≡ false = ground arith in
    let mbr = driver.block_read d 0 in
    let whole : BlockDevicePartition = record { byte_offset = 0; byte_length = 0 } in
    let ending : little_endian mbr 510 2 ≡ mbr 510 + 256 * mbr 511 = omega arith in
    elim (Bool-cases (mbr 510 + 256 * mbr 511 == 0x55 + 256 * 0xAA)) [
      | inl signed ↦ (
        new_device d (whole ∷ listed mbr table),
        rw (room, ending, signed, add_partitions-listed 4 0 mbr (whole ∷ []) (omega arith)) refl,
        refl,
        refl,
        rw signed refl,
      )
      | inr plain ↦
          (new_device d (whole ∷ []), rw (room, ending, plain) refl, refl, refl, rw plain refl)
    ]
