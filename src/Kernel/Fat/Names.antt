-- ===== src/Kernel/Fat/Names.antt =====
-- Long file names of stuos/src/fs_fat.c: what `create_inode` puts into the entries of a name, and
-- what `read_dirents` reads from them.
mod Tests
pub mod LongName
use stuos.Prelude.{
  ℕ, zero, suc, ◌+◌, ◌-◌, ◌*◌, ◌/◌, ◌%◌, Bool, true, false, ◌==◌, ◌!=◌, ltb, if◌then◌else◌, List,
  [], ◌∷◌, ◌++◌, length, replicate,
}
use stuos.Kernel.Fat.{Result, done, halted, ◌>>=◌}

-- One round of `checksum` for each of the characters of a short name.
abbrev pub checksum_loop : List ℕ → ℕ → ℕ
checksum_loop [] val = val
checksum_loop (c ∷ data_left) val =
    checksum_loop data_left (((if val % 2 == 1 then 0x80 else 0) + val / 2 + c) % 256)

pub checksum : List ℕ → ℕ
checksum short_name = checksum_loop short_name 0

-- `struct Fat16LFNEntry`, with its three runs of characters as one list of 13.
pub record LfnEntry : Type 0 where
  pub sequence_number : ℕ
  pub is_last_in_sequence : Bool
  pub unicode_name : List ℕ
  pub lfn_checksum : ℕ

-- A `char`, signed on this target, as the `uint16_t` that it is stored in.
abbrev pub wide : ℕ → ℕ
wide c = if ltb c 128 then c else 0xFF00 + c

-- The three inner loops over the characters of an entry, with `room` characters left: the
-- characters and what is left of the name. They stop behind the 0, and 0xFFFF fills the rest.
abbrev pub fill_name : ℕ → List ℕ → List ℕ × List ℕ
fill_name zero name = ([], name)
fill_name (suc room) [] = (replicate (suc room) 0xFFFF, [])
fill_name (suc room) (c ∷ name) =
    let rest = fill_name room name in
    if c == 0 then (0 ∷ replicate room 0xFFFF, name) else (wide c ∷ rest.0, rest.1)

-- The loop over `seq`, from the last entry to the first, in front of the entries `written` behind
-- them.
abbrev pub lfn_loop : ℕ → ℕ → ℕ → List ℕ → List LfnEntry → List LfnEntry
lfn_loop zero lfn_entry_count sum name written = written
lfn_loop (suc seq) lfn_entry_count sum name written =
    let filled = fill_name 13 name in
    lfn_loop seq lfn_entry_count sum filled.1 (
      record {
        sequence_number = (lfn_entry_count - seq) % 64;
        is_last_in_sequence = seq == 1;
        unicode_name = filled.0;
        lfn_checksum = sum;
      }
      ∷ written)

-- The entries of the name `name`, in their order in the directory.
pub create_lfn_entries : List ℕ → List ℕ → List LfnEntry
create_lfn_entries short_name name =
    let lfn_entry_count = (length name + 13) / 13 % 256 in
    lfn_loop lfn_entry_count lfn_entry_count (checksum short_name) (name ++ 0 ∷ []) []

-- The inner loops of `read_dirents` over the characters of an entry, which stop behind the 0.
abbrev pub read_name : List ℕ → Result (List ℕ)
read_name [] = done []
read_name (c ∷ name) =
    let rest = read_name name in
    if c / 256 != 0 then halted else if c == 0 then done (0 ∷ []) else rest >>= λ cs. done (c ∷ cs)

-- The loop over `lfn_idx`, from the last entry to the first: the bytes written to `file_name`.
abbrev pub read_lfn_entries : List LfnEntry → Result (List ℕ)
read_lfn_entries [] = done []
read_lfn_entries (e ∷ entries) =
    read_lfn_entries entries >>= λ before. read_name e.unicode_name >>= λ cs. done (before ++ cs)
