-- ===== src/Kernel/Fat/Names/LongName.antt =====
-- The name that `read_dirents` of stuos/src/fs_fat.c reads is the one that `create_inode` was
-- given.
use mathlib.Core.List.{append_assoc}
use stuos.Prelude.{
  ℕ, zero, suc, ◌+◌, ◌-◌, ◌*◌, ◌/◌, ◌%◌, ◌≤◌, ◌<◌, ◌≡◌, refl, sym, ap, ◌∙◌, true, false, ◌==◌, ◌!=◌,
  ltb, arith, List, [], ◌∷◌, ◌++◌, length, take, drop, length-drop, take-append-drop,
}
use stuos.Kernel.Fat.{done}
use stuos.Kernel.Fat.Names.{
  LfnEntry, fill_name, lfn_loop, checksum, create_lfn_entries, read_name, read_lfn_entries,
}

-- A name in ASCII, without a 0.
abbrev pub IsName : List ℕ → Type 0
IsName [] = Unit
IsName (c ∷ cs) = (0 < c) × (c < 128) × IsName cs

IsName-drop : (n : ℕ) (cs : List ℕ) → IsName cs → IsName (drop n cs)
IsName-drop zero cs name = name
IsName-drop (suc n) [] name = tt
IsName-drop (suc n) (c ∷ cs) (_, _, name) = IsName-drop n cs name

-- An entry that the name fills.
read_name-full :
    (room : ℕ) (cs : List ℕ)
    → IsName cs
    → room ≤ length cs
    → (read_name (fill_name room (cs ++ 0 ∷ [])).0 ≡ done (take room cs))
      × ((fill_name room (cs ++ 0 ∷ [])).1 ≡ drop room cs ++ 0 ∷ [])
read_name-full zero cs name le = (refl, refl)
read_name-full (suc room) [] name le = absurd (omega (arith, le))
read_name-full (suc room) (c ∷ cs) (positive, small, name) le =
    let more : c == 0 ≡ false = ground arith in
    let narrow : ltb c 128 ≡ true = ground arith in
    let ascii : c / 256 != 0 ≡ false = ground arith in
    let (reads, left) = read_name-full room cs name (omega (arith, le)) in
    simp (more, narrow, ascii, reads, left) (refl, refl)

-- The last entry, with the 0.
read_name-last :
    (room : ℕ) (cs : List ℕ)
    → IsName cs
    → length cs < room
    → read_name (fill_name room (cs ++ 0 ∷ [])).0 ≡ done (cs ++ 0 ∷ [])
read_name-last zero cs name lt = absurd (omega (arith, lt))
read_name-last (suc room) [] name lt = refl
read_name-last (suc room) (c ∷ cs) (positive, small, name) lt =
    let more : c == 0 ≡ false = ground arith in
    let narrow : ltb c 128 ≡ true = ground arith in
    let ascii : c / 256 != 0 ≡ false = ground arith in
    let reads = read_name-last room cs name (omega (arith, lt)) in
    simp (more, narrow, ascii, reads) refl

read_lfn_entries-lfn_loop :
    (seq count sum : ℕ) (cs before : List ℕ) (written : List LfnEntry)
    → IsName cs
    → 13 * seq ≤ length cs
    → length cs < 13 * seq + 13
    → read_lfn_entries written ≡ done before
    → read_lfn_entries (lfn_loop (suc seq) count sum (cs ++ 0 ∷ []) written)
      ≡ done (before ++ cs ++ 0 ∷ [])
read_lfn_entries-lfn_loop zero count sum cs before written name ge lt reads =
    let last = read_name-last 13 cs name (omega (arith, lt)) in
    simp (reads, last) (ap done (sym (append_assoc before cs (0 ∷ []))))
read_lfn_entries-lfn_loop (suc seq) count sum cs before written name ge lt reads =
    let (own, left) = read_name-full 13 cs name (omega (arith, ge)) in
    let e : LfnEntry = record {
      sequence_number = (count - suc seq) % 64;
      is_last_in_sequence = suc seq == 1;
      unicode_name = (fill_name 13 (cs ++ 0 ∷ [])).0;
      lfn_checksum = sum;
    } in
    let reads' : read_lfn_entries (e ∷ written) ≡ done (before ++ take 13 cs) =
      simp (reads, own) refl in
    let size = length-drop 13 cs in
    let whole : before ++ take 13 cs ++ drop 13 cs ≡ before ++ cs =
      append_assoc before (take 13 cs) (drop 13 cs) ∙ ap (◌++◌ before) (take-append-drop 13 cs) in
    ap (λ left_over. read_lfn_entries (lfn_loop (suc seq) count sum left_over (e ∷ written))) left
    ∙ read_lfn_entries-lfn_loop seq count sum (drop 13 cs) (before ++ take 13 cs) (e ∷ written)
        (IsName-drop 13 cs name) (omega (arith, size, ge)) (omega (arith, size, lt)) reads'
    ∙ ap (λ cs'. done (cs' ++ 0 ∷ [])) whole

-- The name of a file, in ASCII and of at most 255 characters, comes back with the 0 behind it from
-- the entries that `create_inode` makes of it, whatever its short name is.
pub read_lfn_entries-create_lfn_entries :
    (short_name cs : List ℕ)
    → IsName cs
    → length cs ≤ 255
    → read_lfn_entries (create_lfn_entries short_name cs) ≡ done (cs ++ 0 ∷ [])
unfolding create_lfn_entries
read_lfn_entries-create_lfn_entries short_name cs name short =
    let count = (length cs + 13) / 13 % 256 in
    let some_entries : count ≡ suc (length cs / 13) = omega (arith, short) in
    rw some_entries (
      read_lfn_entries-lfn_loop (length cs / 13) (suc (length cs / 13)) (checksum short_name) cs []
        [] name (omega arith) (omega arith) refl)
