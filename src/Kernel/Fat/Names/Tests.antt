-- ===== src/Kernel/Fat/Names/Tests.antt =====
-- Long file names on concrete names.
use stuos.Prelude.{ℕ, ◌≡◌, refl, false, List, [], ◌∷◌, ◌++◌, map, arith}
use stuos.Kernel.Fat.{done}
use stuos.Kernel.Fat.Names.{LfnEntry, create_lfn_entries, read_lfn_entries}
use stuos.Kernel.Fat.Names.LongName.{read_lfn_entries-create_lfn_entries}

-- "a_long_filename"
abbrev long : List ℕ
long = 97 ∷ 95 ∷ 108 ∷ 111 ∷ 110 ∷ 103 ∷ 95 ∷ 102 ∷ 105 ∷ 108 ∷ 101 ∷ 110 ∷ 97 ∷ 109 ∷ 101 ∷ []

read_lfn_entries-create_lfn_entries_example :
    read_lfn_entries (create_lfn_entries (82 ∷ 69 ∷ []) long) ≡ done (long ++ 0 ∷ [])
read_lfn_entries-create_lfn_entries_example =
    read_lfn_entries-create_lfn_entries (82 ∷ 69 ∷ []) long (omega arith) (omega arith)

-- The one entry of a short name does not say that it is the last of its sequence.
one_entry : map (λ e. LfnEntry.is_last_in_sequence e) (create_lfn_entries [] (97 ∷ [])) ≡ false ∷ []
unfolding create_lfn_entries
one_entry = refl
