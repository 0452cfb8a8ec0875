-- ===== src/Libc/Mem/Tests.antt =====
-- Runs of the memory routines at a concrete memory, and their theorems there.
use stuos.Prelude.{◌≡◌, refl, [], ◌∷◌, get_or}
use stuos.Libc.Memory.{Memory}
use stuos.Libc.Mem.{memmove}
use stuos.Libc.Mem.Laws.{copied, memmove_lem}

-- "ab" at 1 and "abz" at 4.
abbrev memory : Memory
memory a = get_or (0 ∷ 97 ∷ 98 ∷ 0 ∷ 97 ∷ 98 ∷ 122 ∷ 0 ∷ []) a 0

overlapping_move : (memmove 2 1 3 memory).0 4 ≡ 0
unfolding memmove
overlapping_move = refl

memmove_lem_example : memmove 2 1 3 memory ≡ (copied memory 2 1 3, 2)
memmove_lem_example = memmove_lem 2 1 3 memory
