-- ===== src/Kernel/Files/Tests.antt =====
-- Runs of the file operations, and their theorems there.
use stuos.Prelude.{◌≡◌, refl, true, arith, [], ◌∷◌, length, some}
use stuos.Kernel.Outcome.{done}
use stuos.Kernel.Files.{Pipe, left, right, Written, fop_generate_pipe, pipe_write, pipe_read}
use stuos.Kernel.Files.Refill.{pipe_writes}
use stuos.Kernel.Files.Pipe.{pipe_read-pipe_writes, pipe_read-again}

pipe_read-pipe_writes_example :
    (p : Pipe) × (p' : Pipe) × (pipe_writes left ((1 ∷ 2 ∷ []) ∷ (3 ∷ []) ∷ []) fop_generate_pipe
      ≡ done p)
    × (pipe_read (some right) 10 p
        ≡ done (record { read_something = true; bytes = 1 ∷ 2 ∷ 3 ∷ [] }, p'))
pipe_read-pipe_writes_example =
    pipe_read-pipe_writes left ((1 ∷ 2 ∷ []) ∷ (3 ∷ []) ∷ []) 10 (omega arith) (omega arith)
      (omega arith)

abbrev filled : Pipe
filled left = record { connected = true; buffer = []; reader_next_byte = 0 }
filled right = record { connected = true; buffer = 5 ∷ 6 ∷ 7 ∷ 8 ∷ []; reader_next_byte = 0 }

pipe_read-again_example :
    (p₁ : Pipe) × (p₂ : Pipe) × (w : Written) × (pipe_read (some right) 2 filled
      ≡ done (record { read_something = true; bytes = 5 ∷ 6 ∷ [] }, p₁))
    × (pipe_read (some right) 2 p₁
        ≡ done (record { read_something = true; bytes = 5 ∷ 6 ∷ [] }, p₂))
    × (pipe_write (some left) (9 ∷ []) p₁ ≡ done w)
    × (length w.past_end ≡ 2)
pipe_read-again_example =
    pipe_read-again left (5 ∷ 6 ∷ 7 ∷ 8 ∷ []) (9 ∷ []) 2 filled
      (record { here = refl; there = refl; holds = refl; unread = refl }) (omega arith)
      (omega arith) (omega arith)
