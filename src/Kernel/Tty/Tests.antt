-- ===== src/Kernel/Tty/Tests.antt =====
-- The terminal on a small screen.
use stuos.Prelude.{ℕ, ◌≡◌, refl, true, false, ◌==◌, if◌then◌else◌, List, [], ◌∷◌, some, arith}
use stuos.Libc.Memory.{Memory}
use stuos.Kernel.Outcome.{done}
use stuos.Kernel.Tty.{Tty, all_dirty, write_from_multiple_sources, tty_read}
use stuos.Kernel.Tty.Cursor.{IsReady, IsStep}
use stuos.Kernel.Tty.Put.{write_from_multiple_sources-IsStep}
use stuos.Kernel.Tty.Queue.{HasInput, typed, first_line}
use stuos.Kernel.Tty.Keyboard.{Provided, tty_provide_stdin-Provided}
use stuos.Kernel.Tty.Read.{IsRead, tty_read-IsRead}

-- Three columns and two rows, the cursor in the last column, with "h", a newline and "i" typed.
abbrev small_tty : Tty
small_tty = record {
  chars_width = 3;
  chars_height = 2;
  cursor_x = 2;
  cursor_y = 1;
  has_buffer = true;
  buffer = λ i. 32;
  current_run = 1;
  canonical = true;
  dirty = all_dirty;
  input_buffer = λ i. if i == 0 then 104 else if i == 1 then 10 else 105;
  next = 3;
  screen = λ x y. 32;
}

abbrev waiting : List ℕ
waiting = 104 ∷ 10 ∷ 105 ∷ []

small_tty-IsReady : IsReady small_tty
small_tty-IsReady = record {
  has_buffer = refl;
  some_width = omega arith;
  some_height = omega arith;
  small_width = omega arith;
  small_height = omega arith;
  in_row = omega arith;
  on_screen = omega arith;
}

small_tty-HasInput : HasInput small_tty waiting
small_tty-HasInput = record { count = refl; fits = omega arith; bytes = (refl, (refl, (refl, tt))) }

abbrev blank_memory : Memory
blank_memory a = 0

write_from_multiple_sources-IsStep_example :
    (t' : Tty) × (write_from_multiple_sources 97 false small_tty ≡ done t') × IsStep small_tty t'
write_from_multiple_sources-IsStep_example =
    write_from_multiple_sources-IsStep 97 false small_tty small_tty-IsReady

abbrev dark_tty : Tty
dark_tty = record small_tty { cursor_x = 0; cursor_y = 0; has_buffer = false; next = 0 }

tty_provide_stdin-Provided_example : Provided 8 small_tty (some (104 ∷ 10 ∷ []))
tty_provide_stdin-Provided_example =
    tty_provide_stdin-Provided 8 small_tty waiting (omega arith) small_tty-IsReady
      small_tty-HasInput

tty_read-IsRead_example :
    (m' : Memory) × (t' : Tty) × (tty_read 4096 10 blank_memory small_tty ≡ done (2, m', t'))
    × IsRead 4096 2 waiting blank_memory m' t'
tty_read-IsRead_example =
    tty_read-IsRead 4096 10 blank_memory small_tty waiting refl small_tty-HasInput

-- A backspace takes back a newline, and with it the line that it completed.
newline_taken_back : typed 8 true (104 ∷ 10 ∷ []) ≡ some (104 ∷ [])
newline_taken_back = refl

line_taken_back : first_line (104 ∷ []) ≡ 0
line_taken_back = refl
