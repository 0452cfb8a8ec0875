-- ===== src/Kernel/Keyboard/Ps2/Tests.antt =====
-- Runs of the PS/2 driver, and its theorems there.
use stuos.Prelude.{◌≡◌, refl, some, true, false, arith, List, [], ◌∷◌, ◌++◌}
use stuos.Kernel.Outcome.{done, halted, ◌>>=◌}
use stuos.Kernel.Tty.{Tty, all_dirty}
use stuos.Kernel.Tty.Cursor.{IsReady}
use stuos.Kernel.Tty.Queue.{HasInput}
use stuos.Kernel.Keyboard.{toupper}
use stuos.Kernel.Keyboard.Ps2.{Keys, key_value, handle_incoming_byte}
use stuos.Kernel.Keyboard.Ps2.Decode.{
  KeyEvent, event, press_all, ready, sequences, provide_all, handle_incoming_byte-sequences,
}
use stuos.Kernel.Keyboard.Ps2.Input.{IsEntered, entered, handle_incoming_byte-IsEntered}
use stuos.Kernel.Keyboard.Ps2.Pause.{pause, handle_incoming_byte-pause}

abbrev up : Keys
up = record { capslock = false; shift = false }

-- Shift down, the key of `a` down and up, shift up, an extended key down.
abbrev strokes : List KeyEvent
strokes =
    event false false 0x12
    ∷ event false false 0x1c
    ∷ event false true 0x1c
    ∷ event false true 0x12
    ∷ event true false 0x75
    ∷ []

strokes_typed : (press_all strokes up).0 ≡ 0 ∷ 65 ∷ 0 ∷ 0 ∷ 0 ∷ []
unfolding key_value toupper
strokes_typed = refl

-- A terminal of 80 by 25 characters.
abbrev terminal : Tty
terminal = record {
  chars_width = 80;
  chars_height = 25;
  cursor_x = 0;
  cursor_y = 0;
  has_buffer = true;
  buffer = λ i. 32;
  current_run = 0;
  canonical = true;
  dirty = all_dirty;
  input_buffer = λ i. 0;
  next = 0;
  screen = λ i j. 32;
}

handle_incoming_byte-sequences_example :
    handle_incoming_byte (sequences strokes) (ready up) terminal ≡ (
      provide_all (press_all strokes up).0 terminal >>= λ t'.
      done (ready (press_all strokes up).1, t'))
handle_incoming_byte-sequences_example =
    handle_incoming_byte-sequences strokes up terminal (ground arith)

handle_incoming_byte-pause_example :
    handle_incoming_byte (pause ++ (0x1c ∷ 0x32 ∷ 0x21 ∷ 0x23 ∷ [])) (ready up) terminal ≡ halted
handle_incoming_byte-pause_example =
    handle_incoming_byte-pause up terminal 0x1c 0x32 0x21 0x23 [] (omega arith) (omega arith)
      (omega arith) (omega arith) (omega arith)

terminal-IsReady : IsReady terminal
terminal-IsReady = record {
  has_buffer = refl;
  some_width = omega arith;
  some_height = omega arith;
  small_width = omega arith;
  small_height = omega arith;
  in_row = omega arith;
  on_screen = omega arith;
}

terminal-HasInput : HasInput terminal []
terminal-HasInput = record { count = refl; fits = omega arith; bytes = tt }

input_after_strokes : entered (press_all strokes up).0 true [] ≡ some (65 ∷ [])
unfolding key_value toupper
input_after_strokes = refl

handle_incoming_byte-IsEntered_example :
    IsEntered
      (handle_incoming_byte (sequences strokes) (ready up) terminal)
      (ready (press_all strokes up).1)
      (entered (press_all strokes up).0 true [])
handle_incoming_byte-IsEntered_example =
    handle_incoming_byte-IsEntered strokes up terminal [] (ground arith) terminal-IsReady
      terminal-HasInput
