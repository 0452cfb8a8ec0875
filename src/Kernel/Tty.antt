-- ===== src/Kernel/Tty.antt =====
-- The terminal, stuos/src/tty.c: a ring of rows of characters with a cursor, and the line that
-- the keyboard types. A `char` is its byte; '\b' is 8, '\n' 10, ' ' 32 and '?' 63.
-- `screen x y` is the character whose glyph `blit_char` last drew at column `x` and line `y`; the
-- glyphs themselves are not modelled.
pub mod Cursor
pub mod Put
pub mod Queue
pub mod Keyboard
pub mod Read
mod Tests
use stuos.Prelude.{
  ℕ, zero, suc, ◌+◌, ◌-◌, ◌*◌, ◌/◌, ◌%◌, ◌^◌, Bool, true, false, ◌==◌, ltb, leb, ◌&&◌, not,
  if◌then◌else◌,
}
use stuos.Libc.Memory.{Ptr, Memory, store}
use stuos.Kernel.Outcome.{Outcome, done, halted, ◌>>=◌}

abbrev pub input_buf_length : ℕ
input_buf_length = 1000

pub data Dirty : Type 0 where
  only_prev_char_affected : Dirty
  all_dirty : Dirty

-- The globals of the file. `has_buffer` is whether `buffer` is not NULL; `next` is an index into
-- `input_buffer`; `canonical` is the flag ICANON of `tty_settings`.
pub record Tty : Type 0 where
  pub chars_width : ℕ
  pub chars_height : ℕ
  pub cursor_x : ℕ
  pub cursor_y : ℕ
  pub has_buffer : Bool
  pub buffer : ℕ → ℕ
  pub current_run : ℕ
  pub canonical : Bool
  pub dirty : Dirty
  pub input_buffer : ℕ → ℕ
  pub next : ℕ
  pub screen : ℕ → ℕ → ℕ

-- The loop of `find_newline_in_input_buffer` at index `i`.
pub find_newline_loop : (left i : ℕ) → Tty → ℕ
find_newline_loop zero i t = 0
find_newline_loop (suc left) i t =
    if t.input_buffer i == 10 then i + 1 else find_newline_loop left (i + 1) t

pub find_newline_in_input_buffer : Tty → ℕ
unfolding find_newline_loop
find_newline_in_input_buffer t = find_newline_loop t.next 0 t

pub index_buffer : ℕ → ℕ → Tty → Outcome ℕ
index_buffer x y t =
    if leb t.chars_height y
    then halted
    else if leb t.chars_width x
    then halted
    else done (x + t.chars_width * y)

abbrev pub draw : ℕ → ℕ → ℕ → Tty → Tty
draw c x y t = record t { screen = λ i j. if i == x && j == y then c else t.screen i j }

-- The loop of `blit_row` at `char_x`; `seen` is `row_has_seen_newline` and `chars` an index into
-- the buffer.
blit_row_loop : (left char_x : ℕ) → (seen : Bool) → (chars char_y : ℕ) → Tty → Tty
blit_row_loop zero char_x seen chars char_y t = t
blit_row_loop (suc left) char_x seen chars char_y t =
    let curr = t.buffer (chars + char_x) in
    let now = if curr == 10 then true else seen in
    blit_row_loop left (char_x + 1) now chars char_y
      (draw (if now then 32 else curr) char_x char_y t)

pub blit_row : ℕ → ℕ → Tty → Tty
unfolding blit_row_loop
blit_row chars char_y t = blit_row_loop t.chars_width 0 false chars char_y t

-- The loop of `blit` over the lines of the screen.
blit_lines : (left line_num : ℕ) → Tty → Outcome Tty
blit_lines zero line_num t = done t
blit_lines (suc left) line_num t = do
  row ← index_buffer 0 ((line_num + t.cursor_y + 1) % t.chars_height) t
  blit_lines left (line_num + 1) (blit_row row line_num t)

-- `blit`, by `current_buffer_dirty_status`.
blit_by : Dirty → Tty → Outcome Tty
blit_by only_prev_char_affected t = do
  idx ← index_buffer ((t.cursor_x + 2 ^ 32 - 1) % 2 ^ 32) t.cursor_y t
  done (draw (t.buffer idx) ((t.cursor_x + 2 ^ 32 - 1) % 2 ^ 32) (t.chars_height - 1) t)
blit_by all_dirty t = blit_lines t.chars_height 0 t

pub blit : Tty → Outcome Tty
unfolding blit_by
blit t = blit_by t.dirty t

-- `memset(buffer + from, ' ', n)`
abbrev pub clear : ℕ → ℕ → Tty → Tty
clear from n t = record t {
  buffer = λ i. if leb from i && ltb i (from + n) then 32 else t.buffer i;
}

-- `initialise_tty`, for a display of `width` by `height` pixels.
pub initialise_tty : ℕ → ℕ → Tty → Outcome Tty
initialise_tty width height t =
    let w = width / 16 in
    let h = height / 16 in
    blit (
      clear 0 (w * h)
        (record t { chars_width = w; chars_height = h; has_buffer = true; dirty = all_dirty }))

pub do_newline : Tty → Outcome Tty
do_newline t = do
  let t₁ = record t { cursor_y = (t.cursor_y + 1) % 2 ^ 32 % t.chars_height; cursor_x = 0 }
  idx ← index_buffer t₁.cursor_x t₁.cursor_y t₁
  done (record (clear idx t.chars_width t₁) { dirty = all_dirty })

-- The branch of `write_from_multiple_sources` for a backspace.
pub erase : Tty → Outcome Tty
erase t =
    if t.current_run == 0
    then done t
    else let y =
        if t.cursor_x == 0
        then if t.cursor_y == 0 then t.chars_height - 1 else t.cursor_y - 1
        else t.cursor_y in
      let x = if t.cursor_x == 0 then t.chars_width - 1 else t.cursor_x - 1 in
      let t₁ = record t { current_run = t.current_run - 1; cursor_x = x; cursor_y = y } in
      index_buffer x y t₁ >>= λ idx. blit (record (clear idx 1 t₁) { dirty = all_dirty })

-- A new line clears its row first.
pub fresh_row : Tty → Outcome Tty
fresh_row t =
    if t.cursor_x == 0
    then (index_buffer t.cursor_x t.cursor_y t >>= λ idx. done (clear idx t.chars_width t))
    else done t

-- The rest of `write_from_multiple_sources`, for a character that is put at the cursor.
pub put_char : ℕ → Bool → Tty → Outcome Tty
put_char c is_from_keyboard t = do
  t₁ ← fresh_row t
  idx ← index_buffer t₁.cursor_x t₁.cursor_y t₁
  let t₂ = record t₁ {
    buffer = λ i. if i == idx then c else t₁.buffer i;
    current_run = if is_from_keyboard then t₁.current_run + 1 else 0;
  }
  t₃ ←
      (if c == 10
        then do_newline (record t₂ { current_run = 0 })
        else done
            (record t₂ { cursor_x = (t₂.cursor_x + 1) % 2 ^ 32; dirty = only_prev_char_affected }))
  t₄ ← (if t₃.cursor_x == t₃.chars_width then do_newline t₃ else done t₃)
  blit (record t₄ { cursor_y = t₄.cursor_y % t₄.chars_height })

pub write_from_multiple_sources : ℕ → Bool → Tty → Outcome Tty
write_from_multiple_sources byte is_from_keyboard t =
    if not t.has_buffer
    then done t
    else let c = if leb 128 byte then 63 else byte in
      if c == 8 && is_from_keyboard && t.canonical then erase t else put_char c is_from_keyboard t

pub tty_write_char : ℕ → Tty → Outcome Tty
tty_write_char c t = write_from_multiple_sources c false t

-- What `tty_provide_stdin` does to the input buffer.
pub take_key : ℕ → Tty → Outcome Tty
take_key x t =
    if x == 8 && t.canonical
    then if t.next == 0 then done t else done (record t { next = t.next - 1 })
    else if t.next == input_buf_length
    then halted
    else done (record t {
      input_buffer = λ i. if i == t.next then x else t.input_buffer i;
      next = t.next + 1;
    })

pub tty_provide_stdin : ℕ → Tty → Outcome Tty
tty_provide_stdin x t =
    if x == 0 then done t else (write_from_multiple_sources x true t >>= take_key x)

-- `for (i = 0; i < num; i++) out[i] = input_buffer[i];` from index `i`
pub copy_out : (left i : ℕ) → Ptr → (ℕ → ℕ) → Memory → Memory
copy_out zero i out input m = m
copy_out (suc left) i out input m = copy_out left (i + 1) out input (store m (out + i) (input i))

-- `for (j = 0; j < remaining; j++) input_buffer[j] = input_buffer[j + num];` from index `j`
pub shuffle_down : (left j num : ℕ) → (ℕ → ℕ) → ℕ → ℕ
shuffle_down zero j num input = input
shuffle_down (suc left) j num input =
    shuffle_down left (j + 1) num (λ i. if i == j then input (j + num) else input i)

-- The count read, the memory that `out` points into, and the terminal.
pub tty_read : Ptr → ℕ → Memory → Tty → Outcome (ℕ × Memory × Tty)
tty_read out num m t =
    if not t.canonical
    then halted
    else let end_position = find_newline_in_input_buffer t in
      let n = if ltb end_position num then end_position else num in
      if n == 0
      then done (0, m, t)
      else done (
        n,
        copy_out n 0 out t.input_buffer m,
        record t { input_buffer = shuffle_down (t.next - n) 0 n t.input_buffer; next = t.next - n },
      )
