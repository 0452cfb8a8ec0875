-- ===== src/Kernel/Tty/Cursor.antt =====
-- The cursor stays on the screen, so that no access to the buffer halts the machine.
use stuos.Prelude.{
  ℕ, zero, suc, ◌+◌, ◌-◌, ◌*◌, ◌/◌, ◌%◌, ◌^◌, ◌≤◌, ◌<◌, ◌≡◌, refl, Bool, true, false, ◌==◌, leb,
  if◌then◌else◌, arith, ◌∙◌, ap, inl, inr, ◌⊎◌,
}
use stuos.Kernel.Outcome.{done}
use stuos.Kernel.Tty.{
  Tty, Dirty, only_prev_char_affected, all_dirty, index_buffer, draw, blit_row_loop, blit_row,
  blit_lines, blit_by, blit, clear, do_newline, initialise_tty,
}

-- A terminal that is initialised, with its cursor on the screen.
pub record IsReady (t : Tty) : Type 0 where
  pub has_buffer : t.has_buffer ≡ true
  pub some_width : 0 < t.chars_width
  pub some_height : 0 < t.chars_height
  pub small_width : t.chars_width < 2 ^ 32
  pub small_height : t.chars_height < 2 ^ 32
  pub in_row : t.cursor_x < t.chars_width
  pub on_screen : t.cursor_y < t.chars_height

abbrev pub with_screen : Tty → (ℕ → ℕ → ℕ) → Tty
with_screen t s = record t { screen = s }

pub index_buffer-done :
    (x y : ℕ) (t : Tty)
    → x < t.chars_width
    → y < t.chars_height
    → index_buffer x y t ≡ done (x + t.chars_width * y)
unfolding index_buffer
index_buffer-done x y t hx hy =
    let row : leb t.chars_height y ≡ false = ground arith in
    let col : leb t.chars_width x ≡ false = ground arith in rw (row, col)

blit_row_loop-screen :
    (left char_x : ℕ) (seen : Bool) (chars char_y : ℕ) (t : Tty)
    → (s : ℕ → ℕ → ℕ) × (blit_row_loop left char_x seen chars char_y t ≡ with_screen t s)
unfolding blit_row_loop
blit_row_loop-screen zero char_x seen chars char_y t = (t.screen, refl)
blit_row_loop-screen (suc left) char_x seen chars char_y t =
    let curr = t.buffer (chars + char_x) in
    let now = if curr == 10 then true else seen in
    blit_row_loop-screen left (char_x + 1) now chars char_y
      (draw (if now then 32 else curr) char_x char_y t)

blit_lines-screen :
    (left line_num : ℕ) (t : Tty)
    → 0 < t.chars_width
    → 0 < t.chars_height
    → (s : ℕ → ℕ → ℕ) × (blit_lines left line_num t ≡ done (with_screen t s))
unfolding blit_lines blit_row
blit_lines-screen zero line_num t w h = (t.screen, refl)
blit_lines-screen (suc left) line_num t w h =
    let y : ℕ = (line_num + t.cursor_y + 1) % t.chars_height in
    let on : y < t.chars_height = omega arith in
    let (s, row) = blit_row_loop-screen t.chars_width 0 false (0 + t.chars_width * y) line_num t in
    let (s', rest) = blit_lines-screen left (line_num + 1) (with_screen t s) w h in
    (s', rw (index_buffer-done 0 y t w on, row) rest)

Dirty-cases : (d : Dirty) → (d ≡ only_prev_char_affected) ⊎ (d ≡ all_dirty)
Dirty-cases only_prev_char_affected = inl refl
Dirty-cases all_dirty = inr refl

blit_of : (t : Tty) (d : Dirty) → t.dirty ≡ d → blit t ≡ blit_by d t
unfolding blit
blit_of t d e = ap (λ k. blit_by k t) e

-- Drawing changes the screen only, where the cursor has moved off the first column if only the
-- last character is drawn.
blit-screen :
    (t : Tty)
    → IsReady t
    → (t.dirty ≡ only_prev_char_affected → 0 < t.cursor_x)
    → (s : ℕ → ℕ → ℕ) × (blit t ≡ done (with_screen t s))
unfolding blit_by
blit-screen t r moved = elim (Dirty-cases t.dirty) [
  | inl one ↦
      let off : 0 < t.cursor_x = moved one in
      let x : ℕ = (t.cursor_x + 2 ^ 32 - 1) % 2 ^ 32 in
      let inside : x < t.chars_width = omega (arith, r.in_row, r.small_width) in
      let idx : ℕ = x + t.chars_width * t.cursor_y in
      (
        (draw (t.buffer idx) x (t.chars_height - 1) t).screen,
        blit_of t only_prev_char_affected one
            ∙ rw (index_buffer-done x t.cursor_y t inside r.on_screen),
      )
  | inr whole ↦
      let (s, draws) = blit_lines-screen t.chars_height 0 t r.some_width r.some_height in
      (s, blit_of t all_dirty whole ∙ draws)
]

pub not_only : (d : Dirty) → d ≡ all_dirty → d ≡ only_prev_char_affected → ⊥
not_only d e f = cc

-- What a step on a terminal leaves: the terminal ready and the keyboard's side alone.
pub record IsStep (t t' : Tty) : Type 0 where
  pub ready : IsReady t'
  pub same_buffer : t'.input_buffer ≡ t.input_buffer
  pub same_next : t'.next ≡ t.next
  pub same_mode : t'.canonical ≡ t.canonical

-- A new row, from a cursor in any column.
pub do_newline-IsStep :
    (t : Tty)
    → 0 < t.chars_width
    → 0 < t.chars_height
    → t.chars_width < 2 ^ 32
    → t.chars_height < 2 ^ 32
    → t.has_buffer ≡ true
    → (t' : Tty) × (do_newline t ≡ done t') × IsStep t t' × (t'.dirty ≡ all_dirty)
unfolding do_newline
do_newline-IsStep t w h sw sh ready =
    let y : ℕ = (t.cursor_y + 1) % 2 ^ 32 % t.chars_height in
    let on : y < t.chars_height = omega arith in
    let t₁ : Tty = record t { cursor_y = y; cursor_x = 0 } in
    (
      record (clear (0 + t.chars_width * y) t.chars_width t₁) { dirty = all_dirty },
      rw (index_buffer-done 0 y t₁ w on),
      record {
        ready = record {
          has_buffer = ready;
          some_width = w;
          some_height = h;
          small_width = sw;
          small_height = sh;
          in_row = w;
          on_screen = on;
        };
        same_buffer = refl;
        same_next = refl;
        same_mode = refl;
      },
      refl,
    )

pub blit-IsStep :
    (t t₀ : Tty)
    → IsStep t₀ t
    → (t.dirty ≡ only_prev_char_affected → 0 < t.cursor_x)
    → (t' : Tty) × (blit t ≡ done t') × IsStep t₀ t'
blit-IsStep t t₀ k moved =
    let r = k.ready in
    let (s, draws) = blit-screen t r moved in
    (
      with_screen t s,
      draws,
      record {
        ready = record {
          has_buffer = r.has_buffer;
          some_width = r.some_width;
          some_height = r.some_height;
          small_width = r.small_width;
          small_height = r.small_height;
          in_row = r.in_row;
          on_screen = r.on_screen;
        };
        same_buffer = k.same_buffer;
        same_next = k.same_next;
        same_mode = k.same_mode;
      },
    )

-- The terminal starts on a display of at least 16 by 16 pixels, and fewer than 2^36 each way,
-- without a halt, and is ready for characters.
pub initialise_tty-IsReady :
    (width height : ℕ) (t : Tty)
    → 16 ≤ width
    → 16 ≤ height
    → width < 2 ^ 36
    → height < 2 ^ 36
    → t.cursor_x ≡ 0
    → t.cursor_y ≡ 0
    → (t' : Tty) × (initialise_tty width height t ≡ done t') × IsReady t' × (t'.next ≡ t.next)
unfolding initialise_tty
initialise_tty-IsReady width height t w h sw sh x y =
    let t₁ : Tty = record t {
      chars_width = width / 16;
      chars_height = height / 16;
      has_buffer = true;
      dirty = all_dirty;
    } in
    let t₂ : Tty = clear 0 (width / 16 * (height / 16)) t₁ in
    let (t', draws, k) =
      blit-IsStep t₂ t₂
        (record {
          ready = record {
            has_buffer = refl;
            some_width = omega arith;
            some_height = omega arith;
            small_width = omega arith;
            small_height = omega arith;
            in_row = omega arith;
            on_screen = omega arith;
          };
          same_buffer = refl;
          same_next = refl;
          same_mode = refl;
        })
        (λ e. absurd (not_only all_dirty refl e)) in
    (t', draws, k.ready, k.same_next)
