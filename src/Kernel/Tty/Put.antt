-- ===== src/Kernel/Tty/Put.antt =====
-- `write_from_multiple_sources` on a terminal that is ready.
use stuos.Prelude.{
  false, ℕ, ◌+◌, ◌-◌, ◌*◌, ◌%◌, ◌^◌, ◌≤◌, ◌<◌, ◌≡◌, refl, Bool, true, ◌==◌, leb, ◌&&◌,
  if◌then◌else◌, arith, ◌∙◌, Bool-cases, inl, inr,
}
use stuos.Kernel.Outcome.{Outcome, done}
use stuos.Kernel.Tty.{
  Tty, only_prev_char_affected, all_dirty, blit, clear, do_newline, erase, fresh_row, put_char,
  write_from_multiple_sources, tty_write_char,
}
use stuos.Kernel.Tty.Cursor.{
  IsReady, IsStep, index_buffer-done, do_newline-IsStep, blit-IsStep, not_only,
}

fresh_row-kept :
    (t : Tty) → IsReady t → (cells : ℕ → ℕ) × (fresh_row t ≡ done (record t { buffer = cells }))
unfolding fresh_row
fresh_row-kept t r = elim (Bool-cases (t.cursor_x == 0)) [
  | inl first ↦
      let idx : ℕ = t.cursor_x + t.chars_width * t.cursor_y in
      (
        (clear idx t.chars_width t).buffer,
        simp (first, index_buffer-done t.cursor_x t.cursor_y t r.in_row r.on_screen),
      )
  | inr later ↦ (t.buffer, simp later)
]

-- The terminal with the character put and the cursor not moved yet.
abbrev placed : ℕ → Bool → (ℕ → ℕ) → Tty → Tty
placed c is_from_keyboard cells t = record t {
  buffer = λ i. if i == t.cursor_x + t.chars_width * t.cursor_y then c else cells i;
  current_run = if is_from_keyboard then t.current_run + 1 else 0;
}

-- The cursor moves behind the character, to a new row where this one is full.
abbrev moved : ℕ → Tty → Outcome Tty
moved c t₂ =
    if c == 10
    then do_newline (record t₂ { current_run = 0 })
    else done (record t₂ { cursor_x = (t₂.cursor_x + 1) % 2 ^ 32; dirty = only_prev_char_affected })

abbrev wrapped : Tty → Outcome Tty
wrapped t₃ = if t₃.cursor_x == t₃.chars_width then do_newline t₃ else done t₃

abbrev settled : Tty → Tty
settled t₄ = record t₄ { cursor_y = t₄.cursor_y % t₄.chars_height }

put_char-steps :
    (c : ℕ) (k : Bool) (t : Tty) (cells : ℕ → ℕ) (t₃ t₄ : Tty)
    → IsReady t
    → fresh_row t ≡ done (record t { buffer = cells })
    → moved c (placed c k cells t) ≡ done t₃
    → wrapped t₃ ≡ done t₄
    → put_char c k t ≡ blit (settled t₄)
unfolding put_char
put_char-steps c k t cells t₃ t₄ r fresh moves wraps = simp (
  fresh,
  index_buffer-done t.cursor_x t.cursor_y (record t { buffer = cells }) r.in_row r.on_screen,
  moves,
  wraps,
)

-- A step whose terminal can be drawn.
abbrev IsDrawable : Tty → Tty → Type 0
IsDrawable t t' = IsStep t t' × (t'.dirty ≡ only_prev_char_affected → 0 < t'.cursor_x)

-- A terminal with the cursor on the screen or right behind a row, as a change of `t`.
record IsBehind (t t' : Tty) : Type 0 where
  has_buffer : t'.has_buffer ≡ true
  some_width : 0 < t'.chars_width
  some_height : 0 < t'.chars_height
  small_width : t'.chars_width < 2 ^ 32
  small_height : t'.chars_height < 2 ^ 32
  near_row : t'.cursor_x ≤ t'.chars_width
  on_screen : t'.cursor_y < t'.chars_height
  drawable : t'.dirty ≡ only_prev_char_affected → 0 < t'.cursor_x
  same_buffer : t'.input_buffer ≡ t.input_buffer
  same_next : t'.next ≡ t.next
  same_mode : t'.canonical ≡ t.canonical

moved-IsBehind :
    (c : ℕ) (k : Bool) (t : Tty) (cells : ℕ → ℕ)
    → IsReady t
    → (t₃ : Tty) × (moved c (placed c k cells t) ≡ done t₃) × IsBehind t t₃
moved-IsBehind c k t cells r = elim (Bool-cases (c == 10)) [
  | inl newline ↦
      let (t₃, moves, j, d) =
        do_newline-IsStep (record (placed c k cells t) { current_run = 0 }) r.some_width
          r.some_height r.small_width r.small_height r.has_buffer in
      (
        t₃,
        rw newline moves,
        record {
          has_buffer = j.ready.has_buffer;
          some_width = j.ready.some_width;
          some_height = j.ready.some_height;
          small_width = j.ready.small_width;
          small_height = j.ready.small_height;
          near_row = omega (arith, j.ready.in_row);
          on_screen = j.ready.on_screen;
          drawable = λ e. absurd (not_only t₃.dirty d e);
          same_buffer = j.same_buffer;
          same_next = j.same_next;
          same_mode = j.same_mode;
        },
      )
  | inr other ↦ (
    record (placed c k cells t) {
      cursor_x = (t.cursor_x + 1) % 2 ^ 32;
      dirty = only_prev_char_affected;
    },
    rw other,
    record {
      has_buffer = r.has_buffer;
      some_width = r.some_width;
      some_height = r.some_height;
      small_width = r.small_width;
      small_height = r.small_height;
      near_row = omega (arith, r.in_row, r.small_width);
      on_screen = r.on_screen;
      drawable = λ e. omega (arith, r.in_row, r.small_width);
      same_buffer = refl;
      same_next = refl;
      same_mode = refl;
    },
  )
]

wrapped-IsDrawable :
    (t t₃ : Tty) → IsBehind t t₃ → (t₄ : Tty) × (wrapped t₃ ≡ done t₄) × IsDrawable t t₄
wrapped-IsDrawable t t₃ b = elim (Bool-cases (t₃.cursor_x == t₃.chars_width)) [
  | inl full ↦
      let (t₄, turns, j, d) =
        do_newline-IsStep t₃ b.some_width b.some_height b.small_width b.small_height b.has_buffer in
      (
        t₄,
        rw full turns,
        (
          record {
            ready = j.ready;
            same_buffer = j.same_buffer ∙ b.same_buffer;
            same_next = j.same_next ∙ b.same_next;
            same_mode = j.same_mode ∙ b.same_mode;
          },
          λ e. absurd (not_only t₄.dirty d e),
        ),
      )
  | inr room ↦ (
    t₃,
    rw room,
    (
      record {
        ready = record {
          has_buffer = b.has_buffer;
          some_width = b.some_width;
          some_height = b.some_height;
          small_width = b.small_width;
          small_height = b.small_height;
          in_row = ground (arith, b.near_row);
          on_screen = b.on_screen;
        };
        same_buffer = b.same_buffer;
        same_next = b.same_next;
        same_mode = b.same_mode;
      },
      b.drawable,
    ),
  )
]

settled-IsDrawable : (t t₄ : Tty) → IsDrawable t t₄ → IsDrawable t (settled t₄)
settled-IsDrawable t t₄ (k, d) =
    let r = k.ready in
    (
      record {
        ready = record {
          has_buffer = r.has_buffer;
          some_width = r.some_width;
          some_height = r.some_height;
          small_width = r.small_width;
          small_height = r.small_height;
          in_row = r.in_row;
          on_screen = omega (arith, r.some_height);
        };
        same_buffer = k.same_buffer;
        same_next = k.same_next;
        same_mode = k.same_mode;
      },
      d,
    )

put_char-IsStep :
    (c : ℕ) (k : Bool) (t : Tty) → IsReady t → (t' : Tty) × (put_char c k t ≡ done t') × IsStep t t'
put_char-IsStep c k t r =
    let (cells, fresh) = fresh_row-kept t r in
    let (t₃, moves, b) = moved-IsBehind c k t cells r in
    let (t₄, wraps, d) = wrapped-IsDrawable t t₃ b in
    let (step, drawable) = settled-IsDrawable t t₄ d in
    let (t', draws, s) = blit-IsStep (settled t₄) t step drawable in
    (t', put_char-steps c k t cells t₃ t₄ r fresh moves wraps ∙ draws, s)

IsStep-refl : (t : Tty) → IsReady t → IsStep t t
IsStep-refl t r = record { ready = r; same_buffer = refl; same_next = refl; same_mode = refl }

erase-IsStep : (t : Tty) → IsReady t → (t' : Tty) × (erase t ≡ done t') × IsStep t t'
unfolding erase
erase-IsStep t r = elim (Bool-cases (t.current_run == 0)) [
  | inl nothing ↦ (t, rw nothing, IsStep-refl t r)
  | inr typed ↦
      let y =
        if t.cursor_x == 0
        then if t.cursor_y == 0 then t.chars_height - 1 else t.cursor_y - 1
        else t.cursor_y in
      let x = if t.cursor_x == 0 then t.chars_width - 1 else t.cursor_x - 1 in
      let hx : x < t.chars_width = ground (arith, r.in_row, r.some_width) in
      let hy : y < t.chars_height = ground (arith, r.on_screen, r.some_height) in
      let t₁ : Tty = record t { current_run = t.current_run - 1; cursor_x = x; cursor_y = y } in
      let t₂ : Tty = record (clear (x + t.chars_width * y) 1 t₁) { dirty = all_dirty } in
      let (t', draws, s) =
        blit-IsStep t₂ t
          (record {
            ready = record {
              has_buffer = r.has_buffer;
              some_width = r.some_width;
              some_height = r.some_height;
              small_width = r.small_width;
              small_height = r.small_height;
              in_row = hx;
              on_screen = hy;
            };
            same_buffer = refl;
            same_next = refl;
            same_mode = refl;
          })
          (λ e. absurd (not_only all_dirty refl e)) in
      (t', rw (typed, index_buffer-done x y t₁ hx hy) draws, s)
]

-- A character written to a terminal that is initialised, its cursor on the screen, with at least
-- one column and one row and fewer than 2^32 of each, never halts the machine, whatever the
-- character, its source and the mode: every index into the buffer is in range. It leaves the
-- cursor on the screen and the keyboard's input as it was.
pub write_from_multiple_sources-IsStep :
    (byte : ℕ) (is_from_keyboard : Bool) (t : Tty)
    → IsReady t
    → (t' : Tty) × (write_from_multiple_sources byte is_from_keyboard t ≡ done t') × IsStep t t'
unfolding write_from_multiple_sources
write_from_multiple_sources-IsStep byte k t r =
    let c = if leb 128 byte then 63 else byte in
    elim (Bool-cases (c == 8 && k && t.canonical)) [
      | inl back ↦ let (t', steps, s) = erase-IsStep t r in (t', simp (r.has_buffer, back) steps, s)
      | inr char ↦
          let (t', steps, s) = put_char-IsStep c k t r in (t', simp (r.has_buffer, char) steps, s)
    ]

pub tty_write_char-IsStep :
    (c : ℕ) (t : Tty) → IsReady t → (t' : Tty) × (tty_write_char c t ≡ done t') × IsStep t t'
unfolding tty_write_char
tty_write_char-IsStep c t r = write_from_multiple_sources-IsStep c false t r
