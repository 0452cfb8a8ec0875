-- ===== src/Kernel/Keyboard/Ps2/Pause.antt =====
-- The pause key of the second scan code set.
use stuos.Prelude.{
  ℕ, suc, ◌+◌, ◌-◌, ◌*◌, ◌%◌, ◌^◌, ◌<◌, ◌≡◌, refl, true, false, ◌==◌, ◌!=◌, ◌||◌, arith, ◌∙◌, List,
  [], ◌∷◌, ◌++◌,
}
use stuos.Kernel.Outcome.{halted}
use stuos.Kernel.Tty.{Tty}
use stuos.Kernel.Keyboard.Ps2.{
  Keys, Ps2, second_byte, third_byte, parse_full_buffer, handle_byte, handle_incoming_byte,
}
use stuos.Kernel.Keyboard.Ps2.Decode.{ready}

-- What the keyboard sends for the pause key.
abbrev pub pause : List ℕ
pause = 0xe1 ∷ 0x14 ∷ 0x77 ∷ 0xe1 ∷ 0xf0 ∷ 0x14 ∷ 0xf0 ∷ 0x77 ∷ []

abbrev waiting : ℕ → ℕ → Keys → Ps2
waiting expected all_bytes k = record {
  expected_number_of_bytes = expected;
  buffer = all_bytes;
  keys = k;
}

abbrev shifted_in : ℕ → ℕ → ℕ
shifted_in all_bytes first = all_bytes * 2 ^ 8 % 2 ^ 64 + first

handle-plain :
    (first n all_bytes : ℕ) (k : Keys) (t : Tty) (rest : List ℕ)
    → first < 128
    → handle_incoming_byte (first ∷ rest) (waiting (suc (suc n)) all_bytes k) t
      ≡ handle_incoming_byte rest (waiting (suc n) (shifted_in all_bytes first) k) t
unfolding handle_incoming_byte handle_byte
handle-plain first n all_bytes k t rest lt =
    let no_prefix : (first == 0xe0 || first == 0xf0) ≡ false = ground arith in
    let not_e1 : (first == 0xe1) ≡ false = ground arith in
    let left : suc (suc n) - 1 ≡ suc n = omega arith in
    let more : (suc n == 0) ≡ false = ground arith in rw (no_prefix, not_e1, left, more) refl

parse-third :
    (all_bytes : ℕ) (k : Keys)
    → second_byte all_bytes < 128
    → third_byte all_bytes < 128
    → 0 < third_byte all_bytes
    → parse_full_buffer all_bytes k ≡ halted
unfolding parse_full_buffer
parse-third all_bytes k second third used =
    let none : (all_bytes == 0xe11477e1f014e077
          || all_bytes == 0xe012e07c
          || all_bytes == 0xe0f07ce0f012)
        ≡ false =
      ground arith in
    let not_e0 : (third_byte all_bytes == 0xe0) ≡ false = ground arith in
    let not_0 : (third_byte all_bytes != 0) ≡ true = ground arith in rw (none, not_e0, not_0) refl

handle-last :
    (first all_bytes : ℕ) (k : Keys) (t : Tty) (rest : List ℕ)
    → first < 128
    → parse_full_buffer (shifted_in all_bytes first) k ≡ halted
    → handle_incoming_byte (first ∷ rest) (waiting 1 all_bytes k) t ≡ halted
unfolding handle_incoming_byte handle_byte
handle-last first all_bytes k t rest lt halts =
    let no_prefix : (first == 0xe0 || first == 0xf0) ≡ false = ground arith in
    let not_e1 : (first == 0xe1) ≡ false = ground arith in rw (no_prefix, not_e1, halts) refl

after_pause :
    (k : Keys) (t : Tty) (rest : List ℕ)
    → handle_incoming_byte (pause ++ rest) (ready k) t
      ≡ handle_incoming_byte rest (waiting 4 0xe11477e1f014f077 k) t
unfolding handle_incoming_byte handle_byte
after_pause k t rest = refl

-- The pause key stops the machine: the driver takes its eight bytes for the start of a sequence of
-- twelve, and after any four key codes below 128, the second of them not 0, it halts, whatever is
-- held and whatever follows.
pub handle_incoming_byte-pause :
    (k : Keys) (t : Tty) (b₁ b₂ b₃ b₄ : ℕ) (rest : List ℕ)
    → b₁ < 128
    → 0 < b₂
    → b₂ < 128
    → b₃ < 128
    → b₄ < 128
    → handle_incoming_byte (pause ++ (b₁ ∷ b₂ ∷ b₃ ∷ b₄ ∷ rest)) (ready k) t ≡ halted
handle_incoming_byte-pause k t b₁ b₂ b₃ b₄ rest lt₁ used lt₂ lt₃ lt₄ =
    let all₁ = shifted_in 0xe11477e1f014f077 b₁ in
    let all₂ = shifted_in all₁ b₂ in
    let all₃ = shifted_in all₂ b₃ in
    let second : second_byte (shifted_in all₃ b₄) ≡ b₃ = omega arith in
    let third : third_byte (shifted_in all₃ b₄) ≡ b₂ = omega arith in
    after_pause k t (b₁ ∷ b₂ ∷ b₃ ∷ b₄ ∷ rest)
    ∙ handle-plain b₁ 2 0xe11477e1f014f077 k t (b₂ ∷ b₃ ∷ b₄ ∷ rest) lt₁
    ∙ handle-plain b₂ 1 all₁ k t (b₃ ∷ b₄ ∷ rest) lt₂
    ∙ handle-plain b₃ 0 all₂ k t (b₄ ∷ rest) lt₃
    ∙ handle-last b₄ all₃ k t rest lt₄ (
        parse-third (shifted_in all₃ b₄) k (omega (arith, second)) (omega (arith, third))
          (omega (arith, third)))
