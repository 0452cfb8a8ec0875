-- ===== src/Kernel/Tty/Keyboard.antt =====
-- `tty_provide_stdin`: a key adds a character to the input or takes one back.
use stuos.Prelude.{
  ℕ, ◌+◌, ◌-◌, ◌≤◌, ◌<◌, ◌≡◌, ◌≢◌, refl, sym, true, false, ◌==◌, ◌&&◌, if◌then◌else◌, List, [], ◌∷◌,
  ◌++◌, length, arith, ◌∙◌, ap, Bool-cases, inl, inr, Option, none, some, length-append,
}
use stuos.Kernel.Outcome.{done, halted}
use stuos.Kernel.Tty.{
  Tty, take_key, tty_provide_stdin, write_from_multiple_sources, input_buf_length,
}
use stuos.Kernel.Tty.Cursor.{IsReady}
use stuos.Kernel.Tty.Put.{write_from_multiple_sources-IsStep}
use stuos.Kernel.Tty.Queue.{
  Holds, HasInput, without_last, typed, Holds-move, Holds-append, length-without_last,
  Holds-without_last,
}

-- What a key comes to, by the input that it leaves.
abbrev pub Provided : ℕ → Tty → Option (List ℕ) → Type 0
Provided x t none = tty_provide_stdin x t ≡ halted
Provided x t (some q) = (t' : Tty) × (tty_provide_stdin x t ≡ done t') × IsReady t' × HasInput t' q

provide_of :
    (x : ℕ) (t t₁ : Tty)
    → 0 < x
    → write_from_multiple_sources x true t ≡ done t₁
    → tty_provide_stdin x t ≡ take_key x t₁
unfolding tty_provide_stdin
provide_of x t t₁ pos e = let some_key : (x == 0) ≡ false = ground arith in rw (some_key, e)

-- A key without a character.
pub tty_provide_stdin-nothing : (t : Tty) → tty_provide_stdin 0 t ≡ done t
unfolding tty_provide_stdin
tty_provide_stdin-nothing t = refl

take_key-same_mode : (x : ℕ) (t t' : Tty) → take_key x t ≡ done t' → t'.canonical ≡ t.canonical
unfolding take_key
take_key-same_mode x t t' e = ground arith

-- A key leaves the mode of the terminal.
pub tty_provide_stdin-same_mode :
    (x : ℕ) (t t' : Tty)
    → 0 < x
    → IsReady t
    → tty_provide_stdin x t ≡ done t'
    → t'.canonical ≡ t.canonical
tty_provide_stdin-same_mode x t t' pos r e =
    let (t₁, writes, k) = write_from_multiple_sources-IsStep x true t r in
    take_key-same_mode x t₁ t' (sym (provide_of x t t₁ pos writes) ∙ e) ∙ k.same_mode

IsReady-input :
    (t : Tty) (f : ℕ → ℕ) (n : ℕ) → IsReady t → IsReady (record t { input_buffer = f; next = n })
IsReady-input t f n r = record {
  has_buffer = r.has_buffer;
  some_width = r.some_width;
  some_height = r.some_height;
  small_width = r.small_width;
  small_height = r.small_height;
  in_row = r.in_row;
  on_screen = r.on_screen;
}

take_back :
    (x : ℕ) (t : Tty) (q : List ℕ)
    → (x == 8 && t.canonical) ≡ true
    → IsReady t
    → HasInput t q
    → (t' : Tty) × (take_key x t ≡ done t') × IsReady t' × HasInput t' (without_last q)
unfolding take_key
take_back x t q back r h =
    let left : t.next - 1 ≡ length (without_last q) =
      omega (arith, h.count, length-without_last q) in
    let bytes = Holds-without_last t.input_buffer 0 q h.bytes in
    let fits : length (without_last q) ≤ input_buf_length =
      omega (arith, h.fits, length-without_last q) in
    elim (Bool-cases (t.next == 0)) [
      | inl nothing ↦
          let same : t.next ≡ length (without_last q) = ground (arith, left) in
          (t, simp (back, nothing), r, record { count = same; fits = fits; bytes = bytes })
      | inr some_input ↦ (
        record t { next = t.next - 1 },
        simp (back, some_input),
        IsReady-input t t.input_buffer (t.next - 1) r,
        record { count = left; fits = fits; bytes = bytes },
      )
    ]

take_char :
    (x : ℕ) (t : Tty) (q : List ℕ)
    → (x == 8 && t.canonical) ≡ false
    → length q ≢ input_buf_length
    → IsReady t
    → HasInput t q
    → (t' : Tty) × (take_key x t ≡ done t') × IsReady t' × HasInput t' (q ++ (x ∷ []))
unfolding take_key
take_char x t q char room r h =
    let not_full : (t.next == input_buf_length) ≡ false = ground (arith, h.count) in
    let f : ℕ → ℕ = λ i. if i == t.next then x else t.input_buffer i in
    let old : Holds f 0 q =
      Holds-move t.input_buffer f 0 0 q h.bytes
        (λ a b e lo hi. kept a b e (omega (arith, h.count))) in
    let new : f (0 + length q) ≡ x = ground (arith, h.count) in
    (
      record t { input_buffer = f; next = t.next + 1 },
      simp (char, not_full),
      IsReady-input t f (t.next + 1) r,
      record {
        count = omega (arith, h.count, length-append q (x ∷ []));
        fits = omega (arith, h.fits, length-append q (x ∷ []));
        bytes = Holds-append f 0 q x old new;
      },
    )
  where
    kept :
        (a b : ℕ)
        → a + 0 ≡ b + 0
        → a < t.next
        → (if b == t.next then x else t.input_buffer b) ≡ t.input_buffer a
    kept a b e lt =
        let same : b ≡ a = omega arith in
        let other : (b == t.next) ≡ false = ground arith in rw other (ap t.input_buffer same)

take_full :
    (x : ℕ) (t : Tty) (q : List ℕ)
    → (x == 8 && t.canonical) ≡ false
    → length q ≡ input_buf_length
    → HasInput t q
    → take_key x t ≡ halted
unfolding take_key
take_full x t q char full h =
    let is_full : (t.next == input_buf_length) ≡ true = ground (arith, h.count) in
    simp (char, is_full)

-- A key other than 0 on a ready terminal with the input `q` waiting, of at most 1000 characters:
-- a backspace in the line mode takes the last character of `q` back, newline or not; any other
-- key adds its character behind `q`, and halts the machine exactly when `q` has 1000 characters.
-- The terminal is ready again.
pub tty_provide_stdin-Provided :
    (x : ℕ) (t : Tty) (q : List ℕ)
    → 0 < x
    → IsReady t
    → HasInput t q
    → Provided x t (typed x t.canonical q)
tty_provide_stdin-Provided x t q pos r h =
    let (t₁, writes, k) = write_from_multiple_sources-IsStep x true t r in
    let h₁ : HasInput t₁ q = record {
      count = k.same_next ∙ h.count;
      fits = h.fits;
      bytes = rw k.same_buffer h.bytes;
    } in
    let provides = provide_of x t t₁ pos writes in
    elim (Bool-cases (x == 8 && t.canonical)) [
      | inl back ↦
          let (t', takes, r', h') =
            take_back x t₁ q (ap (λ b. x == 8 && b) k.same_mode ∙ back) k.ready h₁ in
          rw back (t', provides ∙ takes, r', h')
      | inr char ↦
          let char₁ = ap (λ b. x == 8 && b) k.same_mode ∙ char in
          elim (Bool-cases (length q == input_buf_length)) [
            | inl full ↦
                rw (char, full) (provides ∙ take_full x t₁ q char₁ (ground (arith, full)) h₁)
            | inr room ↦
                let (t', takes, r', h') =
                  take_char x t₁ q char₁ (λ e. not_full e room) k.ready h₁ in
                rw (char, room) (t', provides ∙ takes, r', h')
          ]
    ]
  where
    not_full : length q ≡ input_buf_length → (length q == input_buf_length) ≡ false → ⊥
    not_full e f = ground arith
