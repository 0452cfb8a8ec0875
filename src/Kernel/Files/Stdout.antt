-- ===== src/Kernel/Files/Stdout.antt =====
-- `stdout_write` on the terminal.
use stuos.Prelude.{ℕ, ◌≡◌, refl, false, ◌∙◌, ap, List, [], ◌∷◌, length}
use stuos.Kernel.Outcome.{done, ◌>>=◌}
use stuos.Kernel.Tty.{Tty}
use stuos.Kernel.Tty.Cursor.{IsReady, IsStep}
use stuos.Kernel.Tty.Put.{tty_write_char-IsStep}
use stuos.Kernel.Files.{write_chars, stdout_write}

IsStep-refl : (t : Tty) → IsReady t → IsStep t t
IsStep-refl t r = record { ready = r; same_buffer = refl; same_next = refl; same_mode = refl }

IsStep-trans : (a b c : Tty) → IsStep a b → IsStep b c → IsStep a c
IsStep-trans a b c s u = record {
  ready = u.ready;
  same_buffer = u.same_buffer ∙ s.same_buffer;
  same_next = u.same_next ∙ s.same_next;
  same_mode = u.same_mode ∙ s.same_mode;
}

write_chars-IsStep :
    (output : List ℕ) (t : Tty)
    → IsReady t
    → (t' : Tty) × (write_chars output t ≡ done t') × IsStep t t'
unfolding write_chars
write_chars-IsStep [] t r = (t, refl, IsStep-refl t r)
write_chars-IsStep (c ∷ output) t r =
    let (t₁, e₁, s₁) = tty_write_char-IsStep c t r in
    let (t₂, e₂, s₂) = write_chars-IsStep output t₁ s₁.ready in
    (t₂, ap (λ o. o >>= write_chars output) e₁ ∙ e₂, IsStep-trans t t₁ t₂ s₁ s₂)

-- `stdout_write` of any bytes to a terminal that is ready never halts the machine, reports all of
-- them written, and leaves the terminal ready and the keyboard's input as it was.
pub stdout_write-IsStep :
    (output : List ℕ) (t : Tty)
    → IsReady t
    → (t' : Tty) × (stdout_write false output t ≡ done (length output, t')) × IsStep t t'
unfolding stdout_write
stdout_write-IsStep output t r =
    let (t', e, s) = write_chars-IsStep output t r in
    (t', ap (λ o. o >>= λ t'. done (length output, t')) e, s)
