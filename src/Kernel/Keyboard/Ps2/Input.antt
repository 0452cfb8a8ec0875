-- ===== src/Kernel/Keyboard/Ps2/Input.antt =====
-- Key events and the input that waits at the terminal, ps2_driver.c and tty.c of stuos/src.
use stuos.Prelude.{
  ℕ, ◌<◌, ◌≡◌, refl, ◌∙◌, ap, subst, sym, Bool, ◌==◌, if◌then◌else◌, arith, Bool-cases, inl, inr,
  Option, none, some, List, [], ◌∷◌,
}
use stuos.Kernel.Outcome.{Outcome, done, halted, ◌>>=◌}
use stuos.Kernel.Tty.{Tty, tty_provide_stdin}
use stuos.Kernel.Tty.Cursor.{IsReady}
use stuos.Kernel.Tty.Queue.{HasInput, typed}
use stuos.Kernel.Tty.Keyboard.{
  Provided, tty_provide_stdin-Provided, tty_provide_stdin-nothing, tty_provide_stdin-same_mode,
}
use stuos.Kernel.Keyboard.Ps2.{Ps2, Keys, handle_incoming_byte}
use stuos.Kernel.Keyboard.Ps2.Decode.{
  KeyEvent, AllPlain, press_all, provide_all, ready, sequences, handle_incoming_byte-sequences,
}

abbrev pub after : Option (List ℕ) → (List ℕ → Option (List ℕ)) → Option (List ℕ)
after none f = none
after (some q) f = f q

-- The input behind some characters, 0 for a key without one; none once a character finds it full.
abbrev pub entered : List ℕ → Bool → List ℕ → Option (List ℕ)
entered [] canonical q = some q
entered (c ∷ cs) canonical q =
    if c == 0 then entered cs canonical q else after (typed c canonical q) (entered cs canonical)

-- What the terminal comes to, by the input that it holds in the end.
abbrev IsSupplied : Outcome Tty → Option (List ℕ) → Type 0
IsSupplied o none = o ≡ halted
IsSupplied o (some q) = (t : Tty) × (o ≡ done t) × IsReady t × HasInput t q

-- What the driver and the terminal come to.
abbrev pub IsEntered : Outcome (Ps2 × Tty) → Ps2 → Option (List ℕ) → Type 0
IsEntered o s none = o ≡ halted
IsEntered o s (some q) = (t : Tty) × (o ≡ done (s, t)) × IsReady t × HasInput t q

IsSupplied-next :
    (c : ℕ) (cs : List ℕ) (t : Tty) (o : Option (List ℕ))
    → Provided c t o
    → ((t' : Tty) → tty_provide_stdin c t ≡ done t' → t'.canonical ≡ t.canonical)
    → ((t' : Tty) (q : List ℕ)
        → IsReady t'
        → HasInput t' q
        → IsSupplied (provide_all cs t') (entered cs t'.canonical q))
    → IsSupplied (tty_provide_stdin c t >>= provide_all cs) (after o (entered cs t.canonical))
IsSupplied-next c cs t none p mode rest = rw p refl
IsSupplied-next c cs t (some q) (t', e, r, h) mode rest =
    subst (λ o. IsSupplied (o >>= provide_all cs) (entered cs t.canonical q)) (sym e)
      (subst (λ b. IsSupplied (provide_all cs t') (entered cs b q)) (mode t' e) (rest t' q r h))

provide_all-IsSupplied :
    (cs : List ℕ) (t : Tty) (q : List ℕ)
    → IsReady t
    → HasInput t q
    → IsSupplied (provide_all cs t) (entered cs t.canonical q)
provide_all-IsSupplied [] t q r h = (t, refl, r, h)
provide_all-IsSupplied (c ∷ cs) t q r h = elim (Bool-cases (c == 0)) [
  | inl nothing ↦
      let zero_key : c ≡ 0 = ground arith in
      let kept = ap (λ x. tty_provide_stdin x t) zero_key ∙ tty_provide_stdin-nothing t in
      rw nothing (
        subst (λ o. IsSupplied (o >>= provide_all cs) (entered cs t.canonical q)) (sym kept)
          (provide_all-IsSupplied cs t q r h))
  | inr some_key ↦
      let pos : 0 < c = ground arith in
      rw some_key (
        IsSupplied-next c cs t (typed c t.canonical q) (tty_provide_stdin-Provided c t q pos r h)
          (λ t' e. tty_provide_stdin-same_mode c t t' pos r e)
          (λ t' q' r' h'. provide_all-IsSupplied cs t' q' r' h'))
]

IsSupplied-IsEntered :
    (o : Outcome Tty) (s : Ps2) (q : Option (List ℕ))
    → IsSupplied o q
    → IsEntered (o >>= λ t. done (s, t)) s q
IsSupplied-IsEntered o s none e = rw e refl
IsSupplied-IsEntered o s (some q) (t, e, r, h) = (t, rw e refl, r, h)

-- The bytes of any key events with codes below 128, sent between two events to a ready terminal
-- with the input `q` waiting: each character that the events type, in turn, is put behind the
-- input, or takes its last character back if it is a backspace in the line mode. The machine halts
-- exactly if a character finds 1000 others waiting; else the terminal is ready again with that
-- input, and shift and caps lock are as the events leave them.
pub handle_incoming_byte-IsEntered :
    (es : List KeyEvent) (k : Keys) (t : Tty) (q : List ℕ)
    → AllPlain es
    → IsReady t
    → HasInput t q
    → IsEntered
        (handle_incoming_byte (sequences es) (ready k) t)
        (ready (press_all es k).1)
        (entered (press_all es k).0 t.canonical q)
handle_incoming_byte-IsEntered es k t q plain r h =
    subst (λ o. IsEntered o (ready (press_all es k).1) (entered (press_all es k).0 t.canonical q))
      (sym (handle_incoming_byte-sequences es k t plain))
      (IsSupplied-IsEntered (provide_all (press_all es k).0 t) (ready (press_all es k).1)
        (entered (press_all es k).0 t.canonical q)
        (provide_all-IsSupplied (press_all es k).0 t q r h))
