-- ===== src/Kernel/Files/Refill.antt =====
-- What `pipe_write` leaves at the other end.
use stuos.Prelude.{
  ℕ, zero, suc, ◌+◌, ◌-◌, ◌%◌, ◌^◌, ◌<◌, ◌≡◌, refl, true, false, ◌==◌, ltb, if◌then◌else◌, arith,
  ◌∙◌, sym, ap, subst, List, [], ◌∷◌, ◌++◌, length, take, drop, length-append, some,
}
use stuos.Kernel.Outcome.{Outcome, done, halted, ◌>>=◌}
use stuos.Kernel.Files.{
  PipeEnd, Side, left, right, opposite, Pipe, put_end, Written, pipe_write, pipe_read,
}

-- Writes one after the other: the pipe behind them, if none wrote past its buffer.
abbrev pub kept : Outcome Written → Outcome Pipe
kept halted = halted
kept (done w) = elim w.past_end [ [] ↦ done w.pipe | b ∷ bs ↦ halted ]

pub pipe_writes : Side → List (List ℕ) → Pipe → Outcome Pipe
pipe_writes side [] p = done p
pipe_writes side (output ∷ rest) p =
    kept (pipe_write (some side) output p) >>= pipe_writes side rest

abbrev pub concat : List (List ℕ) → List ℕ
concat [] = []
concat (xs ∷ xss) = xs ++ concat xss

-- Both ends are open and nothing was read from the end opposite to `side`, which holds `bytes`.
pub record IsUnread (side : Side) (bytes : List ℕ) (p : Pipe) : Type 0 where
  pub here : (p side).connected ≡ true
  pub there : (p (opposite side)).connected ≡ true
  pub holds : (p (opposite side)).buffer ≡ bytes
  pub unread : (p (opposite side)).reader_next_byte ≡ 0

pub take_all : (xs : List ℕ) (n : ℕ) → n ≡ length xs → take n xs ≡ xs
take_all [] zero e = refl
take_all [] (suc n) e = absurd (omega (arith, e))
take_all (x ∷ xs) zero e = absurd (omega (arith, e))
take_all (x ∷ xs) (suc n) e = ap (λ r. x ∷ r) (take_all xs n (omega (arith, e)))

drop_all : (xs : List ℕ) (n : ℕ) → n ≡ length xs → drop n xs ≡ []
drop_all [] zero e = refl
drop_all [] (suc n) e = refl
drop_all (x ∷ xs) zero e = absurd (omega (arith, e))
drop_all (x ∷ xs) (suc n) e = drop_all xs n (omega (arith, e))

kept-done :
    (num : ℕ) (past : List ℕ) (p : Pipe)
    → past ≡ []
    → kept (done (record { num = num; past_end = past; pipe = p })) ≡ done p
kept-done num [] p e = refl
kept-done num (b ∷ bs) p e = absurd (clash (ap length e))
  where
    clash : suc (length bs) ≡ 0 → ⊥
    clash e = omega (arith, e)

-- The end that `pipe_write` leaves.
abbrev refilled : PipeEnd → List ℕ → PipeEnd
refilled e output = record e {
  buffer =
      take ((length output + length e.buffer + 2 ^ 64 - e.reader_next_byte) % 2 ^ 64)
        (e.buffer ++ output);
  reader_next_byte = 0;
}

abbrev overrun : PipeEnd → List ℕ → List ℕ
overrun e output =
    drop ((length output + length e.buffer + 2 ^ 64 - e.reader_next_byte) % 2 ^ 64)
      (e.buffer ++ output)

pub pipe_write-open :
    (side : Side) (output : List ℕ) (p : Pipe)
    → (p side).connected ≡ true
    → pipe_write (some side) output p
      ≡ done (record {
        num = length output;
        past_end = overrun (p (opposite side)) output;
        pipe = put_end (opposite side) (refilled (p (opposite side)) output) p;
      })
unfolding pipe_write
pipe_write-open side output p here = rw here refl

pub put_end-same : (side : Side) (e : PipeEnd) (p : Pipe) → put_end side e p side ≡ e
put_end-same left e p = refl
put_end-same right e p = refl

pub put_end-other :
    (side : Side) (e : PipeEnd) (p : Pipe) → put_end (opposite side) e p side ≡ p side
put_end-other left e p = refl
put_end-other right e p = refl

refilled-unread :
    (e : PipeEnd) (output : List ℕ)
    → e.reader_next_byte ≡ 0
    → length e.buffer + length output < 2 ^ 64
    → (length output + length e.buffer + 2 ^ 64 - e.reader_next_byte) % 2 ^ 64
      ≡ length (e.buffer ++ output)
refilled-unread e output unread small = omega (arith, unread, small, length-append e.buffer output)

pipe_write-IsUnread :
    (side : Side) (bytes output : List ℕ) (p : Pipe)
    → IsUnread side bytes p
    → length bytes + length output < 2 ^ 64
    → (p' : Pipe) × (kept (pipe_write (some side) output p) ≡ done p')
      × IsUnread side (bytes ++ output) p'
pipe_write-IsUnread side bytes output p u small =
    let e = p (opposite side) in
    let size = refilled-unread e output u.unread (omega (arith, small, ap length u.holds)) in
    let new = refilled e output in
    (
      put_end (opposite side) new p,
      ap kept (pipe_write-open side output p u.here)
          ∙ kept-done (length output) (overrun e output) (put_end (opposite side) new p)
              (drop_all (e.buffer ++ output) _ size),
      record {
        here = ap (λ x. x.connected) (put_end-other side new p) ∙ u.here;
        there = ap (λ x. x.connected) (put_end-same (opposite side) new p) ∙ u.there;
        holds =
            ap (λ x. x.buffer) (put_end-same (opposite side) new p)
            ∙ take_all (e.buffer ++ output) _ size
            ∙ ap (λ xs. xs ++ output) u.holds;
        unread = ap (λ x. x.reader_next_byte) (put_end-same (opposite side) new p);
      },
    )

append_nil : (xs : List ℕ) → xs ++ [] ≡ xs
append_nil [] = refl
append_nil (x ∷ xs) = ap (λ r. x ∷ r) (append_nil xs)

append_assoc : (xs ys zs : List ℕ) → (xs ++ ys) ++ zs ≡ xs ++ (ys ++ zs)
append_assoc [] ys zs = refl
append_assoc (x ∷ xs) ys zs = ap (λ r. x ∷ r) (append_assoc xs ys zs)

pub pipe_writes-IsUnread :
    (side : Side) (outputs : List (List ℕ)) (bytes : List ℕ) (p : Pipe)
    → IsUnread side bytes p
    → length bytes + length (concat outputs) < 2 ^ 64
    → (p' : Pipe) × (pipe_writes side outputs p ≡ done p')
      × IsUnread side (bytes ++ concat outputs) p'
unfolding pipe_writes
pipe_writes-IsUnread side [] bytes p u small =
    (p, refl, subst (λ xs. IsUnread side xs p) (sym (append_nil bytes)) u)
pipe_writes-IsUnread side (output ∷ rest) bytes p u small =
    let all = length-append output (concat rest) in
    let (p₁, e₁, u₁) = pipe_write-IsUnread side bytes output p u (omega (arith, small, all)) in
    let (p₂, e₂, u₂) =
      pipe_writes-IsUnread side rest (bytes ++ output) p₁ u₁
        (omega (arith, small, all, length-append bytes output)) in
    (
      p₂,
      ap (λ o. o >>= pipe_writes side rest) e₁ ∙ e₂,
      subst (λ xs. IsUnread side xs p₂) (append_assoc bytes output (concat rest)) u₂,
    )

pub pipe_read-waiting :
    (side : Side) (num n : ℕ) (p : Pipe)
    → (p side).connected ≡ true
    → 0 < num
    → (if ltb num ((length (p side).buffer + 2 ^ 64 - (p side).reader_next_byte) % 2 ^ 64)
        then num
        else (length (p side).buffer + 2 ^ 64 - (p side).reader_next_byte) % 2 ^ 64)
      ≡ suc n
    → pipe_read (some side) num p
      ≡ done (
        record { read_something = true; bytes = take (suc n) (p side).buffer },
        put_end side
            (record (p side) { reader_next_byte = ((p side).reader_next_byte + suc n) % 2 ^ 64 })
            p,
      )
unfolding pipe_read
pipe_read-waiting side num n p here some_num count =
    let nz : (num == 0) ≡ false = ground arith in
    let nz' : (suc n == 0) ≡ false = ground arith in simp (here, nz, count, nz') refl
