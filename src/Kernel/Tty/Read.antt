-- ===== src/Kernel/Tty/Read.antt =====
-- `tty_read`: the first line of the input is copied out.
use stuos.Prelude.{
  ℕ, ◌+◌, ◌-◌, ◌≤◌, ◌<◌, ◌≡◌, refl, true, false, ◌==◌, ltb, leb, ◌&&◌, if◌then◌else◌, List, length,
  take, drop, arith, ◌∙◌, ap, dec_lt, length-take, length-drop,
}
use stuos.Libc.Memory.{Ptr, Memory}
use stuos.Kernel.Outcome.{done}
use stuos.Kernel.Tty.{
  Tty, find_newline_loop, find_newline_in_input_buffer, copy_out, shuffle_down, tty_read,
}
use stuos.Kernel.Tty.Queue.{
  Holds, HasInput, first_line, Holds-move, Holds-take, Holds-drop, first_line-le,
  find_newline-first_line, copy_out-Holds, shuffle_down-at,
}

-- What is read from the input `q`: `n` characters go to `out` and leave the input.
pub record IsRead (out : Ptr) (n : ℕ) (q : List ℕ) (m m' : Memory) (t' : Tty) : Type 0 where
  pub copied : Holds m' out (take n q)
  pub else_same : (j : ℕ) → j < out → m' j ≡ m j
  pub behind_same : (j : ℕ) → out + n ≤ j → m' j ≡ m j
  pub left : HasInput t' (drop n q)

-- The number of characters that a request for `num` gets.
abbrev pub served : ℕ → List ℕ → ℕ
served num q = if ltb (first_line q) num then first_line q else num

find_newline-HasInput :
    (t : Tty) (q : List ℕ) → HasInput t q → find_newline_in_input_buffer t ≡ first_line q
unfolding find_newline_in_input_buffer
find_newline-HasInput t q h =
    ap (λ n. find_newline_loop n 0 t) h.count ∙ find_newline-first_line t 0 q h.bytes ∙ ground arith

tty_read-some :
    (out : Ptr) (num : ℕ) (m : Memory) (t : Tty) (q : List ℕ)
    → t.canonical ≡ true
    → HasInput t q
    → 0 < served num q
    → tty_read out num m t
      ≡ done (
        served num q,
        copy_out (served num q) 0 out t.input_buffer m,
        record t {
          input_buffer = shuffle_down (t.next - served num q) 0 (served num q) t.input_buffer;
          next = t.next - served num q;
        },
      )
unfolding tty_read
tty_read-some out num m t q mode h some_chars =
    let test : (served num q == 0) ≡ false = ground (arith, some_chars) in
    simp (mode, find_newline-HasInput t q h, test)

tty_read-none :
    (out : Ptr) (num : ℕ) (m : Memory) (t : Tty) (q : List ℕ)
    → t.canonical ≡ true
    → HasInput t q
    → served num q ≡ 0
    → tty_read out num m t ≡ done (0, m, t)
unfolding tty_read
tty_read-none out num m t q mode h none_there =
    let test : (served num q == 0) ≡ true = ground (arith, none_there) in
    simp (mode, find_newline-HasInput t q h, test)

copied_at :
    (n : ℕ) (out : Ptr) (f : ℕ → ℕ) (m : Memory) (a b : ℕ)
    → a + out ≡ b + 0
    → a < n
    → copy_out n 0 out f m b ≡ f a
copied_at n out f m a b e lt =
    let inside : (leb (out + 0) b && ltb b (out + 0 + n)) ≡ true = ground arith in
    let index : b - out ≡ a = omega arith in copy_out-Holds n 0 out f m b ∙ rw inside (ap f index)

left_at :
    (rest n : ℕ) (f : ℕ → ℕ) (a b : ℕ)
    → 0 < n
    → a + 0 ≡ b + (0 + n)
    → a < n + rest
    → shuffle_down rest 0 n f b ≡ f a
left_at rest n f a b pos e lt =
    let inside : (leb 0 b && ltb b (0 + rest)) ≡ true = ground arith in
    let index : b + n ≡ a = omega arith in shuffle_down-at rest 0 n f b pos ∙ rw inside (ap f index)

-- `tty_read` of `num` characters in the line mode reads as many as the first complete line of
-- the input has, its newline included, and at most `num`; none where no line is complete. They
-- are copied to `out`, where nothing else is written, and the rest of the input is left, in its
-- order.
pub tty_read-IsRead :
    (out : Ptr) (num : ℕ) (m : Memory) (t : Tty) (q : List ℕ)
    → t.canonical ≡ true
    → HasInput t q
    → (m' : Memory) × (t' : Tty) × (tty_read out num m t ≡ done (served num q, m', t'))
      × IsRead out (served num q) q m m' t'
tty_read-IsRead out num m t q mode h = elim (dec_lt 0 (served num q)) [
  | yes some_chars ↦
      let n : ℕ = served num q in
      let most : n ≤ length q = ground (arith, first_line-le q) in
      let m' : Memory = copy_out n 0 out t.input_buffer m in
      let f : ℕ → ℕ = shuffle_down (t.next - n) 0 n t.input_buffer in
      (
        m',
        record t { input_buffer = f; next = t.next - n },
        tty_read-some out num m t q mode h some_chars,
        record {
          copied =
              Holds-move t.input_buffer m' 0 out (take n q)
                (Holds-take t.input_buffer 0 n q h.bytes)
                (λ a b e lo hi.
                  copied_at n out t.input_buffer m a b e (omega (arith, length-take n q)));
          else_same = λ j lt. copy_out-Holds n 0 out t.input_buffer m j ∙ ground arith;
          behind_same = λ j le. copy_out-Holds n 0 out t.input_buffer m j ∙ ground arith;
          left = record {
            count = omega (arith, h.count, length-drop n q);
            fits = omega (arith, h.fits, length-drop n q);
            bytes =
                Holds-move t.input_buffer f (0 + n) 0 (drop n q)
                  (Holds-drop t.input_buffer 0 n q h.bytes)
                  (λ a b e lo hi.
                    left_at (t.next - n) n t.input_buffer a b some_chars e
                      (omega (arith, h.count, length-drop n q)));
          };
        },
      )
  | no none_there ↦
      let zero_chars : served num q ≡ 0 = omega arith in
      (
        m,
        t,
        rw zero_chars (tty_read-none out num m t q mode h zero_chars),
        rw zero_chars (record {
          copied = tt;
          else_same = λ j lt. refl;
          behind_same = λ j le. refl;
          left = h;
        }),
      )
]
