-- ===== src/Kernel/Tty/Queue.antt =====
-- The characters of `input_buffer` as a list, and what the loops of tty.c do to it.
use stuos.Prelude.{
  ℕ, zero, suc, ◌+◌, ◌-◌, ◌≤◌, ◌<◌, ◌≡◌, refl, Bool, ◌==◌, ltb, leb, ◌&&◌, if◌then◌else◌, List, [],
  ◌∷◌, ◌++◌, length, take, drop, arith, ◌∙◌, ap, subst, Option, none, some,
}
use stuos.Libc.Memory.{Ptr, Memory, store}
use stuos.Kernel.Tty.{Tty, find_newline_loop, copy_out, shuffle_down, input_buf_length}

-- The characters `cs` stand in `f` from index `i` on.
abbrev pub Holds : (ℕ → ℕ) → ℕ → List ℕ → Type 0
Holds f i [] = Unit
Holds f i (c ∷ cs) = (f i ≡ c) × Holds f (i + 1) cs

-- The input that is waiting.
pub record HasInput (t : Tty) (q : List ℕ) : Type 0 where
  pub count : t.next ≡ length q
  pub fits : length q ≤ input_buf_length
  pub bytes : Holds t.input_buffer 0 q

-- All characters but the last.
abbrev pub without_last : List ℕ → List ℕ
without_last [] = []
without_last (c ∷ []) = []
without_last (c ∷ d ∷ cs) = c ∷ without_last (d ∷ cs)

-- The input after a key: a backspace in the line mode takes a character back, any other key adds
-- one, unless the buffer is full.
abbrev pub typed : ℕ → Bool → List ℕ → Option (List ℕ)
typed x canonical q =
    if x == 8 && canonical
    then some (without_last q)
    else if length q == input_buf_length
    then none
    else some (q ++ (x ∷ []))

-- The length of the first line, its newline included, or 0 where no line is complete.
abbrev pub first_line : List ℕ → ℕ
first_line [] = 0
first_line (c ∷ cs) = if c == 10 then 1 else if first_line cs == 0 then 0 else suc (first_line cs)

-- Characters that stand elsewhere in another buffer.
pub Holds-move :
    (f g : ℕ → ℕ) (i k : ℕ) (q : List ℕ)
    → Holds f i q
    → ((a b : ℕ) → a + k ≡ b + i → i ≤ a → a < i + length q → g b ≡ f a)
    → Holds g k q
Holds-move f g i k [] h same = tt
Holds-move f g i k (c ∷ cs) h same = (
  same i k (omega arith) (omega arith) (omega arith) ∙ h.0,
  Holds-move f g (i + 1) (k + 1) cs h.1
      (λ a b e lo hi. same a b (omega arith) (omega arith) (omega arith)),
)

pub Holds-append :
    (f : ℕ → ℕ) (i : ℕ) (q : List ℕ) (x : ℕ)
    → Holds f i q
    → f (i + length q) ≡ x
    → Holds f i (q ++ (x ∷ []))
Holds-append f i [] x h e = (ap f (omega arith) ∙ e, tt)
Holds-append f i (c ∷ cs) x h e = (h.0, Holds-append f (i + 1) cs x h.1 (ap f (omega arith) ∙ e))

pub Holds-take : (f : ℕ → ℕ) (i n : ℕ) (q : List ℕ) → Holds f i q → Holds f i (take n q)
Holds-take f i zero q h = tt
Holds-take f i (suc n) [] h = tt
Holds-take f i (suc n) (c ∷ cs) h = (h.0, Holds-take f (i + 1) n cs h.1)

pub Holds-drop : (f : ℕ → ℕ) (i n : ℕ) (q : List ℕ) → Holds f i q → Holds f (i + n) (drop n q)
Holds-drop f i zero q h = subst (λ k. Holds f k q) (omega arith) h
Holds-drop f i (suc n) [] h = tt
Holds-drop f i (suc n) (c ∷ cs) h =
    let e : i + 1 + n ≡ i + suc n = omega arith in
    subst (λ k. Holds f k (drop n cs)) e (Holds-drop f (i + 1) n cs h.1)

pub first_line-le : (q : List ℕ) → first_line q ≤ length q
first_line-le [] = omega arith
first_line-le (c ∷ cs) = ground (arith, first_line-le cs)

pub length-without_last : (q : List ℕ) → length (without_last q) ≡ length q - 1
length-without_last [] = refl
length-without_last (c ∷ []) = refl
length-without_last (c ∷ d ∷ cs) = ap suc (length-without_last (d ∷ cs)) ∙ omega arith

pub Holds-without_last : (f : ℕ → ℕ) (i : ℕ) (q : List ℕ) → Holds f i q → Holds f i (without_last q)
Holds-without_last f i [] h = tt
Holds-without_last f i (c ∷ []) h = tt
Holds-without_last f i (c ∷ d ∷ cs) h = (h.0, Holds-without_last f (i + 1) (d ∷ cs) h.1)

pub find_newline-first_line :
    (t : Tty) (i : ℕ) (q : List ℕ)
    → Holds t.input_buffer i q
    → find_newline_loop (length q) i t ≡ (if first_line q == 0 then 0 else i + first_line q)
unfolding find_newline_loop
find_newline-first_line t i [] h = refl
find_newline-first_line t i (c ∷ cs) h = ground (arith, find_newline-first_line t (i + 1) cs h.1)

-- Characters copied out.
pub copy_out-Holds :
    (n i : ℕ) (out : Ptr) (f : ℕ → ℕ) (m : Memory) (j : ℕ)
    → copy_out n i out f m j ≡ (if leb (out + i) j && ltb j (out + i + n) then f (j - out) else m j)
unfolding copy_out
copy_out-Holds zero i out f m j = ground arith
copy_out-Holds (suc n) i out f m j =
    ground (arith, copy_out-Holds n (i + 1) out f (store m (out + i) (f i)) j)

pub shuffle_down-at :
    (left j num : ℕ) (f : ℕ → ℕ) (i : ℕ)
    → 0 < num
    → shuffle_down left j num f i ≡ (if leb j i && ltb i (j + left) then f (i + num) else f i)
unfolding shuffle_down
shuffle_down-at zero j num f i pos = ground arith
shuffle_down-at (suc left) j num f i pos =
    ground
      (arith, shuffle_down-at left (j + 1) num (λ k. if k == j then f (j + num) else f k) i pos)
