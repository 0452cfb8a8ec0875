-- ===== src/Libc/Memory.antt =====
-- The byte memory that the routines of custom_libc/string.c work on: a byte at each address.
-- An address is a number; no object lies across the end of the address space, so the sum of a
-- pointer and an index does not wrap.
use stuos.Prelude.{ℕ, ◌+◌, ◌-◌, ◌<◌, ◌≡◌, ◌==◌, ltb, if◌then◌else◌, List, [], ◌∷◌}
use stuos.Prelude.Int.{ℤ, pos, negsuc}

abbrev pub Ptr : Type 0
Ptr = ℕ

abbrev pub null : Ptr
null = 0

abbrev pub Memory : Type 0
Memory = Ptr → ℕ

-- `*p = v`
abbrev pub store : Memory → Ptr → ℕ → Memory
store m p v a = if a == p then v else m a

-- A `char`, signed on this target, as the `int` that it is promoted to.
abbrev pub char_value : ℕ → ℤ
char_value b = if ltb b 128 then pos b else negsuc (255 - b)

-- The string at `p`: its bytes `cs`, none of them 0, and a 0 behind them.
abbrev pub HasString : Memory → Ptr → List ℕ → Type 0
HasString m p [] = m p ≡ 0
HasString m p (c ∷ cs) = (m p ≡ c) × (0 < c) × (c < 256) × HasString m (p + 1) cs

-- A run of a loop that no count bounds: its value, or `out_of_fuel`.
pub data Run {ℓ} (A : Type ℓ) : Type ℓ where
  returns : A → Run A
  out_of_fuel : Run A

infixl 5 ◌>>=◌
abbrev pub ◌>>=◌ {ℓ κ} : {A : Type ℓ} {B : Type κ} → Run A → (A → Run B) → Run B
returns a >>= k = k a
out_of_fuel >>= k = out_of_fuel
