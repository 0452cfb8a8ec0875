-- ===== src/Kernel/Outcome.antt =====
-- What a kernel routine comes to: a value, or `HCF` (stuos/src/debugging.h), which stops the
-- machine and does not return.
pub data Outcome {ℓ} (A : Type ℓ) : Type ℓ where
  done : A → Outcome A
  halted : Outcome A

infixl 5 ◌>>=◌
abbrev pub ◌>>=◌ {ℓ κ} : {A : Type ℓ} {B : Type κ} → Outcome A → (A → Outcome B) → Outcome B
done a >>= k = k a
halted >>= k = halted
