-- ===== src/Kernel/BlockDevice/Copy.antt =====
-- What the loops of `blockdev_read_file` and `blockdev_write_file` copy of one sector.
use stuos.Prelude.{
  ℕ, zero, suc, ◌+◌, ◌-◌, ◌≤◌, ◌<◌, ◌≡◌, refl, ◌∙◌, ◌⊎◌, true, ◌==◌, ltb, min, arith, Bool-cases,
  inl, inr,
}
use stuos.Kernel.BlockDevice.{Buffer, put_byte, copy_out, copy_in}

pub copy_out-count :
    (room : ℕ) (from : Buffer) (o b num : ℕ) (out : Buffer)
    → b ≤ num
    → (copy_out room from o b num out).1 ≡ min num (b + room)
copy_out-count zero from o b num out le = omega (arith, le)
copy_out-count (suc room) from o b num out le = elim (Bool-cases (ltb b num)) [
  | inl less ↦ rw less (
      copy_out-count room from (suc o) (suc b) num (put_byte b (from o) out) (ground arith)
      ∙ omega arith)
  | inr all ↦ rw all (ground arith)
]

-- Below the first byte copied, and from the last one on.
pub copy_out-other :
    (room : ℕ) (from : Buffer) (o b num : ℕ) (out : Buffer) (i : ℕ)
    → (i < b) ⊎ (min num (b + room) ≤ i)
    → (copy_out room from o b num out).0 i ≡ out i
copy_out-other zero from o b num out i other = refl
copy_out-other (suc room) from o b num out i other = elim (Bool-cases (ltb b num)) [
  | inl less ↦ rw less (
      copy_out-other room from (suc o) (suc b) num (put_byte b (from o) out) i (ground arith)
      ∙ ground arith)
  | inr all ↦ rw all refl
]

pub copy_out-copied :
    (room : ℕ) (from : Buffer) (o b num : ℕ) (out : Buffer) (i : ℕ)
    → b ≤ i
    → i < min num (b + room)
    → (copy_out room from o b num out).0 i ≡ from (o + i - b)
copy_out-copied zero from o b num out i ge lt = absurd (omega (arith, ge, lt))
copy_out-copied (suc room) from o b num out i ge lt = elim (Bool-cases (i == b)) [
  | inl first ↦
      let less : ltb b num ≡ true = ground arith in
      let here : i ≡ b = ground arith in
      let there : o + i - b ≡ o = omega arith in
      rw (less, there)
        (copy_out-other room from (suc o) (suc b) num (put_byte b (from o) out) i
            (inl (omega arith))
          ∙ ground arith)
  | inr later ↦
      let less : ltb b num ≡ true = ground arith in
      let there : o + i - b ≡ suc o + i - suc b = ground arith in
      rw (less, there)
        (copy_out-copied room from (suc o) (suc b) num (put_byte b (from o) out) i (ground arith)
          (ground arith))
]

pub copy_in-count :
    (room : ℕ) (from : Buffer) (o b num : ℕ) (out : Buffer)
    → b ≤ num
    → (copy_in room from o b num out).1 ≡ min num (b + room)
copy_in-count zero from o b num out le = omega (arith, le)
copy_in-count (suc room) from o b num out le = elim (Bool-cases (ltb b num)) [
  | inl less ↦ rw less (
      copy_in-count room from (suc o) (suc b) num (put_byte o (from b) out) (ground arith)
      ∙ omega arith)
  | inr all ↦ rw all (ground arith)
]

pub copy_in-other :
    (room : ℕ) (from : Buffer) (o b num : ℕ) (out : Buffer) (i : ℕ)
    → (i < o) ⊎ (o + (num - b) ≤ i)
    → (copy_in room from o b num out).0 i ≡ out i
copy_in-other zero from o b num out i other = refl
copy_in-other (suc room) from o b num out i other = elim (Bool-cases (ltb b num)) [
  | inl less ↦ rw less (
      copy_in-other room from (suc o) (suc b) num (put_byte o (from b) out) i (ground arith)
      ∙ ground arith)
  | inr all ↦ rw all refl
]

pub copy_in-copied :
    (room : ℕ) (from : Buffer) (o b num : ℕ) (out : Buffer) (i : ℕ)
    → o ≤ i
    → i < o + room
    → i + b < o + num
    → (copy_in room from o b num out).0 i ≡ from (b + i - o)
copy_in-copied zero from o b num out i ge lt small = absurd (omega (arith, ge, lt))
copy_in-copied (suc room) from o b num out i ge lt small = elim (Bool-cases (i == o)) [
  | inl first ↦
      let less : ltb b num ≡ true = ground arith in
      let here : i ≡ o = ground arith in
      let there : b + i - o ≡ b = omega arith in
      rw (less, there)
        (copy_in-other room from (suc o) (suc b) num (put_byte o (from b) out) i (inl (omega arith))
          ∙ ground arith)
  | inr later ↦
      let less : ltb b num ≡ true = ground arith in
      let there : b + i - o ≡ suc b + i - suc o = ground arith in
      rw (less, there)
        (copy_in-copied room from (suc o) (suc b) num (put_byte o (from b) out) i (ground arith)
          (ground arith) (ground arith))
]
