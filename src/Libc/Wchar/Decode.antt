-- ===== src/Libc/Wchar/Decode.antt =====
-- `mbrtowc` reads what the encoding wrote.
use stuos.Prelude.{
  ℕ, suc, ◌+◌, ◌-◌, ◌/◌, ◌%◌, ◌^◌, ◌≤◌, ◌<◌, ◌≡◌, refl, true, false, ◌==◌, ◌!=◌, ltb, leb, ◌||◌,
  if◌then◌else◌, arith, ◌∙◌, ap, Bool-cases, inl, inr, length, some,
}
use stuos.Libc.Memory.{Ptr, Memory}
use stuos.Libc.Wchar.{MbState, parsed, shift_in, continuation_loop, mbrtowc}
use stuos.Libc.Wchar.Utf8.{encode, HasBytes}
use stuos.Libc.Wchar.Lead.{
  IsRead, loop-last, loop-more, ones_two, ones_three, ones_four, mbrtowc-lead, after_first,
  first-IsRead,
}

one_byte :
    (m : Memory) (p : Ptr) (n c : ℕ) (s : MbState)
    → s.expected_remaining_bytes ≡ 0
    → c < 0x80
    → m p ≡ c
    → 0 < n
    → IsRead c (mbrtowc m (some p) n s)
unfolding mbrtowc
one_byte m p n c s between small here room =
    let n' : (n == 0) ≡ false = ground arith in
    let ascii : leb 128 c ≡ false = ground arith in
    let short : ltb c 0x80 ≡ true = ground arith in
    let e : mbrtowc m (some p) n s
        ≡ record { result = parsed (if c != 0 then 1 else 0); written = some c; state = s } =
      simp (n', between, here, ascii) refl in
    record {
      result =
          ap (λ x. x.result) e
          ∙ ap parsed (elim (Bool-cases (c == 0)) [
            | inl z ↦ let z' : (c != 0) ≡ false = ground arith in rw (z, z') refl
            | inr nz ↦ let nz' : (c != 0) ≡ true = ground arith in rw (nz, nz', short) refl
          ]);
      written = ap (λ x. x.written) e;
      between = ap (λ x. x.state.expected_remaining_bytes) e ∙ between;
    }

two_bytes :
    (m : Memory) (p : Ptr) (n c : ℕ) (s : MbState)
    → s.expected_remaining_bytes ≡ 0
    → 0x80 ≤ c
    → c < 0x800
    → m p ≡ 0xc0 + c / 2 ^ 6
    → m (p + 1) ≡ 0x80 + c % 2 ^ 6
    → 2 ≤ n
    → IsRead c (mbrtowc m (some p) n s)
two_bytes m p n c s between lo hi b₀ b₁ room =
    let st = shift_in (0x80 + c % 2 ^ 6) (after_first 2 (m p)) in
    let left : n - 1 ≡ suc (n - 2) = omega arith in
    let value : st.buffer ≡ c = omega (arith, b₀) in
    let long : ltb c 0x80 ≡ false = ground arith in
    let short : ltb c 0x800 ≡ true = ground arith in
    let nonzero : (c == 0) ≡ false = ground arith in
    first-IsRead m p n 2 0 c s st
      (mbrtowc-lead m p n 2 s between (omega arith) (omega (arith, b₀))
        (ones_two (m p) (omega (arith, b₀)) (omega (arith, b₀))) refl)
      (ap (λ k. continuation_loop k 0 m (p + 1) (after_first 2 (m p))) left
        ∙ loop-last (n - 2) 0 (0x80 + c % 2 ^ 6) m (p + 1) (after_first 2 (m p))
            (ap m (omega arith) ∙ b₁) (omega arith) refl)
      (ap (λ v. ltb v 0x80 || ltb 0x7ff v) value ∙ ground arith) value refl
      (rw (nonzero, long, short) refl)

three_bytes :
    (m : Memory) (p : Ptr) (n c : ℕ) (s : MbState)
    → s.expected_remaining_bytes ≡ 0
    → 0x800 ≤ c
    → c < 0x10000
    → m p ≡ 0xe0 + c / 2 ^ 12
    → m (p + 1) ≡ 0x80 + c / 2 ^ 6 % 2 ^ 6
    → m (p + 1 + 1) ≡ 0x80 + c % 2 ^ 6
    → 3 ≤ n
    → IsRead c (mbrtowc m (some p) n s)
three_bytes m p n c s between lo hi b₀ b₁ b₂ room =
    let s₁ = shift_in (0x80 + c / 2 ^ 6 % 2 ^ 6) (after_first 3 (m p)) in
    let st = shift_in (0x80 + c % 2 ^ 6) s₁ in
    let left : n - 1 ≡ suc (suc (n - 3)) = omega arith in
    let value₁ : s₁.buffer ≡ c / 2 ^ 6 = omega (arith, b₀) in
    let value : st.buffer ≡ c = omega (arith, value₁) in
    let long : ltb c 0x80 ≡ false = ground arith in
    let long' : ltb c 0x800 ≡ false = ground arith in
    let short : ltb c 0x10000 ≡ true = ground arith in
    let nonzero : (c == 0) ≡ false = ground arith in
    first-IsRead m p n 3 1 c s st
      (mbrtowc-lead m p n 3 s between (omega arith) (omega (arith, b₀))
        (ones_three (m p) (omega (arith, b₀)) (omega (arith, b₀))) refl)
      (ap (λ k. continuation_loop k 0 m (p + 1) (after_first 3 (m p))) left
        ∙ loop-more (suc (n - 3)) 0 (0x80 + c / 2 ^ 6 % 2 ^ 6) 0 m (p + 1) (after_first 3 (m p))
            (ap m (omega arith) ∙ b₁) (omega arith) refl
        ∙ loop-last (n - 3) 1 (0x80 + c % 2 ^ 6) m (p + 1) s₁ b₂ (omega arith) refl)
      (ap (λ v. ltb v 0x800 || ltb 0xffff v) value ∙ ground arith) value refl
      (rw (nonzero, long, long', short) refl)

four_bytes :
    (m : Memory) (p : Ptr) (n c : ℕ) (s : MbState)
    → s.expected_remaining_bytes ≡ 0
    → 0x10000 ≤ c
    → c < 0x110000
    → m p ≡ 0xf0 + c / 2 ^ 18
    → m (p + 1) ≡ 0x80 + c / 2 ^ 12 % 2 ^ 6
    → m (p + 1 + 1) ≡ 0x80 + c / 2 ^ 6 % 2 ^ 6
    → m (p + 1 + 1 + 1) ≡ 0x80 + c % 2 ^ 6
    → 4 ≤ n
    → IsRead c (mbrtowc m (some p) n s)
four_bytes m p n c s between lo hi b₀ b₁ b₂ b₃ room =
    let s₁ = shift_in (0x80 + c / 2 ^ 12 % 2 ^ 6) (after_first 4 (m p)) in
    let s₂ = shift_in (0x80 + c / 2 ^ 6 % 2 ^ 6) s₁ in
    let st = shift_in (0x80 + c % 2 ^ 6) s₂ in
    let left : n - 1 ≡ suc (suc (suc (n - 4))) = omega arith in
    let value₁ : s₁.buffer ≡ c / 2 ^ 12 = omega (arith, b₀) in
    let value₂ : s₂.buffer ≡ c / 2 ^ 6 = omega (arith, value₁) in
    let value : st.buffer ≡ c = omega (arith, value₂) in
    let long : ltb c 0x80 ≡ false = ground arith in
    let long' : ltb c 0x800 ≡ false = ground arith in
    let long'' : ltb c 0x10000 ≡ false = ground arith in
    let nonzero : (c == 0) ≡ false = ground arith in
    first-IsRead m p n 4 2 c s st
      (mbrtowc-lead m p n 4 s between (omega arith) (omega (arith, b₀))
        (ones_four (m p) (omega (arith, b₀)) (omega (arith, b₀))) refl)
      (ap (λ k. continuation_loop k 0 m (p + 1) (after_first 4 (m p))) left
        ∙ loop-more (suc (suc (n - 4))) 0 (0x80 + c / 2 ^ 12 % 2 ^ 6) 1 m (p + 1)
            (after_first 4 (m p)) (ap m (omega arith) ∙ b₁) (omega arith) refl
        ∙ loop-more (suc (n - 4)) 1 (0x80 + c / 2 ^ 6 % 2 ^ 6) 0 m (p + 1) s₁ b₂ (omega arith) refl
        ∙ loop-last (n - 4) 2 (0x80 + c % 2 ^ 6) m (p + 1) s₂ (ap m (omega arith) ∙ b₃)
            (omega arith) refl)
      (ap (λ v. ltb v 0x10000 || ltb 0x10ffff v) value ∙ ground arith) value refl
      (rw (nonzero, long, long', long'') refl)

-- Between two characters, and with as many bytes to read as the encoding has or more: `mbrtowc`
-- reads the UTF-8 encoding of any character below 0x110000 back. It writes the character and
-- returns the length of the encoding, or 0 for the character 0, and is between two characters
-- again.
pub mbrtowc-encode :
    (m : Memory) (p : Ptr) (n c : ℕ) (s : MbState)
    → s.expected_remaining_bytes ≡ 0
    → c < 0x110000
    → HasBytes m p (encode c)
    → length (encode c) ≤ n
    → IsRead c (mbrtowc m (some p) n s)
mbrtowc-encode m p n c s between small bytes room = elim (Bool-cases (ltb c 0x80)) [
  | inl one ↦
      let bytes' = rw one at bytes in
      let room' = rw one at room in
      one_byte m p n c s between (ground arith) bytes'.0 (omega (arith, room'))
  | inr more ↦ elim (Bool-cases (ltb c 0x800)) [
    | inl two ↦
        let (b₀, (b₁, t)) = rw (more, two) at bytes in
        let room' = rw (more, two) at room in
        two_bytes m p n c s between (ground arith) (ground arith) b₀ b₁ (omega (arith, room'))
    | inr more' ↦ elim (Bool-cases (ltb c 0x10000)) [
      | inl three ↦
          let (b₀, (b₁, (b₂, t))) = rw (more, more', three) at bytes in
          let room' = rw (more, more', three) at room in
          three_bytes m p n c s between (ground arith) (ground arith) b₀ b₁ b₂
            (omega (arith, room'))
      | inr four ↦
          let (b₀, (b₁, (b₂, (b₃, t)))) = rw (more, more', four) at bytes in
          let room' = rw (more, more', four) at room in
          four_bytes m p n c s between (ground arith) small b₀ b₁ b₂ b₃ (omega (arith, room'))
    ]
  ]
]
