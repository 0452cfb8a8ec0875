-- ===== src/Libc/Wchar/Strings.antt =====
-- `mbsrtowcs` on a string of encoded characters.
use stuos.Prelude.{
  ℕ, zero, suc, ◌+◌, ◌-◌, ◌^◌, ◌≤◌, ◌<◌, ◌≡◌, false, ◌==◌, ltb, if◌then◌else◌, arith, ◌∙◌, ap, ap₂,
  Bool-cases, inl, inr, subst, take, length-append, List, [], ◌∷◌, ◌++◌, length, none, some,
}
use stuos.Libc.Memory.{Ptr, Memory}
use stuos.Libc.Wchar.{
  MbState, converted, parsed, before, went_on, mbrtowc, mbsrtowcs_loop, mbsrtowcs,
}
use stuos.Libc.Wchar.Utf8.{encode, encode_all, encode_string, HasBytes}
use stuos.Libc.Wchar.Lead.{used}
use stuos.Libc.Wchar.Decode.{mbrtowc-encode}

abbrev pub AreCharacters : List ℕ → Type 0
AreCharacters [] = Unit
AreCharacters (c ∷ cs) = (0 < c) × (c < 0x110000) × AreCharacters cs

HasBytes-split :
    (m : Memory) (p : Ptr) (xs ys : List ℕ)
    → HasBytes m p (xs ++ ys)
    → HasBytes m p xs × HasBytes m (p + length xs) ys
HasBytes-split m p [] ys h = (tt, subst (λ q. HasBytes m q ys) (omega arith) h)
HasBytes-split m p (x ∷ xs) ys (e, h) =
    let (front, back) = HasBytes-split m (p + 1) xs ys h in
    ((e, front), subst (λ q. HasBytes m q ys) (omega arith) back)

length-encode : (c : ℕ) → (0 < length (encode c)) × (length (encode c) ≤ 4)
length-encode c = elim (Bool-cases (ltb c 0x80)) [
  | inl one ↦ rw one (omega arith, omega arith)
  | inr more ↦ elim (Bool-cases (ltb c 0x800)) [
    | inl two ↦ rw (more, two) (omega arith, omega arith)
    | inr more' ↦ elim (Bool-cases (ltb c 0x10000)) [
      | inl three ↦ rw (more, more', three) (omega arith, omega arith)
      | inr four ↦ rw (more, more', four) (omega arith, omega arith)
    ]
  ]
]

-- A round of the loop at a character that is not 0.
loop-character :
    (left i c : ℕ) (m : Memory) (p : Ptr) (s : MbState)
    → s.expected_remaining_bytes ≡ 0
    → 0 < c
    → c < 0x110000
    → HasBytes m p (encode c)
    → (s' : MbState) × (s'.expected_remaining_bytes ≡ 0)
      × (mbsrtowcs_loop (suc left) i m p s
          ≡ before (some c) (mbsrtowcs_loop left (i + 1) m (p + length (encode c)) s'))
unfolding mbsrtowcs_loop
loop-character left i c m p s between some_char small bytes =
    let (least, most) = length-encode c in
    let r = mbrtowc-encode m p (2 ^ 64 - 1) c s between small bytes (omega (arith, most)) in
    let call = mbrtowc m (some p) (2 ^ 64 - 1) s in
    let nonzero : (c == 0) ≡ false = ground arith in
    let len : used c ≡ suc (length (encode c) - 1) = rw nonzero (omega (arith, least)) in
    let back : suc (length (encode c) - 1) ≡ length (encode c) = omega (arith, least) in
    (
      call.state,
      r.between,
      ap
            (λ x.
              went_on i p x call.written call.state
                (λ next. mbsrtowcs_loop left (i + 1) m next call.state))
            (r.result ∙ ap parsed len)
          ∙ ap₂ (λ w k. before w (mbsrtowcs_loop left (i + 1) m (p + k) call.state)) r.written back,
    )

-- The end of the string.
loop-end :
    (left i : ℕ) (m : Memory) (p : Ptr) (s : MbState)
    → s.expected_remaining_bytes ≡ 0
    → m p ≡ 0
    → (s' : MbState) × (s'.expected_remaining_bytes ≡ 0)
      × (mbsrtowcs_loop (suc left) i m p s ≡ converted i (0 ∷ []) none s')
unfolding mbsrtowcs_loop
loop-end left i m p s between here =
    let r = mbrtowc-encode m p (2 ^ 64 - 1) 0 s between (omega arith) (here, tt) (omega arith) in
    let call = mbrtowc m (some p) (2 ^ 64 - 1) s in
    (
      call.state,
      r.between,
      ap₂
          (λ x w.
            went_on i p x w call.state (λ next. mbsrtowcs_loop left (i + 1) m next call.state))
          r.result r.written,
    )

-- The whole string fits in `left` slots.
loop-all :
    (cs : List ℕ) (left i : ℕ) (m : Memory) (p : Ptr) (s : MbState)
    → s.expected_remaining_bytes ≡ 0
    → AreCharacters cs
    → HasBytes m p (encode_string cs)
    → length cs < left
    → (s' : MbState) × (s'.expected_remaining_bytes ≡ 0)
      × (mbsrtowcs_loop left i m p s ≡ converted (i + length cs) (cs ++ (0 ∷ [])) none s')
loop-all [] (suc left) i m p s between chars (here, t) room =
    let (s', between', e) = loop-end left i m p s between here in
    (s', between', e ∙ ap (λ k. converted k (0 ∷ []) none s') (omega arith))
loop-all (c ∷ cs) (suc left) i m p s between (some_char, small, chars) bytes room =
    let (front, back) = HasBytes-split m p (encode c) (encode_string cs) bytes in
    let (s₁, between₁, e₁) = loop-character left i c m p s between some_char small front in
    let (s', between', e') =
      loop-all cs left (i + 1) m (p + length (encode c)) s₁ between₁ chars back
        (omega (arith, room)) in
    (
      s',
      between',
      e₁
          ∙ ap (before (some c)) e'
          ∙ ap (λ k. converted k (c ∷ (cs ++ (0 ∷ []))) none s') (omega arith),
    )
loop-all [] zero i m p s between chars bytes room = absurd (omega (arith, room))
loop-all (c ∷ cs) zero i m p s between chars bytes room = absurd (omega (arith, room))

-- The slots run out before the string does.
loop-full :
    (cs : List ℕ) (left i : ℕ) (m : Memory) (p : Ptr) (s : MbState)
    → s.expected_remaining_bytes ≡ 0
    → AreCharacters cs
    → HasBytes m p (encode_string cs)
    → left ≤ length cs
    → (s' : MbState) × (s'.expected_remaining_bytes ≡ 0)
      × (mbsrtowcs_loop left i m p s
          ≡ converted (i + left) (take left cs) (some (p + length (encode_all (take left cs)))) s')
unfolding mbsrtowcs_loop
loop-full cs zero i m p s between chars bytes room =
    (s, between, ap₂ (λ k q. converted k [] (some q) s) (omega arith) (omega arith))
loop-full [] (suc left) i m p s between chars bytes room = absurd (omega (arith, room))
loop-full (c ∷ cs) (suc left) i m p s between (some_char, small, chars) bytes room =
    let (front, back) = HasBytes-split m p (encode c) (encode_string cs) bytes in
    let (s₁, between₁, e₁) = loop-character left i c m p s between some_char small front in
    let (s', between', e') =
      loop-full cs left (i + 1) m (p + length (encode c)) s₁ between₁ chars back
        (omega (arith, room)) in
    (
      s',
      between',
      e₁
          ∙ ap (before (some c)) e'
          ∙ ap₂ (λ k q. converted k (c ∷ take left cs) (some q) s') (omega arith)
              (omega (arith, length-append (encode c) (encode_all (take left cs)))),
    )

-- `mbsrtowcs` of the UTF-8 string of characters other than 0 and below 0x110000, with `dest`
-- given and between two characters: with more slots than characters it writes all of them with
-- their 0, returns their number and sets `*src` to NULL; with `len` slots and no more, it writes
-- the first `len`, returns `len` and leaves `*src` behind the last byte that it used.
pub mbsrtowcs-encode_string :
    (cs : List ℕ) (len : ℕ) (m : Memory) (p : Ptr) (s : MbState)
    → s.expected_remaining_bytes ≡ 0
    → AreCharacters cs
    → HasBytes m p (encode_string cs)
    → (s' : MbState) × (s'.expected_remaining_bytes ≡ 0)
      × (mbsrtowcs len m p s ≡ (
          if ltb (length cs) len
          then converted (length cs) (cs ++ (0 ∷ [])) none s'
          else converted len (take len cs) (some (p + length (encode_all (take len cs)))) s'))
unfolding mbsrtowcs
mbsrtowcs-encode_string cs len m p s between chars bytes = elim (Bool-cases (ltb (length cs) len)) [
  | inl fits ↦
      let (s', between', e) = loop-all cs len 0 m p s between chars bytes (ground arith) in
      (s', between', rw fits (e ∙ ap (λ k. converted k (cs ++ (0 ∷ [])) none s') (omega arith)))
  | inr full ↦
      let (s', between', e) = loop-full cs len 0 m p s between chars bytes (ground arith) in
      (
        s',
        between',
        rw full (
            e
            ∙ ap (λ k. converted k (take len cs) (some (p + length (encode_all (take len cs)))) s')
                (omega arith)),
      )
]
