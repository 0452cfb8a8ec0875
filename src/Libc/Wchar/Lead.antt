-- ===== src/Libc/Wchar/Lead.antt =====
-- The steps of `mbrtowc`: a first byte, and the continuation bytes behind it.
use stuos.Prelude.{
  ℕ, suc, ◌+◌, ◌-◌, ◌/◌, ◌%◌, ◌^◌, ◌≤◌, ◌<◌, ◌≡◌, refl, true, false, ◌==◌, ltb, leb, ◌||◌,
  if◌then◌else◌, arith, ◌∙◌, sym, ap, length, some,
}
use stuos.Libc.Memory.{Ptr, Memory}
use stuos.Libc.Wchar.{
  MbState, parsed, Call, wrong_length, shift_in, complete, continuation_loop,
  handle_continuation_bytes, count_ones, one_more, handle_first, handle_lead, mbrtowc,
}
use stuos.Libc.Wchar.Utf8.{encode}

-- What `mbrtowc` returns for a character: 0 for the character 0, else the bytes of its encoding.
abbrev pub used : ℕ → ℕ
used c = if c == 0 then 0 else length (encode c)

pub record IsRead (c : ℕ) (r : Call) : Type 0 where
  pub result : r.result ≡ parsed (used c)
  pub written : r.written ≡ some c
  pub between : r.state.expected_remaining_bytes ≡ 0

pub loop-last :
    (left i b : ℕ) (m : Memory) (p : Ptr) (s : MbState)
    → m (p + i) ≡ b
    → b / 2 ^ 6 ≡ 2
    → s.expected_remaining_bytes ≡ 1
    → continuation_loop (suc left) i m p s ≡ complete i (shift_in b s)
unfolding continuation_loop
loop-last left i b m p s here mark one = simp (here, mark, one) refl

pub loop-more :
    (left i b r : ℕ) (m : Memory) (p : Ptr) (s : MbState)
    → m (p + i) ≡ b
    → b / 2 ^ 6 ≡ 2
    → s.expected_remaining_bytes ≡ suc (suc r)
    → continuation_loop (suc left) i m p s ≡ continuation_loop left (i + 1) m p (shift_in b s)
unfolding continuation_loop
loop-more left i b r m p s here mark more =
    let some_left : (suc (suc r) == 0) ≡ false = ground arith in
    let next : (suc (suc r) - 1 == 0) ≡ false = ground arith in
    simp (here, mark, more, some_left, next) refl

complete-right :
    (i : ℕ) (s : MbState)
    → wrong_length s ≡ false
    → complete i s ≡ record { result = parsed (i + 1); written = some s.buffer; state = s }
complete-right i s e = rw e refl

pub ones_two : (b : ℕ) → 0xc0 ≤ b → b < 0xe0 → count_ones 8 b 0 ≡ 2
ones_two b lo hi =
    let h : b / 128 % 2 ≡ 1 = omega arith in
    let i : b / 64 % 2 ≡ 1 = omega arith in
    let j : b / 32 % 2 ≡ 0 = omega arith in rw (h, i, j) refl

pub ones_three : (b : ℕ) → 0xe0 ≤ b → b < 0xf0 → count_ones 8 b 0 ≡ 3
ones_three b lo hi =
    let h : b / 128 % 2 ≡ 1 = omega arith in
    let i : b / 64 % 2 ≡ 1 = omega arith in
    let j : b / 32 % 2 ≡ 1 = omega arith in
    let k : b / 16 % 2 ≡ 0 = omega arith in rw (h, i, j, k) refl

pub ones_four : (b : ℕ) → 0xf0 ≤ b → b < 0xf8 → count_ones 8 b 0 ≡ 4
ones_four b lo hi =
    let h : b / 128 % 2 ≡ 1 = omega arith in
    let i : b / 64 % 2 ≡ 1 = omega arith in
    let j : b / 32 % 2 ≡ 1 = omega arith in
    let k : b / 16 % 2 ≡ 1 = omega arith in
    let l : b / 8 % 2 ≡ 0 = omega arith in rw (h, i, j, k, l) refl

-- `mbrtowc` at the start of a character of several bytes.
pub mbrtowc-lead :
    (m : Memory) (p : Ptr) (n count : ℕ) (s : MbState)
    → s.expected_remaining_bytes ≡ 0
    → 0 < n
    → 128 ≤ m p
    → count_ones 8 (m p) 0 ≡ count
    → (ltb count 2 || ltb 4 count) ≡ false
    → mbrtowc m (some p) n s ≡ handle_first count m p n
unfolding mbrtowc handle_lead
mbrtowc-lead m p n count s between some_bytes high ones fits =
    let n' : (n == 0) ≡ false = ground arith in
    let lead : leb 128 (m p) ≡ true = ground arith in
    simp (n', between, lead) (simp (ones, fits) refl)

-- The state behind the first byte `b` of a character of `count` bytes.
abbrev pub after_first : ℕ → ℕ → MbState
after_first count b = record {
  buffer = b % 2 ^ (7 - count);
  expected_length = count;
  expected_remaining_bytes = count - 1;
}

abbrev counted : Call → Call
counted x = record x { result = one_more x.result }

-- A character whose continuation is read to its end.
pub first-IsRead :
    (m : Memory) (p : Ptr) (n count j c : ℕ) (s st : MbState)
    → mbrtowc m (some p) n s ≡ handle_first count m p n
    → continuation_loop (n - 1) 0 m (p + 1) (after_first count (m p)) ≡ complete j st
    → wrong_length st ≡ false
    → st.buffer ≡ c
    → st.expected_remaining_bytes ≡ 0
    → used c ≡ suc (suc j)
    → IsRead c (mbrtowc m (some p) n s)
unfolding handle_first handle_continuation_bytes
first-IsRead m p n count j c s st lead loop right value done_all len =
    let e : mbrtowc m (some p) n s
        ≡ record { result = one_more (parsed (j + 1)); written = some st.buffer; state = st } =
      lead ∙ ap counted (loop ∙ complete-right j st right) in
    let bytes : one_more (parsed (j + 1)) ≡ parsed (used c) =
      ap (λ x. one_more (parsed x)) (suc_form j) ∙ ap parsed (sym len) in
    record {
      result = ap (λ x. x.result) e ∙ bytes;
      written = ap (λ x. x.written) e ∙ ap some value;
      between = ap (λ x. x.state.expected_remaining_bytes) e ∙ done_all;
    }
  where
    suc_form : (j : ℕ) → j + 1 ≡ suc j
    suc_form j = omega arith
