-- ===== src/Libc/Wchar.antt =====
-- The multibyte characters of custom_libc/wchar.c. The bytes lie in the memory, the wide
-- characters that a routine writes are part of its result.
pub mod Utf8
pub mod Lead
pub mod Decode
pub mod Strings
mod Tests
use stuos.Prelude.{
  ℕ, zero, suc, ◌+◌, ◌-◌, ◌*◌, ◌/◌, ◌%◌, ◌^◌, Bool, true, false, ◌==◌, ◌!=◌, ltb, leb, ◌&&◌, ◌||◌,
  not, if◌then◌else◌, List, [], ◌∷◌, Option, none, some,
}
use stuos.Libc.Memory.{Ptr, Memory}

-- `mbstate_t`
pub record MbState : Type 0 where
  pub buffer : ℕ
  pub expected_length : ℕ
  pub expected_remaining_bytes : ℕ

abbrev pub no_state : MbState
no_state = record { buffer = 0; expected_length = 0; expected_remaining_bytes = 0 }

-- What is returned: the bytes used; `illegal` for `(size_t)-1`, with `errno` set to EILSEQ;
-- `incomplete` for `(size_t)-2`.
pub data MbResult : Type 0 where
  parsed : ℕ → MbResult
  illegal : MbResult
  incomplete : MbResult

-- A call: its result, the wide character that it writes, and the state that it leaves.
pub record Call : Type 0 where
  pub result : MbResult
  pub written : Option ℕ
  pub state : MbState

-- Whether a complete character has a length that is not its own.
abbrev pub wrong_length : MbState → Bool
wrong_length s =
    if s.expected_length == 1
    then ltb 0x7f s.buffer
    else if s.expected_length == 2
    then ltb s.buffer 0x80 || ltb 0x7ff s.buffer
    else if s.expected_length == 3
    then ltb s.buffer 0x800 || ltb 0xffff s.buffer
    else if s.expected_length == 4
    then ltb s.buffer 0x10000 || ltb 0x10ffff s.buffer
    else true

-- `state->buffer <<= 6; state->buffer |= (next & 0b00111111); state->expected_remaining_bytes--;`
abbrev pub shift_in : ℕ → MbState → MbState
shift_in next s = record s {
  buffer = s.buffer * 2 ^ 6 % 2 ^ 32 + next % 2 ^ 6;
  expected_remaining_bytes = s.expected_remaining_bytes - 1;
}

-- The end of a character whose last byte is at index `i`.
abbrev pub complete : ℕ → MbState → Call
complete i s =
    if wrong_length s
    then record { result = illegal; written = none; state = s }
    else record { result = parsed (i + 1); written = some s.buffer; state = s }

-- The loop of `handle_continuation_bytes` at index `i`, with `left` bytes to go.
pub continuation_loop : (left i : ℕ) → Memory → Ptr → MbState → Call
continuation_loop zero i m input s = record { result = incomplete; written = none; state = s }
continuation_loop (suc left) i m input s =
    let next = m (input + i) in
    let s' = shift_in next s in
    let rest = continuation_loop left (i + 1) m input s' in
    if s.expected_remaining_bytes == 0
    then record { result = incomplete; written = none; state = s }
    else if next / 2 ^ 6 != 2
    then record { result = illegal; written = none; state = s }
    else if s'.expected_remaining_bytes == 0
    then complete i s'
    else rest

pub handle_continuation_bytes : Memory → Ptr → ℕ → MbState → Call
handle_continuation_bytes m input input_bytes s = continuation_loop input_bytes 0 m input s

-- `for(; next & (0b10000000 >> count); count++);`, for the bits of `next` from bit `i` down.
abbrev pub count_ones : (bits : ℕ) → ℕ → ℕ → ℕ
count_ones zero next count = count
count_ones (suc i) next count =
    let more = count_ones i next (count + 1) in if next / 2 ^ i % 2 == 1 then more else count

-- `if((long)rem > 0) rem++;`
abbrev pub one_more : MbResult → MbResult
one_more (parsed zero) = parsed zero
one_more (parsed (suc n)) = parsed (suc (suc n))
one_more illegal = illegal
one_more incomplete = incomplete

-- The first byte of a character of `count` bytes, and the rest of it.
pub handle_first : ℕ → Memory → Ptr → ℕ → Call
handle_first count m input input_bytes =
    let c = handle_continuation_bytes m (input + 1) (input_bytes - 1) (record {
      buffer = m input % 2 ^ (7 - count);
      expected_length = count;
      expected_remaining_bytes = count - 1;
    }) in
    record c { result = one_more c.result }

-- A byte from 128 on where a character starts.
pub handle_lead : Memory → Ptr → ℕ → Call
handle_lead m input input_bytes =
    let count = count_ones 8 (m input) 0 in
    if ltb count 2 || ltb 4 count
    then record { result = illegal; written = none; state = no_state }
    else handle_first count m input input_bytes

-- `mbrtowc`; an `input` of `none` is NULL.
pub mbrtowc : Memory → Option Ptr → ℕ → MbState → Call
mbrtowc m none input_bytes s =
    if s.expected_remaining_bytes == 0
    then record { result = parsed 0; written = none; state = no_state }
    else record { result = illegal; written = none; state = s }
mbrtowc m (some input) input_bytes s =
    if input_bytes == 0
    then record { result = incomplete; written = none; state = s }
    else if ltb 0 s.expected_remaining_bytes
    then handle_continuation_bytes m input input_bytes s
    else if leb 128 (m input)
    then handle_lead m input input_bytes
    else record {
      result = parsed (if m input != 0 then 1 else 0);
      written = some (m input);
      state = s;
    }

-- `mbrlen`
pub mbrlen : Memory → Option Ptr → ℕ → MbState → MbResult × MbState
mbrlen m s n ps = let c = mbrtowc m s n ps in (c.result, c.state)

-- What `mbsrtowcs` comes to: the count, the characters in `dest`, `*src` (`none` for NULL) and the
-- state; -1, with the state cleared; or `abort`.
pub data MbsResult : Type 0 where
  converted : (count : ℕ) → (dest : List ℕ) → (src : Option Ptr) → MbState → MbsResult
  failed : (dest : List ℕ) → (src : Ptr) → MbsResult
  aborted : MbsResult

abbrev pub before : Option ℕ → MbsResult → MbsResult
before (some c) (converted n dest src s) = converted n (c ∷ dest) src s
before (some c) (failed dest src) = failed (c ∷ dest) src
before none r = r
before c aborted = aborted

-- How the loop of `mbsrtowcs` at `curr` goes on behind a call of `mbrtowc`.
abbrev pub went_on : ℕ → Ptr → MbResult → Option ℕ → MbState → (Ptr → MbsResult) → MbsResult
went_on i curr (parsed zero) w s rest = before w (converted i [] none s)
went_on i curr (parsed (suc n)) w s rest = before w (rest (curr + suc n))
went_on i curr illegal w s rest = failed [] curr
went_on i curr incomplete w s rest = aborted

-- The loop of `mbsrtowcs` at `curr` with a `dest`, `i` characters done and `left` slots to go.
pub mbsrtowcs_loop : (left i : ℕ) → Memory → Ptr → MbState → MbsResult
mbsrtowcs_loop zero i m curr s = converted i [] (some curr) s
mbsrtowcs_loop (suc left) i m curr s =
    let c = mbrtowc m (some curr) (2 ^ 64 - 1) s in
    went_on i curr c.result c.written c.state (λ next. mbsrtowcs_loop left (i + 1) m next c.state)

-- `mbsrtowcs` with a `dest` that is not NULL.
pub mbsrtowcs : ℕ → Memory → Ptr → MbState → MbsResult
mbsrtowcs len m src ps = mbsrtowcs_loop len 0 m src ps
