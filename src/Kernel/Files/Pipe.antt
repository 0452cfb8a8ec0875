-- ===== src/Kernel/Files/Pipe.antt =====
-- What comes out of a pipe.
use stuos.Prelude.{
  ℕ, zero, suc, ◌+◌, ◌-◌, ◌%◌, ◌^◌, ◌≤◌, ◌<◌, ◌≡◌, refl, true, ltb, if◌then◌else◌, arith, ◌∙◌, sym,
  ap, ap₂, Bool-cases, inl, inr, List, [], ◌∷◌, ◌++◌, length, take, length-append, length-drop,
  some,
}
use stuos.Kernel.Outcome.{done}
use stuos.Kernel.Files.{
  Side, opposite, Pipe, put_end, fop_generate_pipe, Written, pipe_write, pipe_read,
}
use stuos.Kernel.Files.Refill.{
  pipe_writes, concat, IsUnread, take_all, pipe_write-open, put_end-same, put_end-other,
  pipe_writes-IsUnread, pipe_read-waiting,
}

-- How many bytes a read of `num` takes of `size` that wait, none of them read before.
taken :
    (num size : ℕ)
    → size < 2 ^ 64
    → (if ltb num ((size + 2 ^ 64 - 0) % 2 ^ 64) then num else (size + 2 ^ 64 - 0) % 2 ^ 64)
      ≡ (if ltb num size then num else size)
taken num size small = let e : (size + 2 ^ 64 - 0) % 2 ^ 64 ≡ size = omega arith in rw e refl

take_more : (xs : List ℕ) (n : ℕ) → length xs ≤ n → take n xs ≡ xs
take_more [] zero le = refl
take_more [] (suc n) le = refl
take_more (x ∷ xs) zero le = absurd (omega (arith, le))
take_more (x ∷ xs) (suc n) le = ap (λ r. x ∷ r) (take_more xs n (omega (arith, le)))

take_fewer :
    (xs : List ℕ) (n : ℕ) → take (if ltb n (length xs) then n else length xs) xs ≡ take n xs
take_fewer xs n = elim (Bool-cases (ltb n (length xs))) [
  | inl less ↦ rw less refl
  | inr all ↦ rw all (take_all xs (length xs) refl ∙ sym (take_more xs n (ground arith)))
]

-- A read of `num` bytes from an end that nothing was read from.
pipe_read-unread :
    (side : Side) (num : ℕ) (p : Pipe)
    → (p side).connected ≡ true
    → (p side).reader_next_byte ≡ 0
    → 0 < num
    → 0 < length (p side).buffer
    → length (p side).buffer < 2 ^ 64
    → (n : ℕ) × (pipe_read (some side) num p
        ≡ done (
          record { read_something = true; bytes = take num (p side).buffer },
          put_end side (record (p side) { reader_next_byte = n }) p,
        ))
      × (num ≤ length (p side).buffer → n ≡ num)
pipe_read-unread side num p here unread some_num some_bytes small =
    let size = length (p side).buffer in
    let count = (if ltb num size then num else size) in
    let within : count ≤ size = ground arith in
    let positive : count ≡ suc (count - 1) = ground arith in
    let asked : (if ltb num ((size + 2 ^ 64 - (p side).reader_next_byte) % 2 ^ 64)
          then num
          else (size + 2 ^ 64 - (p side).reader_next_byte) % 2 ^ 64)
        ≡ suc (count - 1) =
      rw unread (taken num size small ∙ positive) in
    let next : ((p side).reader_next_byte + suc (count - 1)) % 2 ^ 64 ≡ count =
      rw unread (omega (arith, positive, within, small)) in
    (
      count,
      pipe_read-waiting side num (count - 1) p here some_num asked
          ∙ ap₂
              (λ bs n. done (
                record { read_something = true; bytes = bs },
                put_end side (record (p side) { reader_next_byte = n }) p,
              ))
              (ap (λ k. take k (p side).buffer) (sym positive) ∙ take_fewer (p side).buffer num)
              next,
      λ le. ground arith,
    )

-- What is written to one end of a new pipe, in whatever pieces, at least one byte and fewer than
-- 2^64 in all, is read from the other: the first read of `num` bytes, `num` not 0, returns the
-- first `num` bytes of all that was written, or all of it where that is less. No write before the
-- first read writes past its buffer.
pub pipe_read-pipe_writes :
    (side : Side) (outputs : List (List ℕ)) (num : ℕ)
    → 0 < num
    → 0 < length (concat outputs)
    → length (concat outputs) < 2 ^ 64
    → (p : Pipe) × (p' : Pipe) × (pipe_writes side outputs fop_generate_pipe ≡ done p)
      × (pipe_read (some (opposite side)) num p
          ≡ done (record { read_something = true; bytes = take num (concat outputs) }, p'))
unfolding fop_generate_pipe
pipe_read-pipe_writes side outputs num some_num some_bytes small =
    let (p, e, u) =
      pipe_writes-IsUnread side outputs [] fop_generate_pipe
        (record { here = refl; there = refl; holds = refl; unread = refl })
        (omega (arith, small)) in
    let size = ap length u.holds in
    let (n, r, k) =
      pipe_read-unread (opposite side) num p u.there u.unread some_num
        (omega (arith, some_bytes, size)) (omega (arith, small, size)) in
    (
      p,
      put_end (opposite side) (record (p (opposite side)) { reader_next_byte = n }) p,
      e,
      r
          ∙ ap
              (λ bs. done (
                record { read_something = true; bytes = take num bs },
                put_end (opposite side) (record (p (opposite side)) { reader_next_byte = n }) p,
              ))
              u.holds,
    )

-- Both ends open, behind a first read of `num` bytes, `num` not 0, from an end that holds at least
-- twice as many: a second read of `num` bytes returns the first bytes once more, and any write to
-- that end, of a length that keeps the sum below 2^64, writes `num` bytes past the buffer that it
-- allocates.
pub pipe_read-again :
    (writer : Side) (bytes output : List ℕ) (num : ℕ) (p : Pipe)
    → IsUnread writer bytes p
    → 0 < num
    → num + num ≤ length bytes
    → length bytes + length output < 2 ^ 64
    → (p₁ : Pipe) × (p₂ : Pipe) × (w : Written) × (pipe_read (some (opposite writer)) num p
        ≡ done (record { read_something = true; bytes = take num bytes }, p₁))
      × (pipe_read (some (opposite writer)) num p₁
          ≡ done (record { read_something = true; bytes = take num bytes }, p₂))
      × (pipe_write (some writer) output p₁ ≡ done w)
      × (length w.past_end ≡ num)
pipe_read-again writer bytes output num p u some_num twice small =
    let reader = opposite writer in
    let size = ap length u.holds in
    let (n, e₁, at) =
      pipe_read-unread reader num p u.there u.unread some_num (omega (arith, some_num, twice, size))
        (omega (arith, small, size)) in
    let n-num : n ≡ num = at (omega (arith, twice, size)) in
    let p₁ = put_end reader (record (p reader) { reader_next_byte = n }) p in
    let same = put_end-same reader (record (p reader) { reader_next_byte = n }) p in
    let held : (p₁ reader).buffer ≡ bytes = ap (λ x. x.buffer) same ∙ u.holds in
    let next : (p₁ reader).reader_next_byte ≡ num = ap (λ x. x.reader_next_byte) same ∙ n-num in
    let p₂ =
      put_end reader
        (record (p₁ reader) {
          reader_next_byte = ((p₁ reader).reader_next_byte + suc (num - 1)) % 2 ^ 64;
        })
        p₁ in
    let back : suc (num - 1) ≡ num = omega (arith, some_num) in
    (
      p₁,
      p₂,
      _,
      e₁ ∙ ap (λ bs. done (record { read_something = true; bytes = take num bs }, p₁)) u.holds,
      pipe_read-waiting reader num (num - 1) p₁ (ap (λ x. x.connected) same ∙ u.there) some_num
            (half (length (p₁ reader).buffer) (p₁ reader).reader_next_byte (ap length held) next)
          ∙ ap₂ (λ k bs. done (record { read_something = true; bytes = take k bs }, p₂)) back held,
      pipe_write-open writer output p₁ (
          ap (λ x. x.connected)
            (put_end-other writer (record (p reader) { reader_next_byte = n }) p)
          ∙ u.here),
      length-drop _ ((p₁ reader).buffer ++ output)
          ∙ omega
              (arith, length-append (p₁ reader).buffer output, next, ap length held, twice, small),
    )
  where
    half :
        (size next : ℕ)
        → size ≡ length bytes
        → next ≡ num
        → (if ltb num ((size + 2 ^ 64 - next) % 2 ^ 64)
            then num
            else (size + 2 ^ 64 - next) % 2 ^ 64)
          ≡ suc (num - 1)
    half size next e f =
        let left : (size + 2 ^ 64 - next) % 2 ^ 64 ≡ length bytes - num =
          omega (arith, e, f, twice, small) in
        let enough : num ≤ length bytes - num = omega (arith, twice) in rw left (ground arith)
