-- ===== src/Kernel/Files.antt =====
-- The file operations behind a descriptor, stuos/src/pipes_and_files.c.
-- The kernel's `malloc` is taken to succeed. What `memcpy` writes behind the buffer that
-- `pipe_write` allocates is a result of its own.
pub mod Refill
pub mod Pipe
pub mod Stdout
mod Tests
use stuos.Prelude.{
  ℕ, ◌+◌, ◌-◌, ◌%◌, ◌^◌, Bool, true, false, ◌==◌, ltb, ◌||◌, not, if◌then◌else◌, List, [], ◌∷◌,
  ◌++◌, length, take, drop, Option, none, some,
}
use stuos.Libc.Memory.{Ptr, Memory}
use stuos.Kernel.Outcome.{Outcome, done, halted, ◌>>=◌}
use stuos.Kernel.Tty.{Tty, tty_write_char, tty_read}

-- `struct PipeSpecialData`: `connected` tells that `other_pipe_data` is not NULL, and
-- `buffer_length` is the length of the buffer.
pub record PipeEnd : Type 0 where
  pub connected : Bool
  pub buffer : List ℕ
  pub reader_next_byte : ℕ

pub data Side : Type 0 where
  left : Side
  right : Side

abbrev pub opposite : Side → Side
opposite left = right
opposite right = left

-- The two ends that `fop_generate_pipe` makes.
abbrev pub Pipe : Type 0
Pipe = Side → PipeEnd

abbrev pub put_end : Side → PipeEnd → Pipe → Pipe
put_end left e p left = e
put_end left e p right = p right
put_end right e p left = p left
put_end right e p right = e

abbrev pub new_end : PipeEnd
new_end = record { connected = true; buffer = []; reader_next_byte = 0 }

pub fop_generate_pipe : Pipe
fop_generate_pipe side = new_end

-- What `pipe_write` leaves: the bytes that it wrote behind its new buffer, and the pipe.
pub record Written : Type 0 where
  pub num : ℕ
  pub past_end : List ℕ
  pub pipe : Pipe

-- `pipe_write` of the bytes `output` to an end, `none` for NULL.
pub pipe_write : Option Side → List ℕ → Pipe → Outcome Written
pipe_write none output p = halted
pipe_write (some side) output p =
    let data_end = p (opposite side) in
    if not (p side).connected
    then halted
    else let new_buffer_length =
        (length output + length data_end.buffer + 2 ^ 64 - data_end.reader_next_byte) % 2 ^ 64 in
      let copied = data_end.buffer ++ output in
      done (record {
        num = length output;
        past_end = drop new_buffer_length copied;
        pipe =
            put_end (opposite side)
              (record data_end { buffer = take new_buffer_length copied; reader_next_byte = 0 }) p;
      })

-- `struct FopReadResult`, with the bytes that were read.
pub record FopReadResult : Type 0 where
  pub read_something : Bool
  pub bytes : List ℕ

pub pipe_read : Option Side → ℕ → Pipe → Outcome (FopReadResult × Pipe)
pipe_read none num p = halted
pipe_read (some side) num p =
    let e = p side in
    if not e.connected || num == 0
    then done (record { read_something = true; bytes = [] }, p)
    else let waiting = (length e.buffer + 2 ^ 64 - e.reader_next_byte) % 2 ^ 64 in
      let max_bytes_to_read = if ltb num waiting then num else waiting in
      if max_bytes_to_read == 0
      then done (record { read_something = false; bytes = [] }, p)
      else done (
        record { read_something = true; bytes = take max_bytes_to_read e.buffer },
        put_end side
            (record e { reader_next_byte = (e.reader_next_byte + max_bytes_to_read) % 2 ^ 64 }) p,
      )

-- `pipe_close`: the other end, which is all that is left.
pub pipe_close : Option Side → Pipe → Outcome PipeEnd
pipe_close none p = halted
pipe_close (some side) p = done (
    if (p side).connected
    then record (p (opposite side)) { connected = false }
    else p (opposite side))

-- The loop of `stdout_write`.
pub write_chars : List ℕ → Tty → Outcome Tty
write_chars [] t = done t
write_chars (c ∷ output) t = tty_write_char c t >>= write_chars output

-- `stdout_write`, whose `special_data` is not NULL when `has_data`.
pub stdout_write : (has_data : Bool) → List ℕ → Tty → Outcome (ℕ × Tty)
stdout_write has_data output t =
    if has_data then halted else write_chars output t >>= λ t'. done (length output, t')

-- `stdin_read`: whether it read something, and how many bytes.
pub stdin_read : (has_data : Bool) → Ptr → ℕ → Memory → Tty → Outcome ((Bool × ℕ) × Memory × Tty)
stdin_read has_data output_buf num m t =
    if has_data
    then halted
    else tty_read output_buf num m t >>= λ (bytes_read, m', t').
        done ((not (bytes_read == 0), bytes_read), m', t')

-- `file_read` of a file whose `read_file` returns the bytes at an offset: the bytes, and the new
-- offset.
pub file_read : (ℕ → ℕ → List ℕ) → ℕ → ℕ → List ℕ × ℕ
file_read read_file num offset =
    let bytes = read_file offset num in (bytes, (offset + length bytes) % 2 ^ 64)

-- `file_lseek`: the new offset.
pub file_lseek : ℕ → ℕ → Outcome ℕ
file_lseek off whence = if whence == 0 then done off else halted
