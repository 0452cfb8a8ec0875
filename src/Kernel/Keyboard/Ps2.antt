-- ===== src/Kernel/Keyboard/Ps2.antt =====
-- The PS/2 keyboard, stuos/src/ps2_driver.c with SCANCODE_VERSION 2.
-- The bytes that wait in the controller are a list, and the characters go to the terminal of
-- Kernel.Tty; 0 stands for a key without a character, as it does in the code.
pub mod Decode
pub mod Input
pub mod Pause
mod Tests
use stuos.Prelude.{
  ℕ, ◌+◌, ◌-◌, ◌*◌, ◌/◌, ◌%◌, ◌^◌, Bool, true, false, ◌==◌, ◌!=◌, ltb, ◌&&◌, ◌||◌, not,
  if◌then◌else◌, List, [], ◌∷◌,
}
use stuos.Kernel.Outcome.{Outcome, done, halted, ◌>>=◌}
use stuos.Kernel.Tty.{Tty, tty_provide_stdin}
use stuos.Kernel.Keyboard.{Row, key, look_up, toupper}

abbrev pub left_shift : ℕ
left_shift = 0x12

abbrev pub right_shift : ℕ
right_shift = 0x59

abbrev pub caps_lock : ℕ
caps_lock = 0x58

abbrev pub lookup_nonextended : List Row
lookup_nonextended =
    key 0x1c 97 0
    ∷ key 0x32 98 0
    ∷ key 0x21 99 0
    ∷ key 0x23 100 0
    ∷ key 0x24 101 0
    ∷ key 0x2b 102 0
    ∷ key 0x34 103 0
    ∷ key 0x33 104 0
    ∷ key 0x43 105 0
    ∷ key 0x3b 106 0
    ∷ key 0x42 107 0
    ∷ key 0x4b 108 0
    ∷ key 0x3a 109 0
    ∷ key 0x31 110 0
    ∷ key 0x44 111 0
    ∷ key 0x4d 112 0
    ∷ key 0x15 113 0
    ∷ key 0x2d 114 0
    ∷ key 0x1b 115 0
    ∷ key 0x2c 116 0
    ∷ key 0x3c 117 0
    ∷ key 0x2a 118 0
    ∷ key 0x1d 119 0
    ∷ key 0x22 120 0
    ∷ key 0x35 121 0
    ∷ key 0x1a 122 0
    ∷ key 0x16 49 33
    ∷ key 0x1e 50 34
    ∷ key 0x26 51 0
    ∷ key 0x25 52 36
    ∷ key 0x2e 53 37
    ∷ key 0x36 54 94
    ∷ key 0x3d 55 33
    ∷ key 0x3e 56 42
    ∷ key 0x46 57 40
    ∷ key 0x45 48 41
    ∷ key 0x4e 45 95
    ∷ key 0x55 61 43
    ∷ key 0x5a 10 0
    ∷ key 0x66 8 0
    ∷ key 0x29 32 0
    ∷ key 0x4a 47 63
    ∷ key 0x49 46 62
    ∷ key 0x41 44 60
    ∷ key 0x5d 92 124
    ∷ key 0x4c 59 58
    ∷ key 0x52 39 64
    ∷ []

-- The static variables of `parse_full_buffer`.
pub record Keys : Type 0 where
  pub capslock : Bool
  pub shift : Bool

-- `union BufferData`
abbrev pub first_byte : ℕ → ℕ
first_byte all_bytes = all_bytes % 256

abbrev pub second_byte : ℕ → ℕ
second_byte all_bytes = all_bytes / 2 ^ 8 % 256

abbrev pub third_byte : ℕ → ℕ
third_byte all_bytes = all_bytes / 2 ^ 16 % 256

-- The break and the extended flag of a sequence.
abbrev pub flags : ℕ → Outcome (Bool × Bool)
flags all_bytes =
    if third_byte all_bytes == 0xe0
    then if second_byte all_bytes != 0xf0 then halted else done (true, true)
    else if third_byte all_bytes != 0
    then halted
    else if second_byte all_bytes == 0xf0
    then done (true, false)
    else if second_byte all_bytes == 0xe0
    then done (false, true)
    else if second_byte all_bytes == 0
    then done (false, false)
    else halted

-- The character of a key: `lookup_nonextended[code][shift]`, or the one without shift.
pub key_value : ℕ → Bool → ℕ
key_value code shift =
    let value = look_up lookup_nonextended code shift in
    if value == 0 then look_up lookup_nonextended code false else value

-- `parse_full_buffer` behind the test of the flags.
unfoldable pub parse_key : Bool → Bool → ℕ → Keys → Outcome (ℕ × Keys)
parse_key is_break is_extended code k =
    if not is_extended && code == caps_lock
    then done (0, (if is_break then k else record k { capslock = not k.capslock }))
    else if (code == left_shift || code == right_shift) && not is_extended
    then done (0, record k { shift = not is_break })
    else if is_break
    then done (0, k)
    else if not (ltb code 128)
    then halted
    else let value = key_value code k.shift in
      if value == 0
      then done (0, k)
      else done (if k.shift || k.capslock then toupper value else value, k)

pub parse_full_buffer : ℕ → Keys → Outcome (ℕ × Keys)
parse_full_buffer all_bytes k =
    if all_bytes == 0xe11477e1f014e077 || all_bytes == 0xe012e07c || all_bytes == 0xe0f07ce0f012
    then done (0, k)
    else flags all_bytes >>= λ (is_break, is_extended).
        parse_key is_break is_extended (first_byte all_bytes) k

-- The static variables of `handle_incoming_byte`, and those of `parse_full_buffer`.
pub record Ps2 : Type 0 where
  pub expected_number_of_bytes : ℕ
  pub buffer : ℕ
  pub keys : Keys

-- One round of the loop of `handle_incoming_byte`, which hands the character of a whole sequence to
-- the terminal.
pub handle_byte : ℕ → Ps2 → Tty → Outcome (Ps2 × Tty)
handle_byte first s t =
    let all_bytes = s.buffer * 2 ^ 8 % 2 ^ 64 + first in
    let more =
      if first == 0xe0 || first == 0xf0
      then s.expected_number_of_bytes + 1
      else s.expected_number_of_bytes in
    let expected = (if first == 0xe1 then 7 else more) - 1 in
    if expected == 0
    then (parse_full_buffer all_bytes s.keys >>= λ (c, keys). tty_provide_stdin c t >>= λ t'.
        done (record { expected_number_of_bytes = 1; buffer = 0; keys = keys }, t'))
    else done (record s { expected_number_of_bytes = expected; buffer = all_bytes }, t)

-- `handle_incoming_byte` while the bytes are there.
pub handle_incoming_byte : List ℕ → Ps2 → Tty → Outcome (Ps2 × Tty)
handle_incoming_byte [] s t = done (s, t)
handle_incoming_byte (first ∷ rest) s t =
    handle_byte first s t >>= λ (s', t'). handle_incoming_byte rest s' t'
