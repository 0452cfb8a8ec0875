-- ===== src/Kernel/Keyboard/Usb.antt =====
-- The USB keyboard, stuos/src/xhci_keyboard.c.
pub mod Changes
mod Tests
use stuos.Prelude.{
  ℕ, Bool, true, false, ◌==◌, ◌!=◌, ◌&&◌, ◌||◌, not, if◌then◌else◌, List, [], ◌∷◌, ◌++◌,
}
use stuos.Kernel.Keyboard.{Row, key, look_up, toupper}

abbrev pub key_map : List Row
key_map =
    key 0x04 97 65
    ∷ key 0x05 98 66
    ∷ key 0x06 99 67
    ∷ key 0x07 100 68
    ∷ key 0x08 101 69
    ∷ key 0x09 102 70
    ∷ key 0x0a 103 71
    ∷ key 0x0b 104 72
    ∷ key 0x0c 105 73
    ∷ key 0x0d 106 74
    ∷ key 0x0e 107 75
    ∷ key 0x0f 108 76
    ∷ key 0x10 109 77
    ∷ key 0x11 110 78
    ∷ key 0x12 111 79
    ∷ key 0x13 112 80
    ∷ key 0x14 113 81
    ∷ key 0x15 114 82
    ∷ key 0x16 115 83
    ∷ key 0x17 116 84
    ∷ key 0x18 117 85
    ∷ key 0x19 118 86
    ∷ key 0x1a 119 87
    ∷ key 0x1b 120 88
    ∷ key 0x1c 121 89
    ∷ key 0x1d 122 90
    ∷ key 0x1e 49 33
    ∷ key 0x1f 50 64
    ∷ key 0x20 51 35
    ∷ key 0x21 52 36
    ∷ key 0x22 53 37
    ∷ key 0x23 54 94
    ∷ key 0x24 55 38
    ∷ key 0x25 56 42
    ∷ key 0x26 57 40
    ∷ key 0x27 48 41
    ∷ key 0x28 10 10
    ∷ key 0x2a 8 8
    ∷ key 0x2b 9 9
    ∷ key 0x2c 32 32
    ∷ key 0x2d 45 95
    ∷ key 0x2e 61 43
    ∷ key 0x2f 91 123
    ∷ key 0x30 93 125
    ∷ key 0x31 92 124
    ∷ key 0x32 35 126
    ∷ key 0x33 59 58
    ∷ key 0x34 39 34
    ∷ key 0x35 96 126
    ∷ key 0x36 44 60
    ∷ key 0x37 46 62
    ∷ key 0x38 47 63
    ∷ []

-- `struct PacketRecvState`, of the previous report its key codes.
pub record PacketRecvState : Type 0 where
  pub previous_report : List ℕ
  pub shift_currently_pressed : Bool
  pub capslock_on : Bool

-- The changes that `handle_keypress` makes to the state.
abbrev pub note_modifiers : ℕ → Bool → PacketRecvState → PacketRecvState
note_modifiers keycode is_break s =
    let s₁ =
      if keycode == 0xe1 || keycode == 0xe5
      then record s { shift_currently_pressed = not is_break }
      else s in
    if keycode == 0x39 then record s₁ { capslock_on = not is_break } else s₁

pub handle_keypress : ℕ → Bool → PacketRecvState → ℕ × PacketRecvState
handle_keypress keycode is_break s =
    let s' = note_modifiers keycode is_break s in
    let character = look_up key_map keycode s'.shift_currently_pressed in
    if is_break then (0, s') else ((if s'.capslock_on then toupper character else character), s')

-- `codes_sparse`
abbrev pub Sparse : Type 0
Sparse = ℕ → ℕ

abbrev pub put_code : ℕ → ℕ → Sparse → Sparse
put_code code v codes c = if c == code then v else codes c

-- The first loop of `packet_recv`: the codes of the report.
pub mark_pressed : List ℕ → Sparse → Sparse
mark_pressed [] codes = codes
mark_pressed (keycode ∷ rest) codes =
    mark_pressed rest (if keycode == 0 then codes else put_code keycode 1 codes)

-- A call of `handle_keypress`: the code, and whether the key was released.
pub record Change : Type 0 where
  pub keycode : ℕ
  pub is_break : Bool

abbrev pub released : ℕ → Change
released c = record { keycode = c; is_break = true }

abbrev pub pressed : ℕ → Change
pressed c = record { keycode = c; is_break = false }

-- The second loop: the keys of the previous report that are up now.
pub find_released : List ℕ → Sparse → List Change × Sparse
find_released [] codes = ([], codes)
find_released (old ∷ rest) codes =
    let after = find_released rest (if old == 0 then codes else put_code old 2 codes) in
    ((if old != 0 && codes old == 0 then released old ∷ after.0 else after.0), after.1)

-- The third loop: the keys that are down and were not.
pub find_pressed : List ℕ → Sparse → List Change
find_pressed [] codes = []
find_pressed (keycode ∷ rest) codes =
    let after = find_pressed rest codes in
    if keycode != 0 && codes keycode == 1 then pressed keycode ∷ after else after

-- The characters that the terminal gets for some changes.
pub type_changes : List Change → PacketRecvState → List ℕ × PacketRecvState
type_changes [] s = ([], s)
type_changes (c ∷ cs) s =
    let (character, s₁) = handle_keypress c.keycode c.is_break s in
    let (characters, s₂) = type_changes cs s₁ in (character ∷ characters, s₂)

-- The changes that `packet_recv` sees between two reports.
pub changes : List ℕ → List ℕ → List Change
changes previous codes =
    let (up, marked) = find_released previous (mark_pressed codes (λ c. 0)) in
    up ++ find_pressed codes marked

-- `packet_recv` up to the queueing of the next transfer: the characters for the terminal.
pub packet_recv : List ℕ → PacketRecvState → List ℕ × PacketRecvState
packet_recv codes s =
    let (characters, s') = type_changes (changes s.previous_report codes) s in
    (characters, record s' { previous_report = codes })
