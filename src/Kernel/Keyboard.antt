-- ===== src/Kernel/Keyboard.antt =====
-- The two keyboard drivers, stuos/src/ps2_driver.c and stuos/src/xhci_keyboard.c.
pub mod Ps2
pub mod Usb
use stuos.Prelude.{
  ℕ, Bool, true, false, ◌==◌, ltb, ◌&&◌, leb, ◌-◌, ◌+◌, if◌then◌else◌, List, [], ◌∷◌,
}

-- A row of a key table: the code, and the characters without and with shift, 0 for none.
pub record Row : Type 0 where
  pub code : ℕ
  pub plain : ℕ
  pub shifted : ℕ

abbrev pub key : ℕ → ℕ → ℕ → Row
key c x y = record { code = c; plain = x; shifted = y }

-- `table[code][shift]`
abbrev pub look_up : List Row → ℕ → Bool → ℕ
look_up [] code shift = 0
look_up (r ∷ rows) code shift =
    let rest = look_up rows code shift in
    if code == r.code then if shift then r.shifted else r.plain else rest

-- `toupper` of stuos/src/kern_libc.c, on a `char` that is not negative.
unfoldable pub toupper : ℕ → ℕ
toupper c = if leb 97 c && leb c 122 then c - 32 else c
