-- ===== src/Kernel/Fat/Copy.antt =====
-- What a read or a write of the block device changes (stuos/src/fs_fat.c).
use stuos.Prelude.{ℕ, ◌+◌, ◌-◌, ◌≤◌, ◌<◌, ◌≡◌, ◌⊎◌, ltb, leb, ◌&&◌, if_true, if_false, arith}
use stuos.Kernel.Fat.{Bytes, copy_bytes}

pub copy_bytes-inside :
    (from : Bytes) (src n : ℕ) (to : Bytes) (dst a : ℕ)
    → dst ≤ a
    → a < dst + n
    → copy_bytes from src n to dst a ≡ from (src + (a - dst))
copy_bytes-inside from src n to dst a ge lt =
    if_true {b = leb dst a && ltb a (dst + n)} _ _ (ground arith)

pub copy_bytes-outside :
    (from : Bytes) (src n : ℕ) (to : Bytes) (dst a : ℕ)
    → (a < dst) ⊎ (dst + n ≤ a)
    → copy_bytes from src n to dst a ≡ to a
copy_bytes-outside from src n to dst a other =
    if_false {b = leb dst a && ltb a (dst + n)} _ _ (ground arith)
