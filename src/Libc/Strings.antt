-- ===== src/Libc/Strings.antt =====
-- `strcasecmp`, custom_libc/strings.c.
pub mod Fold
mod Tests
use stuos.Prelude.{ℕ, zero, suc, ◌+◌, ◌%◌, ◌^◌, Bool, ◌==◌, ◌&&◌, not, if◌then◌else◌}
use stuos.Prelude.Int.{ℤ, pos, pos_part, sub_ℕ}
use stuos.Libc.Memory.{Ptr, Memory, Run, returns, out_of_fuel}
use stuos.Libc.Ctype.{tolower, to_unsigned}

-- `(unsigned char)tolower(c)`, for an `unsigned char`.
pub fold : ℕ → ℕ
fold c = to_unsigned 8 (tolower (pos c))

pub strcasecmp : ℕ → Ptr → Ptr → Memory → Run ℤ
strcasecmp zero s1 s2 m = out_of_fuel
strcasecmp (suc fuel) s1 s2 m =
    let rest = strcasecmp fuel (s1 + 1) (s2 + 1) m in
    if not (m s1 == 0) && not (m s2 == 0)
    then if fold (m s1) == fold (m s2) then rest else returns (sub_ℕ (fold (m s1)) (fold (m s2)))
    else returns (sub_ℕ (m s1) (m s2))
