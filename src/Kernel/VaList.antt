-- ===== src/Kernel/VaList.antt =====
-- The variable arguments of the kernel, stuos/src/va_list.c. An alignment is a power of two, so
-- `& -align` rounds down to a multiple of it.
pub mod Places
mod Tests
use stuos.Prelude.{ℕ, ◌+◌, ◌-◌, ◌*◌, ◌/◌, bit_and, Bool, true, false, ◌==◌, leb, ltb, if◌then◌else◌}
use stuos.Libc.Memory.{Ptr, Memory}
use stuos.Libc.Mem.{memcpy}
use stuos.Kernel.Outcome.{Outcome, done, halted}

-- `enum __va_arg_type`, and any other number.
pub data ArgType : Type 0 where
  gen_reg : ArgType
  float_reg : ArgType
  stack : ArgType
  unknown : ArgType

-- `__builtin_va_list`
pub record VaList : Type 0 where
  pub gp_offset : ℕ
  pub fp_offset : ℕ
  pub overflow_arg_area : Ptr
  pub reg_save_area : Ptr

-- `(n + 7) & ~7`
abbrev pub round_up : ℕ → ℕ
round_up n = (n + 7) / 8 * 8

-- `use_overflow_area`: the argument and the list behind it, for a rounded size and alignment.
-- `end & -align` is `end` without the bits of `align - 1`.
pub use_overflow_area : (size align : ℕ) → VaList → Ptr × VaList
use_overflow_area size align ap_list =
    let end = ap_list.overflow_arg_area + size + align - 1 in
    let area = end - bit_and end (align - 1) in
    (area - size, record ap_list { overflow_arg_area = area })

-- The case of a general register.
pub general_arg : (size align : ℕ) → VaList → Ptr × VaList
general_arg size align v =
    if leb (v.gp_offset + size) 48
    then (
      v.reg_save_area + (v.gp_offset + size) - size,
      record v { gp_offset = v.gp_offset + size },
    )
    else use_overflow_area size align v

-- The case of a floating point register: a value of two registers is put together with `memcpy`,
-- which the kernel has as the C library has it.
pub float_arg : (size align : ℕ) → VaList → Memory → Ptr × Memory × VaList
float_arg size align v m =
    let fp = v.fp_offset + 16 in
    let skipped = use_overflow_area size align (record v { fp_offset = fp }) in
    let stacked = use_overflow_area size align v in
    if ltb v.fp_offset 176
    then if size == 8
      then (v.reg_save_area + fp - 16, m, record v { fp_offset = fp })
      else if ltb fp 176
      then (
        v.reg_save_area + (fp + 16) - 32,
        (memcpy (v.reg_save_area + fp - 8) (v.reg_save_area + fp) 8 m).0,
        record v { fp_offset = fp + 16 },
      )
      else (skipped.0, m, skipped.1)
    else (stacked.0, m, stacked.1)

-- `__va_arg`
pub va_arg : ArgType → (size align : ℕ) → VaList → Memory → Outcome (Ptr × Memory × VaList)
va_arg gen_reg size align v m =
    let (p, v') = general_arg (round_up size) (round_up align) v in done (p, m, v')
va_arg float_reg size align v m = done (float_arg (round_up size) (round_up align) v m)
va_arg stack size align v m =
    let (p, v') = use_overflow_area (round_up size) (round_up align) v in done (p, m, v')
va_arg unknown size align v m = halted
