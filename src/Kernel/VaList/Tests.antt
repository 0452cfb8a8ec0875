-- ===== src/Kernel/VaList/Tests.antt =====
-- The variable arguments at one call.
use stuos.Prelude.{◌≡◌, refl, arith}
use stuos.Libc.Memory.{Ptr, Memory}
use stuos.Kernel.Outcome.{done}
use stuos.Kernel.VaList.{VaList, float_reg, va_arg}
use stuos.Kernel.VaList.Places.{IsPlaced, va_arg-IsPlaced}

abbrev list : VaList
list = record { gp_offset = 8; fp_offset = 48; overflow_arg_area = 0x2000; reg_save_area = 0x1000 }

va_arg-IsPlaced_example :
    (p : Ptr) × (m' : Memory) × (v' : VaList) × (va_arg float_reg 16 8 list (λ a. a)
      ≡ done (p, m', v'))
    × IsPlaced 16 p list v'
va_arg-IsPlaced_example =
    va_arg-IsPlaced float_reg 16 8 list (λ a. a) tt
      (record {
        general = omega arith;
        above = omega arith;
        floating = omega arith;
        at_register = refl;
      })
      (omega arith) (omega arith)
