-- ===== src/Kernel/VaList/Places.antt =====
-- Where the arguments lie.
use stuos.Prelude.{
  ℕ, zero, suc, bit_and, min, sym, subst, ◌+◌, ◌-◌, ◌/◌, ◌%◌, ◌≤◌, ◌<◌, ◌≡◌, refl, ◌==◌, leb, ltb,
  arith, Bool-cases, ◌⊎◌, inl, inr,
}
use Prim.Native.Nat.{digits, bit_and-bitwise}
use stuos.Libc.Memory.{Ptr, Memory}
use stuos.Kernel.Outcome.{done}
use stuos.Kernel.VaList.{
  ArgType, gen_reg, float_reg, stack, unknown, VaList, round_up, use_overflow_area, general_arg,
  float_arg, va_arg,
}

-- Between two calls: the offsets lie in the parts of the save area, 48 bytes for general registers
-- and 128 behind them for floating point, the second offset at a register.
pub record IsList (v : VaList) : Type 0 where
  pub general : v.gp_offset ≤ 48
  pub above : 48 ≤ v.fp_offset
  pub floating : v.fp_offset ≤ 176
  pub at_register : v.fp_offset % 16 ≡ 0

-- The parts of memory that a list has not given out yet have become smaller, and an argument of
-- `size` bytes at `p` lies in what they have lost.
pub record IsPlaced (size p : ℕ) (v v' : VaList) : Type 0 where
  pub list : IsList v'
  pub same_area : v'.reg_save_area ≡ v.reg_save_area
  pub later_general : v.gp_offset ≤ v'.gp_offset
  pub later_floating : v.fp_offset ≤ v'.fp_offset
  pub later_overflow : v.overflow_arg_area ≤ v'.overflow_arg_area
  pub place :
      ((v.reg_save_area + v.gp_offset ≤ p) × (p + size ≤ v.reg_save_area + v'.gp_offset))
      ⊎ ((v.reg_save_area + v.fp_offset ≤ p) × (p + size ≤ v.reg_save_area + v'.fp_offset))
      ⊎ ((v.overflow_arg_area ≤ p) × (p + size ≤ v'.overflow_arg_area))

digits-le : (n a b : ℕ) → digits (λ x. 0) min n a b ≤ b
digits-le zero a b = omega arith
digits-le (suc n) zero b = omega arith
digits-le (suc n) (suc a) b = omega (arith, digits-le n (suc a / 2) (b / 2))

bit_and-le : (a b : ℕ) → bit_and a b ≤ b
bit_and-le a b = subst (λ x. x ≤ b) (sym (bit_and-bitwise a b)) (digits-le a a b)

-- An address rounded up.
rounded : (x align : ℕ) → 0 < align → x ≤ x + align - 1 - bit_and (x + align - 1) (align - 1)
rounded x align lt = omega (arith, bit_and-le (x + align - 1) (align - 1))

overflow-IsPlaced :
    (size align : ℕ) (v : VaList)
    → IsList v
    → 0 < align
    → let (p, v') = use_overflow_area size align v in IsPlaced size p v v'
unfolding use_overflow_area
overflow-IsPlaced size align v l lt =
    let up = rounded (v.overflow_arg_area + size) align lt in
    record {
      list = record {
        general = l.general;
        above = l.above;
        floating = l.floating;
        at_register = l.at_register;
      };
      same_area = refl;
      later_general = omega arith;
      later_floating = omega arith;
      later_overflow = omega (arith, up);
      place = inr (inr (omega (arith, up), omega (arith, up)));
    }

general-IsPlaced :
    (size align : ℕ) (v : VaList)
    → IsList v
    → 0 < align
    → let (p, v') = general_arg size align v in IsPlaced size p v v'
unfolding general_arg
general-IsPlaced size align v l lt = elim (Bool-cases (leb (v.gp_offset + size) 48)) [
  | inl fits ↦
      let room : v.gp_offset + size ≤ 48 = ground arith in
      rw fits (record {
        list = record {
          general = room;
          above = l.above;
          floating = l.floating;
          at_register = l.at_register;
        };
        same_area = refl;
        later_general = omega arith;
        later_floating = omega arith;
        later_overflow = omega arith;
        place = inl (omega arith, omega arith);
      })
  | inr full ↦ rw full (overflow-IsPlaced size align v l lt)
]

-- The first register skipped, the argument in the overflow area.
IsPlaced-skip :
    (size p : ℕ) (v v' : VaList)
    → v.fp_offset + 16 ≤ 176
    → IsPlaced size p (record v { fp_offset = v.fp_offset + 16 }) v'
    → IsPlaced size p v v'
IsPlaced-skip size p v v' room s = record {
  list = s.list;
  same_area = s.same_area;
  later_general = s.later_general;
  later_floating = omega (arith, s.later_floating);
  later_overflow = s.later_overflow;
  place = elim s.place [
    | inl g ↦ inl g
    | inr (inl f) ↦ inr (inl (omega (arith, f), f.1))
    | inr (inr o) ↦ inr (inr o)
  ];
}

-- An argument in the next floating point registers.
register-IsPlaced :
    (size p fp : ℕ) (v : VaList)
    → IsList v
    → p ≡ v.reg_save_area + v.fp_offset
    → v.fp_offset ≤ fp
    → fp ≤ 176
    → fp % 16 ≡ 0
    → v.fp_offset + size ≤ fp
    → IsPlaced size p v (record v { fp_offset = fp })
register-IsPlaced size p fp v l at later room multiple fits = record {
  list = record {
    general = l.general;
    above = omega (arith, l.above, later);
    floating = room;
    at_register = multiple;
  };
  same_area = refl;
  later_general = omega arith;
  later_floating = later;
  later_overflow = omega arith;
  place = inr (inl (omega (arith, at), omega (arith, at, fits)));
}

float-IsPlaced :
    (size align : ℕ) (v : VaList) (m : Memory)
    → IsList v
    → 0 < align
    → size ≤ 32
    → let (p, m', v') = float_arg size align v m in IsPlaced size p v v'
unfolding float_arg
float-IsPlaced size align v m l lt small = elim (Bool-cases (ltb v.fp_offset 176)) [
  | inr full ↦ rw full (overflow-IsPlaced size align v l lt)
  | inl here ↦
      let room : v.fp_offset + 16 ≤ 176 = ground (arith, l.at_register) in
      elim (Bool-cases (size == 8)) [
        | inl one ↦
            let eight : size ≡ 8 = ground arith in
            rw (here, one)
              (register-IsPlaced size _ (v.fp_offset + 16) v l (omega arith) (omega arith) room
                (omega (arith, l.at_register)) (omega arith))
        | inr more ↦ elim (Bool-cases (ltb (v.fp_offset + 16) 176)) [
          | inl two ↦
              let room' : v.fp_offset + 16 + 16 ≤ 176 = ground (arith, l.at_register) in
              rw (here, more, two)
                (register-IsPlaced size _ (v.fp_offset + 16 + 16) v l (omega arith) (omega arith)
                  room' (omega (arith, l.at_register)) (omega (arith, small)))
          | inr last ↦
              rw (here, more, last)
                (IsPlaced-skip size _ v _ room (
                  overflow-IsPlaced size align (record v { fp_offset = v.fp_offset + 16 })
                    (record {
                      general = l.general;
                      above = omega (arith, l.above);
                      floating = room;
                      at_register = omega (arith, l.at_register);
                    })
                    lt))
        ]
      ]
]

-- The types that `__va_arg` knows.
abbrev pub IsKnown : ArgType → Type 0
IsKnown gen_reg = Unit
IsKnown float_reg = Unit
IsKnown stack = Unit
IsKnown unknown = ⊥

-- `__va_arg` of a known type, for an alignment that is not 0 and a size of at most 32 bytes, from
-- offsets within their parts of the save area: it does not halt, the offsets stay within those
-- parts, and the argument, its size rounded up to whole registers, lies in what the list had not
-- given out before and has given out now, of the general registers, the floating point registers
-- or the overflow area.
pub va_arg-IsPlaced :
    (t : ArgType) (size align : ℕ) (v : VaList) (m : Memory)
    → IsKnown t
    → IsList v
    → 0 < align
    → size ≤ 32
    → (p : Ptr) × (m' : Memory) × (v' : VaList) × (va_arg t size align v m ≡ done (p, m', v'))
      × IsPlaced (round_up size) p v v'
unfolding va_arg
va_arg-IsPlaced gen_reg size align v m known l lt small =
    (_, _, _, refl, general-IsPlaced (round_up size) (round_up align) v l (omega (arith, lt)))
va_arg-IsPlaced float_reg size align v m known l lt small = (
  _,
  _,
  _,
  refl,
  float-IsPlaced (round_up size) (round_up align) v m l (omega (arith, lt)) (omega (arith, small)),
)
va_arg-IsPlaced stack size align v m known l lt small =
    (_, _, _, refl, overflow-IsPlaced (round_up size) (round_up align) v l (omega (arith, lt)))
va_arg-IsPlaced unknown size align v m known l lt small = absurd known
