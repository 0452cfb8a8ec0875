-- ===== src/Libc/Wchar/Tests.antt =====
-- Runs of the multibyte routines, and their theorems there.
use stuos.Prelude.{◌≡◌, refl, arith, [], ◌∷◌, none, some, get_or}
use stuos.Libc.Memory.{Memory}
use stuos.Libc.Wchar.{MbState, no_state, mbrtowc, mbsrtowcs, converted}
use stuos.Libc.Wchar.Decode.{mbrtowc-encode}
use stuos.Libc.Wchar.Lead.{IsRead}
use stuos.Libc.Wchar.Strings.{mbsrtowcs-encode_string}

-- The euro sign and the letter `a`, from address 0.
abbrev text : Memory
text a = get_or (0xe2 ∷ 0x82 ∷ 0xac ∷ 0x61 ∷ 0 ∷ []) a 0

mbrtowc-encode_example : IsRead 0x20ac (mbrtowc text (some 0) 3 no_state)
mbrtowc-encode_example =
    mbrtowc-encode text 0 3 0x20ac no_state refl (omega arith) (refl, (refl, (refl, tt)))
      (omega arith)

mbsrtowcs-encode_string_example :
    (s' : MbState) × (s'.expected_remaining_bytes ≡ 0)
    × (mbsrtowcs 5 text 0 no_state ≡ converted 2 (0x20ac ∷ 0x61 ∷ 0 ∷ []) none s')
mbsrtowcs-encode_string_example =
    mbsrtowcs-encode_string (0x20ac ∷ 0x61 ∷ []) 5 text 0 no_state refl
      (omega arith, omega arith, (omega arith, omega arith, tt))
      (refl, (refl, (refl, (refl, (refl, tt)))))
