-- ===== src/Libc/Wchar/Utf8.antt =====
-- The encoding of a character in UTF-8, by the ranges of its definition.
use stuos.Prelude.{ℕ, ◌+◌, ◌/◌, ◌%◌, ◌^◌, ◌≡◌, ltb, if◌then◌else◌, List, [], ◌∷◌, ◌++◌}
use stuos.Libc.Memory.{Ptr, Memory}

abbrev pub encode : ℕ → List ℕ
encode c =
    if ltb c 0x80
    then c ∷ []
    else if ltb c 0x800
    then (0xc0 + c / 2 ^ 6) ∷ (0x80 + c % 2 ^ 6) ∷ []
    else if ltb c 0x10000
    then (0xe0 + c / 2 ^ 12) ∷ (0x80 + c / 2 ^ 6 % 2 ^ 6) ∷ (0x80 + c % 2 ^ 6) ∷ []
    else (0xf0 + c / 2 ^ 18)
      ∷ (0x80 + c / 2 ^ 12 % 2 ^ 6)
      ∷ (0x80 + c / 2 ^ 6 % 2 ^ 6)
      ∷ (0x80 + c % 2 ^ 6)
      ∷ []

-- The bytes at `p`.
abbrev pub HasBytes : Memory → Ptr → List ℕ → Type 0
HasBytes m p [] = Unit
HasBytes m p (b ∷ bs) = (m p ≡ b) × HasBytes m (p + 1) bs

-- The encodings of some characters, one after the other.
abbrev pub encode_all : List ℕ → List ℕ
encode_all [] = []
encode_all (c ∷ cs) = encode c ++ encode_all cs

-- The string of some characters: their encodings, and a 0.
abbrev pub encode_string : List ℕ → List ℕ
encode_string [] = 0 ∷ []
encode_string (c ∷ cs) = encode c ++ encode_string cs
