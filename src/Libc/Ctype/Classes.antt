-- ===== src/Libc/Ctype/Classes.antt =====
-- How the character classes lie to each other.
use stuos.Prelude.{ℕ, ◌%◌, ◌^◌, ◌<◌, ◌≡◌, false, ◌&&◌, ◌||◌, not, arith}
use stuos.Prelude.Int.{pos}
use stuos.Libc.Ctype.{
  isupper, islower, isalpha, isdigit, isalnum, iscntrl, isgraph, isprint, ispunct, isspace, tolower,
}

is_ascii : (n : ℕ) → n < 128 → (n % 2 ^ 32 ≡ n) × (n % 2 ^ 8 ≡ n)
is_ascii n lt = (omega arith, omega arith)

-- For a character of ASCII: the graphic characters are the letters, digits and punctuation, and
-- punctuation is no letter or digit; the printing characters are those that are no control
-- characters; a letter or digit is no control character and white space is not graphic; and
-- `tolower` leaves no upper case letter and makes letters of letters only.
pub isascii-split :
    (n : ℕ)
    → n < 128
    → (isgraph (pos n) ≡ (isalnum (pos n) || ispunct (pos n)))
      × (isprint (pos n) ≡ not (iscntrl (pos n)))
      × ((iscntrl (pos n) && isalnum (pos n)) ≡ false)
      × ((ispunct (pos n) && isalnum (pos n)) ≡ false)
      × ((isspace (pos n) && isgraph (pos n)) ≡ false)
      × (isupper (tolower (pos n)) ≡ false)
      × (isalpha (tolower (pos n)) ≡ isalpha (pos n))
unfolding isupper islower isalpha isdigit isalnum iscntrl isgraph isprint ispunct isspace tolower
isascii-split n lt =
    let (wide, narrow) = is_ascii n lt in
    rw (wide, narrow)
      (
        ground arith,
        ground arith,
        ground arith,
        ground arith,
        ground arith,
        ground arith,
        ground arith,
      )
