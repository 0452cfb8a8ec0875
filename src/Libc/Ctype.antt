-- ===== src/Libc/Ctype.antt =====
-- The character classes of custom_libc/ctype.c, on an `int`.
pub mod Classes
use stuos.Prelude.{
  ℕ, ◌+◌, ◌-◌, ◌%◌, ◌^◌, Bool, false, ◌==◌, leb, ltb, ◌&&◌, ◌||◌, not, if◌then◌else◌,
}
use stuos.Prelude.Int.{ℤ, pos, negsuc}

-- `c >= lo && c <= hi`, for bounds that are not negative.
abbrev pub in_range : ℕ → ℕ → ℤ → Bool
in_range lo hi (pos n) = leb lo n && leb n hi
in_range lo hi (negsuc n) = false

abbrev pub is_char : ℕ → ℤ → Bool
is_char k (pos n) = n == k
is_char k (negsuc n) = false

-- The conversion of an `int` to `unsigned int` and to `unsigned char`.
abbrev pub to_unsigned : ℕ → ℤ → ℕ
to_unsigned w (pos n) = n % 2 ^ w
to_unsigned w (negsuc n) = 2 ^ w - 1 - n % 2 ^ w

pub isupper : ℤ → Bool
isupper c = in_range 65 90 c

pub islower : ℤ → Bool
islower c = in_range 97 122 c

pub isalpha : ℤ → Bool
unfolding isupper islower
isalpha c = isupper c || islower c

pub isdigit : ℤ → Bool
isdigit c = in_range 48 57 c

pub isalnum : ℤ → Bool
unfolding isalpha isdigit
isalnum c = isalpha c || isdigit c

pub isascii : ℤ → Bool
isascii c = in_range 0 127 c

pub isblank : ℤ → Bool
isblank c = is_char 32 c || is_char 9 c

pub iscntrl : ℤ → Bool
iscntrl c = leb (to_unsigned 32 c) 31 || to_unsigned 32 c == 127

pub isgraph : ℤ → Bool
isgraph c = in_range 33 126 c

pub isprint : ℤ → Bool
isprint c = in_range 32 126 c

pub ispunct : ℤ → Bool
unfolding isprint isalnum
ispunct c = isprint c && not (is_char 32 c) && not (isalnum c)

unfoldable pub isspace : ℤ → Bool
isspace c =
    is_char 32 c || is_char 12 c || is_char 10 c || is_char 13 c || is_char 9 c || is_char 11 c

pub isxdigit : ℤ → Bool
unfolding isdigit
isxdigit c = isdigit c || in_range 97 102 c || in_range 65 70 c

unfoldable pub tolower : ℤ → ℤ
tolower c = let uc = to_unsigned 8 c in if leb 65 uc && leb uc 90 then pos (uc + 32) else c
