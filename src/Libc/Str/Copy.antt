-- ===== src/Libc/Str/Copy.antt =====
-- `strcpy` and `stpcpy` of custom_libc/string.c.
use stuos.Prelude.{
  ℕ, zero, suc, ◌+◌, ◌≤◌, ◌<◌, ◌≡◌, refl, ◌⊎◌, ◌==◌, true, false, List, [], ◌∷◌, length, arith,
  fun_ext, ◌∙◌,
}
use stuos.Libc.Memory.{Ptr, Memory, store, HasString, Run, returns}
use stuos.Libc.Mem.Laws.{copied}
use stuos.Libc.Str.{copy_string, stpcpy, strcpy}

-- A string stays where its own bytes stay.
pub HasString-frame :
    (m m' : Memory) (p : Ptr) (xs : List ℕ)
    → ((a : Ptr) → p ≤ a → a ≤ p + length xs → m' a ≡ m a)
    → HasString m p xs
    → HasString m' p xs
HasString-frame m m' p [] same h = same p (omega arith) (omega arith) ∙ h
HasString-frame m m' p (x ∷ xs) same h = (
  same p (omega arith) (omega arith) ∙ h.0,
  h.1,
  h.2,
  HasString-frame m m' (p + 1) xs (λ a lo hi. same a (omega arith) (omega arith)) h.3,
)

-- A string appears where its bytes are copied to.
HasString-moved :
    (m m' : Memory) (dest src : Ptr) (xs : List ℕ)
    → ((i : ℕ) → i ≤ length xs → m' (dest + i) ≡ m (src + i))
    → HasString m src xs
    → HasString m' dest xs
HasString-moved m m' dest src [] same h = ground (arith, same 0)
HasString-moved m m' dest src (x ∷ xs) same h = (
  ground (arith, same 0),
  h.1,
  h.2,
  HasString-moved m m' (dest + 1) (src + 1) xs (λ i le. ground (arith, same (i + 1))) h.3,
)

-- The string `xs` at `src` and a copy of it at `dest` share no byte.
abbrev pub Apart : Ptr → Ptr → List ℕ → Type 0
Apart dest src xs = (dest + length xs < src) ⊎ (src + length xs < dest)

copied_one : (m : Memory) (dest src : Ptr) → store m dest (m src) ≡ copied m dest src 1
copied_one m dest src = fun_ext λ a. ground arith

copied_step :
    (m : Memory) (dest src n k : ℕ)
    → (dest ≤ src) ⊎ (src + n < dest)
    → k ≡ n + 1
    → copied (store m dest (m src)) (dest + 1) (src + 1) n ≡ copied m dest src k
copied_step m dest src n k apart e = fun_ext λ a. ground arith

returns_pair :
    (m m' : Memory) (p p' : Ptr)
    → m ≡ m'
    → p ≡ p'
    → ◌≡◌ {A = Run (Memory × Ptr)} (returns (m, p)) (returns (m', p'))
returns_pair m m' p p' e f = cc

copy_string-copied :
    (fuel : ℕ) (dest src : Ptr) (m : Memory) (xs : List ℕ)
    → HasString m src xs
    → Apart dest src xs
    → length xs < fuel
    → copy_string fuel dest src m
      ≡ returns (copied m dest src (length xs + 1), dest + length xs + 1)
unfolding copy_string
copy_string-copied zero dest src m xs h apart f = absurd (omega arith)
copy_string-copied (suc fuel) dest src m [] h apart f =
    let stop : (m src == 0) ≡ true = ground arith in
    rw stop (returns_pair _ _ _ _ (copied_one m dest src) (omega arith))
copy_string-copied (suc fuel) dest src m (x ∷ xs) h apart f =
    let more : (m src == 0) ≡ false = ground arith in
    let m' : Memory = store m dest (m src) in
    let tail : HasString m' (src + 1) xs =
      HasString-frame m m' (src + 1) xs (λ a lo hi. ground arith) h.3 in
    rw more (
      copy_string-copied fuel (dest + 1) (src + 1) m' xs tail (omega arith) (omega arith)
      ∙ returns_pair _ _ _ _
          (copied_step m dest src (length xs + 1) (suc (length xs) + 1) (omega arith) (omega arith))
          (omega arith))

-- With room that does not overlap the source and fuel beyond its length, `strcpy` copies the
-- string with its end, writes nowhere else and returns the destination; `stpcpy` writes the
-- same and returns the address of the copied end.
pub strcpy-stpcpy :
    (fuel : ℕ) (dest src : Ptr) (m : Memory) (xs : List ℕ)
    → HasString m src xs
    → Apart dest src xs
    → length xs < fuel
    → (strcpy fuel dest src m ≡ returns (copied m dest src (length xs + 1), dest))
      × (stpcpy fuel dest src m ≡ returns (copied m dest src (length xs + 1), dest + length xs))
      × HasString (copied m dest src (length xs + 1)) dest xs
unfolding strcpy stpcpy
strcpy-stpcpy fuel dest src m xs h apart f = (
  rw (copy_string-copied fuel dest src m xs h apart f),
  rw (copy_string-copied fuel dest src m xs h apart f) (returns_pair _ _ _ _ refl (omega arith)),
  HasString-moved m _ dest src xs (λ i le. ground arith) h,
)
