-- ===== src/Kernel/Keyboard/Usb/Changes.antt =====
-- The changes between two reports, against the difference of the two sets of keys.
use stuos.Prelude.{
  ℕ, ◌≡◌, refl, ◌≢◌, Bool, true, false, ◌==◌, ◌!=◌, ◌&&◌, ◌||◌, not, if◌then◌else◌, arith, ◌∙◌, sym,
  ap, ap₂, Bool-cases, inl, inr, List, [], ◌∷◌, ◌++◌,
}
use stuos.Kernel.Keyboard.Usb.{
  Change, released, pressed, Sparse, put_code, mark_pressed, find_released, find_pressed, changes,
}

abbrev pub elem : ℕ → List ℕ → Bool
elem c [] = false
elem c (x ∷ xs) = c == x || elem c xs

-- The keys of the old report that the new one does not have, released in order.
abbrev pub gone : List ℕ → List ℕ → List Change
gone [] codes = []
gone (old ∷ rest) codes =
    if old != 0 && not (elem old codes) then released old ∷ gone rest codes else gone rest codes

-- The keys of the new report that the old one did not have, pressed in order.
abbrev pub fresh : List ℕ → List ℕ → List Change
fresh previous [] = []
fresh previous (keycode ∷ rest) =
    if keycode != 0 && not (elem keycode previous)
    then pressed keycode ∷ fresh previous rest
    else fresh previous rest

-- No key twice; 0 stands for no key.
abbrev pub AllDistinct : List ℕ → Type 0
AllDistinct [] = Unit
AllDistinct (x ∷ xs) = (x ≢ 0 → elem x xs ≡ false) × AllDistinct xs

mark_step :
    (b : Bool) (v c x : ℕ) (codes : Sparse)
    → (if c != 0 && b then v else (if x == 0 then codes else put_code x v codes) c)
      ≡ (if c != 0 && (c == x || b) then v else codes c)
mark_step true v c x codes = elim (Bool-cases (x == 0)) [
  | inl z ↦ rw z (ground arith)
  | inr nz ↦ rw nz (ground arith)
]
mark_step false v c x codes = elim (Bool-cases (x == 0)) [
  | inl z ↦ rw z (ground arith)
  | inr nz ↦ rw nz (ground arith)
]

mark_pressed-elem :
    (xs : List ℕ) (codes : Sparse) (c : ℕ)
    → mark_pressed xs codes c ≡ (if c != 0 && elem c xs then 1 else codes c)
unfolding mark_pressed
mark_pressed-elem [] codes c = elim (Bool-cases (c != 0)) [ inl e ↦ rw e refl | inr e ↦ rw e refl ]
mark_pressed-elem (x ∷ xs) codes c =
    mark_pressed-elem xs (if x == 0 then codes else put_code x 1 codes) c
    ∙ mark_step (elem c xs) 1 c x codes

find_released-marks :
    (xs : List ℕ) (codes : Sparse) (c : ℕ)
    → (find_released xs codes).1 c ≡ (if c != 0 && elem c xs then 2 else codes c)
unfolding find_released
find_released-marks [] codes c = elim (Bool-cases (c != 0)) [
  | inl e ↦ rw e refl
  | inr e ↦ rw e refl
]
find_released-marks (x ∷ xs) codes c =
    find_released-marks xs (if x == 0 then codes else put_code x 2 codes) c
    ∙ mark_step (elem c xs) 2 c x codes

-- A table says of each key whether it is among the codes.
abbrev Agrees : List ℕ → Sparse → List ℕ → Type 0
Agrees xs codes down = (c : ℕ) → c ≢ 0 → elem c xs ≡ true → (codes c == 0) ≡ not (elem c down)

at_head : (x : ℕ) (xs : List ℕ) → elem x (x ∷ xs) ≡ true
at_head x xs = let e : (x == x) ≡ true = ground arith in rw e refl

find_released-gone :
    (xs : List ℕ) (codes : Sparse) (down : List ℕ)
    → AllDistinct xs
    → Agrees xs codes down
    → (find_released xs codes).0 ≡ gone xs down
unfolding find_released
find_released-gone [] codes down d agree = refl
find_released-gone (x ∷ xs) codes down (ne, d) agree = elim (Bool-cases (x == 0)) [
  | inl zero_code ↦
      let none : (x != 0) ≡ false = ground arith in
      rw (zero_code, none) (find_released-gone xs codes down d (λ c nz e. agree c nz (later c e)))
  | inr key_code ↦
      let nz : x ≢ 0 = ground arith in
      let some : (x != 0) ≡ true = ground arith in
      let test = agree x nz (at_head x xs) in
      let rest =
        find_released-gone xs (put_code x 2 codes) down d
          (λ c nz' e. other c (apart c e (ne nz)) ∙ agree c nz' (later c e)) in
      rw (key_code, some, test, rest) refl
]
  where
    later : (c : ℕ) → elem c xs ≡ true → elem c (x ∷ xs) ≡ true
    later c e = elim (Bool-cases (c == x)) [ inl h ↦ rw h refl | inr h ↦ rw h e ]

    apart : (c : ℕ) → elem c xs ≡ true → elem x xs ≡ false → (c == x) ≡ false
    apart c e f = elim (Bool-cases (c == x)) [
      | inl h ↦
          let same : c ≡ x = ground arith in
          let clash : true ≡ false = sym e ∙ ap (λ z. elem z xs) same ∙ f in cc
      | inr h ↦ h
    ]

    other : (c : ℕ) → (c == x) ≡ false → (put_code x 2 codes c == 0) ≡ (codes c == 0)
    other c e = rw e refl

find_pressed-fresh :
    (xs : List ℕ) (codes : Sparse) (previous : List ℕ)
    → ((c : ℕ) → c ≢ 0 → elem c xs ≡ true → (codes c == 1) ≡ not (elem c previous))
    → find_pressed xs codes ≡ fresh previous xs
unfolding find_pressed
find_pressed-fresh [] codes previous agree = refl
find_pressed-fresh (x ∷ xs) codes previous agree = elim (Bool-cases (x != 0)) [
  | inr none ↦ rw none (find_pressed-fresh xs codes previous (λ c nz e. agree c nz (later c e)))
  | inl some ↦
      let nz : x ≢ 0 = ground arith in
      let test = agree x nz (at_head x xs) in
      let rest = find_pressed-fresh xs codes previous (λ c nz' e. agree c nz' (later c e)) in
      rw (some, test, rest) refl
]
  where
    later : (c : ℕ) → elem c xs ≡ true → elem c (x ∷ xs) ≡ true
    later c e = elim (Bool-cases (c == x)) [ inl h ↦ rw h refl | inr h ↦ rw h e ]

-- Between a report of distinct keys and the next: `packet_recv` sees the keys that are gone as
-- released, in their order, and then the keys that are new as pressed, in theirs, and no other
-- change. A key in both reports is no change.
pub changes-difference :
    (previous codes : List ℕ)
    → AllDistinct previous
    → changes previous codes ≡ gone previous codes ++ fresh previous codes
unfolding changes
changes-difference previous codes d =
    ap₂ (λ xs ys. xs ++ ys)
      (find_released-gone previous (mark_pressed codes (λ c. 0)) codes d (λ c nz e. down c nz))
      (find_pressed-fresh codes _ previous (λ c nz e. new c nz e))
  where
    down : (c : ℕ) → c ≢ 0 → (mark_pressed codes (λ c. 0) c == 0) ≡ not (elem c codes)
    down c nz =
        let some : (c != 0) ≡ true = ground arith in
        ap (λ v. v == 0) (mark_pressed-elem codes (λ c. 0) c) ∙ rw some (split (elem c codes))
      where
        split : (b : Bool) → ((if b then 1 else 0) == 0) ≡ not b
        split true = refl
        split false = refl

    new :
        (c : ℕ)
        → c ≢ 0
        → elem c codes ≡ true
        → ((find_released previous (mark_pressed codes (λ c. 0))).1 c == 1) ≡ not (elem c previous)
    new c nz e =
        let some : (c != 0) ≡ true = ground arith in
        ap (λ v. v == 1) (find_released-marks previous (mark_pressed codes (λ c. 0)) c)
        ∙ ap (λ v. (if c != 0 && elem c previous then 2 else v) == 1)
            (mark_pressed-elem codes (λ c. 0) c)
        ∙ rw (some, e) (split (elem c previous))
      where
        split : (b : Bool) → ((if b then 2 else 1) == 1) ≡ not b
        split true = refl
        split false = refl
