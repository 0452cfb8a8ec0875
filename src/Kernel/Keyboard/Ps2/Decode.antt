-- ===== src/Kernel/Keyboard/Ps2/Decode.antt =====
-- Key events of the second scan code set, as bytes and back.
use stuos.Prelude.{
  ℕ, ◌+◌, ◌*◌, ◌/◌, ◌%◌, ◌^◌, ◌<◌, ◌≡◌, refl, Bool, true, false, ◌==◌, ltb, ◌&&◌, ◌||◌, not,
  if◌then◌else◌, arith, ◌∙◌, sym, ap, Bool-cases, inl, inr, List, [], ◌∷◌, ◌++◌,
}
use stuos.Kernel.Outcome.{Outcome, done, halted, ◌>>=◌}
use stuos.Kernel.Tty.{Tty, tty_provide_stdin}
use stuos.Kernel.Keyboard.{toupper}
use stuos.Kernel.Keyboard.Ps2.{
  Keys, Ps2, caps_lock, left_shift, right_shift, key_value, flags, second_byte, third_byte,
  parse_key, parse_full_buffer, handle_byte, handle_incoming_byte,
}

-- A key that goes down or up.
pub record KeyEvent : Type 0 where
  pub extended : Bool
  pub is_break : Bool
  pub code : ℕ

abbrev pub event : Bool → Bool → ℕ → KeyEvent
event x b code = record { extended = x; is_break = b; code = code }

-- What the keyboard sends for it.
abbrev pub sequence : KeyEvent → List ℕ
sequence e =
    (if e.extended then 0xe0 ∷ [] else [])
    ++ ((if e.is_break then 0xf0 ∷ [] else []) ++ (e.code ∷ []))

abbrev pub sequences : List KeyEvent → List ℕ
sequences [] = []
sequences (e ∷ es) = sequence e ++ sequences es

-- The character of a key that goes down: in upper case with shift or caps lock.
abbrev pub typed : ℕ → Keys → ℕ
typed code k =
    if k.shift || k.capslock then toupper (key_value code k.shift) else key_value code k.shift

-- What an event means: caps lock toggles, shift holds, any other key that goes down types.
abbrev pub press : KeyEvent → Keys → ℕ × Keys
press e k =
    if not e.extended && e.code == caps_lock
    then (0, (if e.is_break then k else record k { capslock = not k.capslock }))
    else if (e.code == left_shift || e.code == right_shift) && not e.extended
    then (0, record k { shift = not e.is_break })
    else ((if e.is_break then 0 else typed e.code k), k)

abbrev pub press_all : List KeyEvent → Keys → List ℕ × Keys
press_all [] k = ([], k)
press_all (e ∷ es) k = let (c, k₁) = press e k in let (cs, k₂) = press_all es k₁ in (c ∷ cs, k₂)

-- Between two key events.
abbrev pub ready : Keys → Ps2
ready k = record { expected_number_of_bytes = 1; buffer = 0; keys = k }

abbrev pub AllPlain : List KeyEvent → Type 0
AllPlain [] = Unit
AllPlain (e ∷ es) = (e.code < 128) × AllPlain es

-- A key without a character types 0 in either case.
abbrev parse_typed : ℕ → Keys → Outcome (ℕ × Keys)
parse_typed code k =
    if not (ltb code 128)
    then halted
    else if key_value code k.shift == 0
    then done (0, k)
    else done (
      if k.shift || k.capslock then toupper (key_value code k.shift) else key_value code k.shift,
      k,
    )

parse_typed-typed : (code : ℕ) (k : Keys) → code < 128 → parse_typed code k ≡ done (typed code k, k)
unfolding toupper
parse_typed-typed code k lt = elim (Bool-cases (key_value code k.shift == 0)) [
  | inl none ↦
      let e : key_value code k.shift ≡ 0 = ground arith in
      let in_range : ltb code 128 ≡ true = ground arith in
      rw (in_range, none)
        (ap (λ x. done (x, k)) (zero_typed (key_value code k.shift) (k.shift || k.capslock) e))
  | inr some ↦ let in_range : ltb code 128 ≡ true = ground arith in rw (in_range, some) refl
]
  where
    zero_typed : (c : ℕ) (b : Bool) → c ≡ 0 → 0 ≡ (if b then toupper c else c)
    zero_typed c true e = rw e refl
    zero_typed c false e = sym e

parse_key-press :
    (e : KeyEvent) (k : Keys)
    → e.code < 128
    → parse_key e.is_break e.extended e.code k ≡ done (press e k)
unfolding parse_key toupper
parse_key-press e k lt = elim (Bool-cases (not e.extended && e.code == caps_lock)) [
  | inl caps ↦ rw caps refl
  | inr other ↦
      elim (Bool-cases ((e.code == left_shift || e.code == right_shift) && not e.extended)) [
        | inl shift ↦ rw (other, shift) refl
        | inr plain ↦ elim (Bool-cases e.is_break) [
          | inl up ↦ rw (other, plain, up) refl
          | inr down ↦ rw (other, plain, down) (parse_typed-typed e.code k lt)
        ]
      ]
]

handle_byte-prefix :
    (first : ℕ) (s : Ps2) (t : Tty)
    → (first == 0xe0 || first == 0xf0) ≡ true
    → s.expected_number_of_bytes ≡ 1
    → s.buffer < 2 ^ 56
    → handle_byte first s t ≡ done (record s { buffer = s.buffer * 2 ^ 8 + first }, t)
unfolding handle_byte
handle_byte-prefix first s t prefix one small =
    let not_e1 : (first == 0xe1) ≡ false = ground arith in
    let whole : s.buffer * 2 ^ 8 % 2 ^ 64 ≡ s.buffer * 2 ^ 8 = omega arith in
    simp (prefix, not_e1, one, whole) refl

parse_full_buffer-flags :
    (b : Bool) (x : Bool) (code : ℕ) (all_bytes : ℕ) (k : Keys)
    → code < 128
    → all_bytes < 2 ^ 16
    → flags (all_bytes * 2 ^ 8 + code) ≡ done (b, x)
    → parse_full_buffer (all_bytes * 2 ^ 8 + code) k ≡ parse_key b x code k
unfolding parse_full_buffer
parse_full_buffer-flags b x code all_bytes k lt small e =
    let short : (all_bytes * 2 ^ 8 + code == 0xe11477e1f014e077
          || all_bytes * 2 ^ 8 + code == 0xe012e07c
          || all_bytes * 2 ^ 8 + code == 0xe0f07ce0f012)
        ≡ false =
      ground arith in
    let first : (all_bytes * 2 ^ 8 + code) % 256 ≡ code = omega arith in rw (short, e, first) refl

-- The terminal takes a character, and the driver goes on with the bytes behind it.
abbrev hand_over : Tty → ℕ × Keys → Outcome (Ps2 × Tty)
hand_over t (c, keys) = tty_provide_stdin c t >>= λ t'. done (ready keys, t')

handle_byte-code :
    (b : Bool) (x : Bool) (code : ℕ) (all_bytes : ℕ) (k : Keys) (t : Tty)
    → code < 128
    → all_bytes < 2 ^ 16
    → flags (all_bytes * 2 ^ 8 + code) ≡ done (b, x)
    → handle_byte code (record { expected_number_of_bytes = 1; buffer = all_bytes; keys = k }) t
      ≡ (parse_key b x code k >>= hand_over t)
unfolding handle_byte
handle_byte-code b x code all_bytes k t lt small e =
    let no_prefix : (code == 0xe0 || code == 0xf0) ≡ false = ground arith in
    let not_e1 : (code == 0xe1) ≡ false = ground arith in
    let whole : all_bytes * 2 ^ 8 % 2 ^ 64 ≡ all_bytes * 2 ^ 8 = omega arith in
    rw (no_prefix, not_e1, whole, parse_full_buffer-flags b x code all_bytes k lt small e) refl

pending : ℕ → Keys → Ps2
pending all_bytes k = record { expected_number_of_bytes = 1; buffer = all_bytes; keys = k }

handle-prefix :
    (first all_bytes : ℕ) (k : Keys) (t : Tty) (rest : List ℕ)
    → (first == 0xe0 || first == 0xf0) ≡ true
    → all_bytes < 2 ^ 56
    → handle_incoming_byte (first ∷ rest) (pending all_bytes k) t
      ≡ handle_incoming_byte rest (pending (all_bytes * 2 ^ 8 + first) k) t
unfolding handle_incoming_byte pending
handle-prefix first all_bytes k t rest prefix small =
    ap (λ o. o >>= λ (s', t'). handle_incoming_byte rest s' t')
      (handle_byte-prefix first (pending all_bytes k) t prefix refl small)

-- What the terminal makes of a character, and what comes behind it.
abbrev go_on : ℕ × Keys → Tty → List ℕ → Outcome (Ps2 × Tty)
go_on (c, k) t rest = tty_provide_stdin c t >>= λ t'. handle_incoming_byte rest (ready k) t'

hand_over-go_on :
    (c : ℕ × Keys) (t : Tty) (rest : List ℕ)
    → (hand_over t c >>= λ (s', t'). handle_incoming_byte rest s' t') ≡ go_on c t rest
hand_over-go_on c t rest = bound (tty_provide_stdin c.0 t)
  where
    bound :
        (o : Outcome Tty)
        → (o >>= (λ t'. done (ready c.1, t')) >>= λ (s', t'). handle_incoming_byte rest s' t')
          ≡ (o >>= λ t'. handle_incoming_byte rest (ready c.1) t')
    bound (done t') = refl
    bound halted = refl

handle-code :
    (e : KeyEvent) (all_bytes : ℕ) (k : Keys) (t : Tty) (rest : List ℕ)
    → e.code < 128
    → all_bytes < 2 ^ 16
    → flags (all_bytes * 2 ^ 8 + e.code) ≡ done (e.is_break, e.extended)
    → handle_incoming_byte (e.code ∷ rest) (pending all_bytes k) t ≡ go_on (press e k) t rest
unfolding handle_incoming_byte pending
handle-code e all_bytes k t rest lt small f =
    ap (λ o. o >>= λ (s', t'). handle_incoming_byte rest s' t')
      (handle_byte-code e.is_break e.extended e.code all_bytes k t lt small f
        ∙ ap (λ o. o >>= hand_over t) (parse_key-press e k lt))
    ∙ hand_over-go_on (press e k) t rest

-- The flags that the bytes before the code stand for.
flags_of :
    (all_bytes code third second : ℕ)
    → code < 128
    → all_bytes < 2 ^ 16
    → all_bytes / 2 ^ 8 ≡ third
    → all_bytes % 2 ^ 8 ≡ second
    → (third_byte (all_bytes * 2 ^ 8 + code) ≡ third)
      × (second_byte (all_bytes * 2 ^ 8 + code) ≡ second)
flags_of all_bytes code third second lt small t s = (omega arith, omega arith)

-- A key event of a code below 128, from a state between two events.
handle-event :
    (x b : Bool) (code : ℕ) (k : Keys) (t : Tty) (rest : List ℕ)
    → code < 128
    → let e = event x b code in
      handle_incoming_byte (sequence e ++ rest) (ready k) t ≡ go_on (press e k) t rest
unfolding pending
handle-event false false code k t rest lt =
    let (third, second) = flags_of 0 code 0 0 lt (omega arith) refl refl in
    handle-code (event false false code) 0 k t rest lt (omega arith) (rw (third, second) refl)
handle-event false true code k t rest lt =
    let (third, second) = flags_of 0xf0 code 0 0xf0 lt (omega arith) refl refl in
    handle-prefix 0xf0 0 k t (code ∷ rest) refl (omega arith)
    ∙ handle-code (event false true code) 0xf0 k t rest lt (omega arith) (rw (third, second) refl)
handle-event true false code k t rest lt =
    let (third, second) = flags_of 0xe0 code 0 0xe0 lt (omega arith) refl refl in
    handle-prefix 0xe0 0 k t (code ∷ rest) refl (omega arith)
    ∙ handle-code (event true false code) 0xe0 k t rest lt (omega arith) (rw (third, second) refl)
handle-event true true code k t rest lt =
    let (third, second) = flags_of 0xe0f0 code 0xe0 0xf0 lt (omega arith) refl refl in
    handle-prefix 0xe0 0 k t (0xf0 ∷ code ∷ rest) refl (omega arith)
    ∙ handle-prefix 0xf0 0xe0 k t (code ∷ rest) refl (omega arith)
    ∙ handle-code (event true true code) 0xe0f0 k t rest lt (omega arith) (rw (third, second) refl)

append_assoc : (xs ys zs : List ℕ) → (xs ++ ys) ++ zs ≡ xs ++ (ys ++ zs)
append_assoc [] ys zs = refl
append_assoc (x ∷ xs) ys zs = ap (λ r. x ∷ r) (append_assoc xs ys zs)

-- Characters handed to a terminal, one behind the other.
abbrev pub provide_all : List ℕ → Tty → Outcome Tty
provide_all [] t = done t
provide_all (c ∷ cs) t = tty_provide_stdin c t >>= provide_all cs

after-each {ℓ} :
    {A : Type ℓ} (f : Tty → Outcome A) (g : Tty → Outcome Tty) (h : Tty → Outcome A)
    (o : Outcome Tty)
    → ((t : Tty) → f t ≡ (g t >>= h))
    → (o >>= f) ≡ (o >>= g >>= h)
after-each f g h (done t) same = same t
after-each f g h halted same = refl

-- The bytes of any key events with codes below 128, sent between two events, are taken apart into
-- those events: each event hands the terminal the one character that the driver's table of keys has
-- for it (0 where it types none), in upper case with shift or caps lock, in their order, and shift
-- and caps lock are as the events leave them. The machine halts exactly where the terminal does.
pub handle_incoming_byte-sequences :
    (es : List KeyEvent) (k : Keys) (t : Tty)
    → AllPlain es
    → handle_incoming_byte (sequences es) (ready k) t
      ≡ (provide_all (press_all es k).0 t >>= λ t'. done (ready (press_all es k).1, t'))
unfolding handle_incoming_byte
handle_incoming_byte-sequences [] k t plain = refl
handle_incoming_byte-sequences (e ∷ es) k t (lt, plain) =
    handle-event e.extended e.is_break e.code k t (sequences es) lt
    ∙ after-each _ _ _ (tty_provide_stdin (press e k).0 t)
        (λ t'. handle_incoming_byte-sequences es (press e k).1 t' plain)
