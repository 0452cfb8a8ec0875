-- ===== src/Kernel/Slab/Run.antt =====
-- A run of pages: `malloc_contiguous_phys`.
use stuos.Prelude.{
  ℕ, zero, suc, ◌+◌, ◌*◌, ◌≤◌, ◌<◌, ◌≡◌, refl, ◌⊎◌, inl, inr, Bool-cases, true, false, ◌==◌, ◌&&◌,
  leb, ltb, if◌then◌else◌, arith, ap₂, fun_ext, dec_lt,
}
use stuos.Kernel.Outcome.{Outcome, done, halted}
use stuos.Kernel.Slab.{
  Slab, Flags, page_size, no_run, page_address, set_flag, with_flags, mark, next_start, next_length,
  contiguous_loop, malloc_contiguous_phys,
}
use stuos.Kernel.Slab.Single.{IsValid, page_address-inside}

-- The flags with the `n` pages from `start` set.
abbrev pub marked : Flags → ℕ → ℕ → Flags
marked flags start n j = if leb start j && ltb j (start + n) then true else flags j

mark-marked : (n start : ℕ) (flags : Flags) (j : ℕ) → mark n start flags j ≡ marked flags start n j
unfolding mark
mark-marked zero start flags j = ground arith
mark-marked (suc n) start flags j =
    ground (arith, mark-marked n (start + 1) (set_flag flags start true) j)

-- A page in use among the `n` from `t`.
abbrev pub IsBlocked : Slab → ℕ → ℕ → Type 0
IsBlocked s n t = (j : ℕ) × (t ≤ j) × (j < t + n) × (s.flags j ≡ true)

-- The first `n` free pages in a row start at `t`.
pub record IsFirstRun (s : Slab) (n t : ℕ) : Type 0 where
  pub inside : t + n ≤ s.pages
  pub free : (j : ℕ) → t ≤ j → j < t + n → s.flags j ≡ false
  pub first : (u : ℕ) → u < t → IsBlocked s n u

-- An address handed out, with the flags as they are then.
abbrev pub grant : Slab → Flags → ℕ → Outcome (ℕ × Slab)
grant s flags address = done (address, with_flags s flags)

-- What the allocation of `n` pages comes to: the first run, marked, or a halt where no run is.
abbrev pub AllocatedRun : Slab → ℕ → Outcome (ℕ × Slab) → Type 0
AllocatedRun s n r =
    ((t : ℕ) × IsFirstRun s n t × (r ≡ grant s (marked s.flags t n) (s.base + t * page_size)))
    ⊎ ((r ≡ halted) × ((t : ℕ) → t + n ≤ s.pages → IsBlocked s n t))

-- The loop's variables at page `i`: the run in hand goes from `at` to `i`, is free and too short.
record IsScanned (s : Slab) (n i at start len : ℕ) : Type 0 where
  length : at + len ≡ i
  short : len < n
  start_of : start ≡ (if len == 0 then no_run else at)
  free : (j : ℕ) → at ≤ j → j < i → s.flags j ≡ false
  passed : (t : ℕ) → t < at → IsBlocked s n t

module _ (s : Slab) (n : ℕ) (v : IsValid s) where
  -- A page in use ends the run in hand.
  IsScanned-used :
      {i at start len : ℕ}
      → i < s.pages
      → s.flags i ≡ true
      → IsScanned s n i at start len
      → IsScanned s n (i + 1) (i + 1) (next_start s i start) (next_length s i start len)
  unfolding next_start next_length
  IsScanned-used {i} {at} below used c = record {
    length = ground arith;
    short = ground arith;
    start_of = ground arith;
    free = λ j lo hi. absurd (omega arith);
    passed = λ t h. elim (dec_lt t at) [
      | yes q ↦ c.passed t q
      | no q ↦ (i, omega arith, omega arith, used)
    ];
  }

  IsScanned-free :
      {i at start len : ℕ}
      → i < s.pages
      → s.flags i ≡ false
      → suc len < n
      → IsScanned s n i at start len
      → IsScanned s n (i + 1) at (next_start s i start) (next_length s i start len)
  unfolding next_start next_length
  IsScanned-free {i} {at} below free more c = record {
    length = ground arith;
    short = ground arith;
    start_of = ground arith;
    free = λ j lo hi. ground (arith, c.free j);
    passed = c.passed;
  }

  -- The last page of a run completes it.
  IsScanned-complete :
      {i at start len : ℕ}
      → i < s.pages
      → s.flags i ≡ false
      → suc len ≡ n
      → IsScanned s n i at start len
      → (next_start s i start ≡ at) × (next_length s i start len ≡ n) × IsFirstRun s n at
  unfolding next_start next_length
  IsScanned-complete below free full c = (
    ground arith,
    ground arith,
    record { inside = omega arith; free = λ j lo hi. ground (arith, c.free j); first = c.passed },
  )

  next_length-free :
      {i at start len : ℕ}
      → i < s.pages
      → s.flags i ≡ false
      → IsScanned s n i at start len
      → next_length s i start len ≡ suc len
  unfolding next_length
  next_length-free below free c = ground arith

  next_length-used : (i start len : ℕ) → s.flags i ≡ true → next_length s i start len ≡ 0
  unfolding next_length
  next_length-used i start len used = ground arith

  allocate_run :
      (at start len : ℕ)
      → start ≡ at
      → len ≡ n
      → at < s.pages
      → grant s (mark len start s.flags) (page_address s start)
        ≡ grant s (marked s.flags at n) (s.base + at * page_size)
  allocate_run at start len e f below =
      rw (e, f)
        (ap₂ (grant s) (fun_ext (mark-marked n at s.flags)) (page_address-inside s at v below))

  contiguous_loop-AllocatedRun :
      (left i : ℕ) {at start len : ℕ}
      → i + left ≡ s.pages
      → IsScanned s n i at start len
      → AllocatedRun s n (contiguous_loop n left i start len s)
  unfolding contiguous_loop
  contiguous_loop-AllocatedRun zero i e c = inr (refl, λ t h. c.passed t (omega arith))
  contiguous_loop-AllocatedRun (suc left) i {at} {start} {len} e c = elim (Bool-cases (s.flags i)) [
    | inl used ↦
        let ih =
          contiguous_loop-AllocatedRun left (i + 1) (omega arith)
            (IsScanned-used (omega arith) used c) in
        let other : (next_length s i start len == n) ≡ false =
          ground (arith, next_length-used i start len used) in
        rw other ih
    | inr free ↦ elim (dec_lt (suc len) n) [
      | yes more ↦
          let ih =
            contiguous_loop-AllocatedRun left (i + 1) (omega arith)
              (IsScanned-free (omega arith) free more c) in
          let other : (next_length s i start len == n) ≡ false =
            ground (arith, next_length-free (omega arith) free c) in
          rw other ih
      | no last ↦
          let r = IsScanned-complete (omega arith) free (omega arith) c in
          let full : (next_length s i start len == n) ≡ true = ground (arith, r.1) in
          rw full (inl (at, r.2, allocate_run at _ _ r.0 r.1 (omega arith)))
    ]
  ]

-- For at least one page, `malloc_contiguous_phys` takes the first run of that many free pages:
-- it returns the address of the run, sets the flags of its pages and no other, and halts only
-- when every run of that length has a page in use.
pub malloc_contiguous_phys-AllocatedRun :
    (n : ℕ) (s : Slab) → IsValid s → 0 < n → AllocatedRun s n (malloc_contiguous_phys n s)
unfolding malloc_contiguous_phys
malloc_contiguous_phys-AllocatedRun n s v pos =
    let some_pages : (n == 0) ≡ false = ground arith in
    rw some_pages (
      contiguous_loop-AllocatedRun s n v s.pages 0 {at = 0} (omega arith) (record {
        length = omega arith;
        short = pos;
        start_of = refl;
        free = λ j lo hi. absurd (omega arith);
        passed = λ t h. absurd (omega arith);
      }))
