-- ===== src/Kernel/Slab/Release.antt =====
-- Pages given back: `free4k_phys` and `free_contiguous_phys`.
use stuos.Prelude.{
  ℕ, zero, suc, ◌+◌, ◌-◌, ◌*◌, ◌/◌, ◌%◌, ◌^◌, ◌≤◌, ◌<◌, ◌≡◌, true, false, ◌&&◌, ◌==◌, leb, ltb,
  if◌then◌else◌, arith, ap, sym, inl, inr, fun_ext, ◌∙◌,
}
use stuos.Kernel.Outcome.{done}
use stuos.Kernel.Slab.{
  Slab, Flags, page_size, set_flag, with_flags, malloc4k_phys, free4k_phys, free_loop,
  free_contiguous_phys, malloc_contiguous_phys,
}
use native.Mathlib.Nat.{add-zero}
use stuos.Kernel.Slab.Single.{IsValid, Allocated, malloc4k_phys-Allocated}
use stuos.Kernel.Slab.Run.{marked, AllocatedRun, malloc_contiguous_phys-AllocatedRun}

-- The flags with the `n` pages from `start` clear.
abbrev pub cleared : Flags → ℕ → ℕ → Flags
cleared flags start n j = if leb start j && ltb j (start + n) then false else flags j

pub free4k_phys-page :
    (s : Slab) (p a : ℕ)
    → IsValid s
    → p < s.pages
    → a ≡ s.base + p * page_size
    → free4k_phys a s ≡ done (with_flags s (set_flag s.flags p false))
unfolding free4k_phys
free4k_phys-page s p a v h e =
    let offset : (a + 2 ^ 64 - s.base) % 2 ^ 64 / page_size ≡ p = omega arith in
    let whole : a % page_size ≡ 0 = omega arith in rw (whole, offset)

cleared_step :
    (flags : Flags) (start n : ℕ)
    → cleared (set_flag flags start false) (start + 1) n ≡ cleared flags start (suc n)
cleared_step flags start n = fun_ext λ j. ground arith

free_loop-cleared :
    (left i p a : ℕ) (s : Slab)
    → IsValid s
    → p + i + left ≤ s.pages
    → a ≡ s.base + p * page_size
    → free_loop left i a s ≡ done (with_flags s (cleared s.flags (p + i) left))
unfolding free_loop
free_loop-cleared zero i p a s v h e = ap (λ f. done (with_flags s f)) (fun_ext λ j. ground arith)
free_loop-cleared (suc left) i p a s v h e =
    let page =
      free4k_phys-page s (p + i) ((a + page_size * i) % 2 ^ 64) v (omega arith) (omega arith) in
    let s' : Slab = with_flags s (set_flag s.flags (p + i) false) in
    let v' : IsValid s' = record { aligned = v.aligned; fits = v.fits } in
    rw page (
      free_loop-cleared left (i + 1) p a s' v' (omega arith) e
      ∙ ap (λ f. done (with_flags s f)) (rw p_next (cleared_step s.flags (p + i) left)))
  where
    p_next : p + (i + 1) ≡ p + i + 1
    p_next = omega arith

-- What was set on free pages only comes back when it is cleared.
cleared-marked :
    (flags : Flags) (start n : ℕ)
    → ((j : ℕ) → start ≤ j → j < start + n → flags j ≡ false)
    → cleared (marked flags start n) start n ≡ flags
cleared-marked flags start n free = fun_ext λ j. ground (arith, free j)

set_flag_back :
    (flags : Flags) (p : ℕ) → flags p ≡ false → set_flag (set_flag flags p true) p false ≡ flags
set_flag_back flags p free = fun_ext λ j. ground arith

done-injective : {A : Type 0} (x y : A) → done x ≡ done y → x ≡ y
done-injective x y e = cc

-- Freeing the page that `malloc4k_phys` returned gives back the state before the allocation.
pub free4k_phys-malloc4k_phys :
    (s s' : Slab) (a : ℕ) → IsValid s → malloc4k_phys s ≡ done (a, s') → free4k_phys a s' ≡ done s
free4k_phys-malloc4k_phys s s' a v e = go (malloc4k_phys-Allocated s v)
  where
    go : Allocated s 0 (malloc4k_phys s) → free4k_phys a s' ≡ done s
    go (inr (stopped, _)) = cc
    go (inl (p, f, got)) =
        let same = done-injective _ _ (sym e ∙ got) in
        let after : Slab = with_flags s (set_flag s.flags p true) in
        let valid : IsValid after = record { aligned = v.aligned; fits = v.fits } in
        rw (ap (λ x. x.1) same) (
          free4k_phys-page after p a valid f.below (ap (λ x. x.0) same)
          ∙ ap (λ g. done (with_flags s g)) (set_flag_back s.flags p f.free))

-- Freeing the run of pages that `malloc_contiguous_phys` returned gives back the state before
-- the allocation.
pub free_contiguous_phys-malloc_contiguous_phys :
    (n : ℕ) (s s' : Slab) (a : ℕ)
    → IsValid s
    → 0 < n
    → malloc_contiguous_phys n s ≡ done (a, s')
    → free_contiguous_phys a n s' ≡ done s
unfolding free_contiguous_phys
free_contiguous_phys-malloc_contiguous_phys n s s' a v pos e =
    go (malloc_contiguous_phys-AllocatedRun n s v pos)
  where
    go : AllocatedRun s n (malloc_contiguous_phys n s) → free_contiguous_phys a n s' ≡ done s
    go (inr (stopped, _)) = cc
    go (inl (t, f, got)) =
        let same = done-injective _ _ (sym e ∙ got) in
        let some_pages : (n == 0) ≡ false = ground arith in
        let after : Slab = with_flags s (marked s.flags t n) in
        let valid : IsValid after = record { aligned = v.aligned; fits = v.fits } in
        let inside : t + 0 + n ≤ s.pages = omega (arith, f.inside) in
        rw (some_pages, ap (λ x. x.1) same)
          (free_loop-cleared n 0 t a after valid inside (ap (λ x. x.0) same)
            ∙ ap (λ g. done (with_flags s g)) (rw add-zero (cleared-marked s.flags t n f.free)))
