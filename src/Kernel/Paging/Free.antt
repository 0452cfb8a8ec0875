-- ===== src/Kernel/Paging/Free.antt =====
-- The pages that are left for new tables.
use stuos.Prelude.{
  ℕ, zero, suc, ◌+◌, ◌*◌, ◌≤◌, ◌<◌, ◌≡◌, refl, Bool, true, false, ◌==◌, arith, ◌∙◌, ap, Bool-cases,
  inl, inr,
}
use stuos.Kernel.Outcome.{done}
use stuos.Kernel.Slab.{Slab, Flags, page_size, set_flag, with_flags, malloc4k_phys}
use stuos.Kernel.Slab.Single.{malloc4k_phys-Allocated}
use stuos.Kernel.Paging.Space.{free_pages, IsPaged}

free_pages-full :
    (n : ℕ) (flags : Flags) → ((j : ℕ) → j < n → flags j ≡ true) → free_pages n flags ≡ 0
free_pages-full zero flags all = refl
free_pages-full (suc n) flags all =
    rw (all n (omega arith)) (omega (arith, free_pages-full n flags (λ j lt. all j (omega arith))))

free_pages-set_above :
    (n p : ℕ) (flags : Flags) (b : Bool)
    → n ≤ p
    → free_pages n (set_flag flags p b) ≡ free_pages n flags
free_pages-set_above zero p flags b le = refl
free_pages-set_above (suc n) p flags b le =
    ground (arith, free_pages-set_above n p flags b (omega arith))

pub free_pages-set :
    (n p : ℕ) (flags : Flags)
    → p < n
    → flags p ≡ false
    → free_pages n (set_flag flags p true) + 1 ≡ free_pages n flags
free_pages-set zero p flags lt free = absurd (omega arith)
free_pages-set (suc n) p flags lt free = elim (Bool-cases (n == p)) [
  | inl last ↦
      let e : n ≡ p = ground arith in
      let free' : flags n ≡ false = ap flags e ∙ free in
      rw (last, free') (omega (arith, free_pages-set_above n p flags true (omega arith)))
  | inr earlier ↦
      let below : p < n = ground arith in
      rw earlier (omega (arith, free_pages-set n p flags below free))
]

-- A page for a table: a free one, which is in use from then on.
pub record IsTakenPage (s : Slab) (n : ℕ) (s' : Slab) : Type 0 where
  pub below : n < s.pages
  pub free : s.flags n ≡ false
  pub taken : malloc4k_phys s ≡ done (s.base + n * page_size, s')
  pub marked : s' ≡ with_flags s (set_flag s.flags n true)
  pub one_less : free_pages s.pages (set_flag s.flags n true) + 1 ≡ free_pages s.pages s.flags

pub malloc4k_phys-IsTakenPage :
    (s : Slab)
    → IsPaged s
    → 0 < free_pages s.pages s.flags
    → (n : ℕ) × IsTakenPage s n (with_flags s (set_flag s.flags n true))
malloc4k_phys-IsTakenPage s v some_free =
    elim (malloc4k_phys-Allocated s
      (record { aligned = v.aligned; fits = omega (arith, v.reachable) })) [
        | inl (n, f, e) ↦ (
          n,
          record {
            below = f.below;
            free = f.free;
            taken = e;
            marked = refl;
            one_less = free_pages-set s.pages n s.flags f.below f.free;
          },
        )
        | inr (e, full) ↦
            absurd
              (omega (arith, free_pages-full s.pages s.flags (λ j lt. full j (omega arith) lt)))
      ]
