-- ===== src/Kernel/Slab/Single.antt =====
-- One page at a time: `malloc4k_phys`.
use stuos.Prelude.{
  ℕ, zero, suc, ◌+◌, ◌*◌, ◌%◌, ◌^◌, ◌≤◌, ◌<◌, ◌≡◌, refl, ◌⊎◌, inl, inr, Bool-cases, true, false,
  arith, ap,
}
use stuos.Kernel.Outcome.{Outcome, done, halted}
use stuos.Kernel.Slab.{
  Slab, page_size, page_address, set_flag, with_flags, malloc4k_loop, malloc4k_phys,
}

-- The pages and their flags lie in the address space, and a page number is no `UINT64_MAX`.
pub record IsValid (s : Slab) : Type 0 where
  pub aligned : s.base % page_size ≡ 0
  pub fits : s.base + s.pages * page_size ≤ 2 ^ 64

-- `p` is the first free page from `lo` on.
pub record IsFirstFree (s : Slab) (lo p : ℕ) : Type 0 where
  pub below : p < s.pages
  pub free : s.flags p ≡ false
  pub first : (j : ℕ) → lo ≤ j → j < p → s.flags j ≡ true

-- What an allocation comes to: the first free page, marked, or a halt with every page in use.
abbrev pub Allocated : Slab → ℕ → Outcome (ℕ × Slab) → Type 0
Allocated s lo r =
    ((p : ℕ) × IsFirstFree s lo p
      × (r ≡ done (s.base + p * page_size, with_flags s (set_flag s.flags p true))))
    ⊎ ((r ≡ halted) × ((j : ℕ) → lo ≤ j → j < s.pages → s.flags j ≡ true))

pub page_address-inside :
    (s : Slab) (p : ℕ) → IsValid s → p < s.pages → page_address s p ≡ s.base + p * page_size
page_address-inside s p v h = omega arith

Allocated-skip :
    (s : Slab) (i : ℕ) (r : Outcome (ℕ × Slab))
    → s.flags i ≡ true
    → Allocated s (i + 1) r
    → Allocated s i r
Allocated-skip s i r used (inl (p, f, e)) =
    inl (
      p,
      record { below = f.below; free = f.free; first = λ j lo hi. ground (arith, f.first j) },
      e,
    )
Allocated-skip s i r used (inr (e, full)) = inr (e, λ j lo hi. ground (arith, full j))

malloc4k_loop-Allocated :
    (left i : ℕ) (s : Slab)
    → IsValid s
    → i + left ≡ s.pages
    → Allocated s i (malloc4k_loop left i s)
unfolding malloc4k_loop
malloc4k_loop-Allocated zero i s v e = inr (refl, λ j lo hi. absurd (omega arith))
malloc4k_loop-Allocated (suc left) i s v e = elim (Bool-cases (s.flags i)) [
  | inl used ↦
      rw used (Allocated-skip s i _ used (malloc4k_loop-Allocated left (i + 1) s v (omega arith)))
  | inr free ↦ rw free (
      inl (
        i,
        record { below = omega arith; free = free; first = λ j lo hi. absurd (omega arith) },
        ap (λ a. done (a, with_flags s (set_flag s.flags i true)))
            (page_address-inside s i v (omega arith)),
      ))
]

-- `malloc4k_phys` takes the first free page: it returns that page's address, sets its flag and
-- no other, and halts only when every page is in use.
pub malloc4k_phys-Allocated : (s : Slab) → IsValid s → Allocated s 0 (malloc4k_phys s)
unfolding malloc4k_phys
malloc4k_phys-Allocated s v = malloc4k_loop-Allocated s.pages 0 s v (omega arith)
