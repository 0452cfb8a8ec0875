-- ===== src/Kernel/Slab/Init.antt =====
-- How `init_physical_memory` divides the memory it is given.
use stuos.Prelude.{ℕ, ◌+◌, ◌*◌, ◌%◌, ◌^◌, ◌≤◌, ◌<◌, ◌≡◌, false, arith}
use stuos.Kernel.Slab.{Slab, Flags, page_size, init_physical_memory}

-- What holds after the start: the pages begin behind room for a one-byte flag for each, they end
-- within the memory, and every page is free.
pub record IsStarted (base_phys mem_size_bytes : ℕ) (s : Slab) : Type 0 where
  pub flags_fit : base_phys + s.pages ≤ s.base
  pub ends : s.base + s.pages * page_size ≤ base_phys + mem_size_bytes
  pub aligned : s.base % page_size ≡ base_phys % page_size
  pub all_free : (j : ℕ) → j < s.pages → s.flags j ≡ false

-- For memory of at least one page that ends within the address space,
-- `init_physical_memory` keeps the flags and the pages apart and inside the memory, and every
-- page is free.
pub init_physical_memory-IsStarted :
    (base_phys mem_size_bytes : ℕ) (old : Flags)
    → page_size ≤ mem_size_bytes
    → base_phys + mem_size_bytes < 2 ^ 64
    → IsStarted base_phys mem_size_bytes (init_physical_memory base_phys mem_size_bytes old)
unfolding init_physical_memory
init_physical_memory-IsStarted base_phys mem_size_bytes old lo hi = record {
  flags_fit = omega arith;
  ends = omega arith;
  aligned = omega arith;
  all_free = λ j h. ground arith;
}
