-- ===== src/Kernel/Slab/Tests.antt =====
-- Runs of the kernel's models at concrete states, and their theorems there.
use stuos.Prelude.{◌≡◌, refl, true, arith, ◌||◌, ◌==◌}
use stuos.Kernel.Outcome.{done}
use stuos.Kernel.Slab.{
  Slab, Flags, malloc4k_phys, malloc_contiguous_phys, free_contiguous_phys, free4k_phys,
  init_physical_memory, with_flags, set_flag,
}
use stuos.Kernel.Slab.Single.{IsValid, Allocated, malloc4k_phys-Allocated}
use stuos.Kernel.Slab.Run.{AllocatedRun, malloc_contiguous_phys-AllocatedRun}
use stuos.Kernel.Slab.Release.{
  free4k_phys-malloc4k_phys, free_contiguous_phys-malloc_contiguous_phys,
}
use stuos.Kernel.Slab.Init.{IsStarted, init_physical_memory-IsStarted}

-- Five pages from 0x10000; pages 0 and 2 are in use.
abbrev used_pages : Flags
used_pages p = p == 0 || p == 2

abbrev slab : Slab
slab = record { base = 0x10000; pages = 5; flags = used_pages }

slab-IsValid : IsValid slab
slab-IsValid = omega arith

malloc4k_phys-Allocated_example : Allocated slab 0 (malloc4k_phys slab)
malloc4k_phys-Allocated_example = malloc4k_phys-Allocated slab slab-IsValid

malloc_contiguous_phys-AllocatedRun_example : AllocatedRun slab 2 (malloc_contiguous_phys 2 slab)
malloc_contiguous_phys-AllocatedRun_example =
    malloc_contiguous_phys-AllocatedRun 2 slab slab-IsValid (omega arith)

free4k_phys-malloc4k_phys_example :
    free4k_phys 0x11000 (with_flags slab (set_flag used_pages 1 true)) ≡ done slab
unfolding malloc4k_phys
free4k_phys-malloc4k_phys_example =
    free4k_phys-malloc4k_phys slab (with_flags slab (set_flag used_pages 1 true)) 0x11000
      slab-IsValid refl

-- The two pages from 3 on, as the loop sets them.
abbrev after_run : Slab
after_run = with_flags slab (set_flag (set_flag used_pages 3 true) 4 true)

free_contiguous_phys-malloc_contiguous_phys_example :
    free_contiguous_phys 0x13000 2 after_run ≡ done slab
unfolding malloc_contiguous_phys
free_contiguous_phys-malloc_contiguous_phys_example =
    free_contiguous_phys-malloc_contiguous_phys 2 slab after_run 0x13000 slab-IsValid (omega arith)
      refl

init_physical_memory-IsStarted_example :
    IsStarted 0x10000 0x40000 (init_physical_memory 0x10000 0x40000 used_pages)
init_physical_memory-IsStarted_example =
    init_physical_memory-IsStarted 0x10000 0x40000 used_pages (omega arith) (omega arith)
