-- ===== src/Kernel/Heap.antt =====
-- The pages behind the kernel's heap: `_malloc_expand_heap` of stuos/src/kern_libc.c.
pub mod Given
use stuos.Prelude.{ℕ, zero, suc, ◌+◌, ◌*◌, ◌/◌, ◌%◌, ◌^◌, false, ◌!=◌, if◌then◌else◌}
use stuos.Libc.Memory.{Ptr}
use stuos.Kernel.Outcome.{Outcome, done, halted, ◌>>=◌}
use stuos.Kernel.Slab.{page_size}
use stuos.Kernel.Paging.{Machine, allocate_ram_page}

-- `(size + PAGE_SIZE - 1) / PAGE_SIZE`
abbrev pub rounded_up_pages : ℕ → ℕ
rounded_up_pages size = (size + 4095) % 2 ^ 64 / page_size

-- The loop, at page `i` with `left` pages to go.
pub expand_loop : (left i : ℕ) → Ptr → Machine → Outcome Machine
expand_loop zero i kheap_end m = done m
expand_loop (suc left) i kheap_end m =
    allocate_ram_page (kheap_end + page_size * i) false m >>= expand_loop left (i + 1) kheap_end

-- The bytes that `_malloc_expand_heap` returns.
abbrev pub added : ℕ → ℕ
added size = page_size * rounded_up_pages size

-- `_malloc_expand_heap`
pub malloc_expand_heap : Ptr → ℕ → Machine → Outcome (ℕ × Machine)
malloc_expand_heap kheap_end size m =
    if kheap_end % page_size != 0
    then halted
    else expand_loop (rounded_up_pages size) 0 kheap_end m >>= λ m'. done (added size, m')
