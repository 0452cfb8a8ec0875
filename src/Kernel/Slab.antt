-- ===== src/Kernel/Slab.antt =====
-- The allocator of physical pages, stuos/src/physical_slab_allocation.c: a flag for each page.
-- `slab_flags_base` is a function from page numbers to flags; the C array has no bound either.
pub mod Single
pub mod Run
pub mod Release
pub mod Init
mod Tests
use stuos.Prelude.{
  ℕ, zero, suc, ◌+◌, ◌-◌, ◌*◌, ◌/◌, ◌%◌, ◌^◌, Bool, true, false, ◌==◌, ◌!=◌, ltb, leb, ◌&&◌,
  if◌then◌else◌,
}
use stuos.Kernel.Outcome.{Outcome, done, halted, ◌>>=◌}

abbrev pub page_size : ℕ
page_size = 4096

-- `UINT64_MAX`, which `malloc_contiguous_phys` has for "no run".
abbrev pub no_run : ℕ
no_run = 2 ^ 64 - 1

abbrev pub Flags : Type 0
Flags = ℕ → Bool

-- The three globals of the file. A flag is set for a page in use.
pub record Slab : Type 0 where
  pub base : ℕ
  pub pages : ℕ
  pub flags : Flags

abbrev pub set_flag : Flags → ℕ → Bool → Flags
set_flag flags i b j = if j == i then b else flags j

abbrev pub with_flags : Slab → Flags → Slab
with_flags s flags = record s { flags = flags }

pub round_up_pages : ℕ → ℕ
round_up_pages num_bytes = (num_bytes + page_size - 1) % 2 ^ 64 / page_size

pub ram_size_bytes : Slab → ℕ
ram_size_bytes s = (s.pages * page_size) % 2 ^ 64

-- The physical address of a page.
abbrev pub page_address : Slab → ℕ → ℕ
page_address s page_num = (s.base + page_num * page_size) % 2 ^ 64

-- The loop of `malloc4k_phys` at `page_num`, with `left` pages to go.
malloc4k_loop : (left page_num : ℕ) → Slab → Outcome (ℕ × Slab)
malloc4k_loop zero page_num s = halted
malloc4k_loop (suc left) page_num s =
    if s.flags page_num
    then malloc4k_loop left (page_num + 1) s
    else done (page_address s page_num, with_flags s (set_flag s.flags page_num true))

unfoldable pub malloc4k_phys : Slab → Outcome (ℕ × Slab)
unfolding malloc4k_loop
malloc4k_phys s = malloc4k_loop s.pages 0 s

-- `for (i = run_start; i < run_start + run_length; i++) slab_flags_base[i] = 1;`
mark : (left i : ℕ) → Flags → Flags
mark zero i flags = flags
mark (suc left) i flags = mark left (i + 1) (set_flag flags i true)

-- `run_start` and `run_length` after the flag of `page_num` is read.
next_start : Slab → ℕ → ℕ → ℕ
next_start s page_num run_start =
    if s.flags page_num then no_run else if run_start == no_run then page_num else run_start

next_length : Slab → ℕ → ℕ → ℕ → ℕ
next_length s page_num run_start run_length =
    if s.flags page_num then 0 else if run_start == no_run then 1 else run_length + 1

-- The loop of `malloc_contiguous_phys` at `page_num`, with `left` pages to go.
contiguous_loop : (num_pages left page_num run_start run_length : ℕ) → Slab → Outcome (ℕ × Slab)
contiguous_loop num_pages zero page_num run_start run_length s = halted
contiguous_loop num_pages (suc left) page_num run_start run_length s =
    let start = next_start s page_num run_start in
    let len = next_length s page_num run_start run_length in
    if len == num_pages
    then done (page_address s start, with_flags s (mark len start s.flags))
    else contiguous_loop num_pages left (page_num + 1) start len s

pub malloc_contiguous_phys : ℕ → Slab → Outcome (ℕ × Slab)
unfolding contiguous_loop next_start next_length mark
malloc_contiguous_phys num_pages s =
    if num_pages == 0 then halted else contiguous_loop num_pages s.pages 0 no_run 0 s

pub free4k_phys : ℕ → Slab → Outcome Slab
free4k_phys phys_addr s =
    if phys_addr % page_size != 0
    then halted
    else let page_offset = (phys_addr + 2 ^ 64 - s.base) % 2 ^ 64 / page_size in
      done (with_flags s (set_flag s.flags page_offset false))

-- The loop of `free_contiguous_phys` at index `i`.
free_loop : (left i : ℕ) → ℕ → Slab → Outcome Slab
free_loop zero i phys_addr s = done s
free_loop (suc left) i phys_addr s =
    free4k_phys ((phys_addr + page_size * i) % 2 ^ 64) s >>= free_loop left (i + 1) phys_addr

pub free_contiguous_phys : ℕ → ℕ → Slab → Outcome Slab
unfolding free_loop
free_contiguous_phys phys_addr num_pages s =
    if num_pages == 0 then halted else free_loop num_pages 0 phys_addr s

-- `memset(slab_flags_base, 0, physical_memory_pages)` over what lay there.
clear_flags : ℕ → Flags → Flags
clear_flags n flags i = if ltb i n then false else flags i

pub init_physical_memory : ℕ → ℕ → Flags → Slab
unfolding round_up_pages clear_flags
init_physical_memory base_phys mem_size_bytes old =
    let total = mem_size_bytes / page_size in
    let reserved = round_up_pages total in
    let pages = (total + 2 ^ 64 - reserved) % 2 ^ 64 in
    record {
      base = (base_phys + reserved * page_size) % 2 ^ 64;
      pages = pages;
      flags = clear_flags pages old;
    }
