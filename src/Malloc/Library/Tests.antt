-- ===== src/Malloc/Library/Tests.antt =====
-- The allocator on a small heap.
use stuos.Prelude.{ℕ, ◌≡◌, refl, true, false, ◌==◌, if◌then◌else◌, List, [], ◌∷◌, arith, leb}
use stuos.Libc.Memory.{Ptr}
use stuos.Malloc.Item.{
  Heap, Result, ok, aborted, out_of_fuel, lli_is_free, lli_mark_as, lli_region_start,
  lli_region_size, lli_insert_after, lli_try_merge_after,
}
use stuos.Malloc.Item.Update.{block}
use stuos.Malloc.Library.{malloc, free, init_memory_allocator}
use stuos.Malloc.Library.Grow.{AddsWhole}
use stuos.Malloc.Library.Laws.{IsHeap}
use stuos.Malloc.Library.Allocate.{
  Allocated, malloc-Allocated, init_memory_allocator-IsHeap, free-malloc,
}
use stuos.Malloc.Blocks.{Block, header, used_regions}

-- An extension by one page, if a page is enough.
abbrev one_page : Ptr → ℕ → ℕ
one_page end bytes = if leb bytes 4096 then 4096 else 0

-- A block in use at 4096, a free one behind it, up to 4352.
abbrev two_blocks : List Block
two_blocks = block 4096 false ∷ block 4160 true ∷ []

abbrev small_heap : Heap
small_heap = record {
  cells = λ a. if a == 4096 then header 4160 false else header 0 true;
  data_bytes = λ a. 0;
  head = 4096;
  tail = 4160;
  heap_end = 4352;
}

one_page-AddsWhole : AddsWhole one_page
one_page-AddsWhole end bytes = ground arith

small_heap-IsHeap : IsHeap small_heap two_blocks
small_heap-IsHeap = record {
  some_block = omega arith;
  head = refl;
  linked = (omega arith, refl, omega arith, refl, (omega arith, refl, omega arith, refl, tt));
  tail = refl;
  whole = refl;
}

malloc-Allocated_example :
    Allocated one_page 40 small_heap two_blocks (malloc one_page 3 40 small_heap)
malloc-Allocated_example =
    malloc-Allocated one_page 3 40 small_heap two_blocks one_page-AddsWhole (omega arith)
      (omega arith) small_heap-IsHeap (omega arith)

init_memory_allocator-IsHeap_example :
    (h' : Heap) × (init_memory_allocator one_page 4096 small_heap ≡ ok h')
    × IsHeap h' (block 4096 true ∷ [])
    × (used_regions h'.heap_end (block 4096 true ∷ []) ≡ [])
init_memory_allocator-IsHeap_example =
    init_memory_allocator-IsHeap one_page 4096 small_heap one_page-AddsWhole (omega arith) refl
      (omega arith)

-- What `malloc` answers, as an address, and the heap that it leaves.
abbrev address : Result (Ptr × Heap) → Ptr
address (ok (p, h)) = p
address aborted = 1
address out_of_fuel = 2

abbrev left_over : Result (Ptr × Heap) → Heap
left_over (ok (p, h)) = h
left_over aborted = small_heap
left_over out_of_fuel = small_heap

malloc_small : address (malloc one_page 3 40 small_heap) ≡ 4176
unfolding malloc lli_is_free lli_mark_as lli_region_start lli_region_size lli_insert_after
    lli_try_merge_after
malloc_small = refl

malloc_grows : address (malloc one_page 3 400 small_heap) ≡ 4176
unfolding malloc lli_is_free lli_mark_as lli_region_start lli_region_size lli_insert_after
    lli_try_merge_after
malloc_grows = refl

malloc_large : address (malloc one_page 3 5000 small_heap) ≡ 0
unfolding malloc lli_is_free lli_mark_as lli_region_start lli_region_size lli_insert_after
    lli_try_merge_after
malloc_large = refl

abbrev after : Heap
after = left_over (malloc one_page 3 40 small_heap)

small_answer : malloc one_page 3 40 small_heap ≡ ok (4176, after)
unfolding malloc lli_is_free lli_mark_as lli_region_start lli_region_size lli_insert_after
    lli_try_merge_after
small_answer = refl

free-malloc_example :
    (h'' : Heap) × (bs' : List Block) × (free 4176 after ≡ ok h'')
    × IsHeap h'' bs'
    × (used_regions h''.heap_end bs' ≡ used_regions 4352 two_blocks)
    × (h''.data_bytes ≡ small_heap.data_bytes)
free-malloc_example =
    free-malloc one_page 3 40 small_heap two_blocks 4176 after one_page-AddsWhole (omega arith)
      (omega arith) small_heap-IsHeap (omega arith) small_answer (omega arith)
