-- ===== src/Malloc/Library.antt =====
-- `malloc`, `free`, `realloc` and the start of the allocator, custom_malloc/library.c.
-- `expand end bytes` is what `_malloc_expand_heap` returns: how many bytes it has added behind
-- `end`. The kernel and the C library each supply one.
pub mod Find
pub mod Lists
pub mod Take
pub mod Grow
pub mod Laws
pub mod Request
pub mod Allocate
mod Tests
use stuos.Prelude.{
  ℕ, zero, suc, ◌+◌, ◌-◌, ◌*◌, ◌/◌, ◌%◌, ◌^◌, Bool, true, false, ◌==◌, ltb, leb, ◌&&◌, ◌||◌, not,
  if◌then◌else◌, Option, none, some,
}
use stuos.Libc.Memory.{Ptr, null}
use stuos.Libc.Mem.{memcpy}
use stuos.Malloc.Item.{
  Heap, Header, Result, ok, aborted, out_of_fuel, ◌>>=◌, header_size, lli_new, lli_is_free,
  lli_mark_as, lli_region_start, lli_region_size, lli_insert_after, lli_try_merge_after,
}

abbrev pub malloc_alignment : ℕ
malloc_alignment = 16

-- `while(lli_try_merge_after(cursor, &allocator.tail)) {}`
pub merge_all : ℕ → Heap → Ptr → Result Heap
merge_all zero h cursor = out_of_fuel
merge_all (suc fuel) h cursor = lli_try_merge_after h cursor >>= λ (merged, h').
    let rest = merge_all fuel h' cursor in if merged then rest else ok h'

-- The loop of `find_or_make_free`: the region found, or NULL, and the heap with its free regions
-- joined. The inner loop has the fuel `k`.
pub find_free : (k fuel : ℕ) → ℕ → Heap → Ptr → Result (Option Ptr × Heap)
find_free k zero size h cursor = out_of_fuel
find_free k (suc fuel) size h cursor =
    if cursor == null
    then ok (none, h)
    else merge_all k h cursor >>= λ h'. lli_region_size h' cursor >>= λ n.
        lli_is_free h' cursor >>= λ free.
        let rest = find_free k fuel size h' (h'.cells cursor).next in
        if leb size n && free then ok (some cursor, h') else rest

-- `malloc` once its size is rounded up and a free region is found.
pub take_region : ℕ → Ptr → Heap → Result (Ptr × Heap)
take_region size reserved h = do
  h₁ ← lli_mark_as h reserved false
  reserved_size ← lli_region_size h₁ reserved
  start ← lli_region_start h₁ reserved
  if leb (size + header_size) reserved_size
      then (lli_insert_after h₁ reserved (start + size) >>= λ h₂. ok (start, h₂))
      else ok (start, h₁)

pub round_size : ℕ → ℕ
round_size size = (size + malloc_alignment - 1) % 2 ^ 64 / malloc_alignment * malloc_alignment

pub free : Ptr → Heap → Result Heap
free ptr h = if ptr == null then ok h else lli_mark_as h (ptr - header_size) true

module _ (expand : Ptr → ℕ → ℕ) where
  pub expand_heap : ℕ → Heap → Result (Bool × Heap)
  expand_heap requested_bytes h =
      let needed = (requested_bytes + header_size) % 2 ^ 64 in
      let allocated = expand h.heap_end needed in
      let h₁ = record h { heap_end = h.heap_end + allocated } in
      if ltb allocated needed
      then ok (false, h₁)
      else (lli_insert_after h₁ h.tail h.heap_end >>= λ h₂. ok (true, h₂))

  -- What follows the loop of `find_or_make_free` when no region was found.
  pub make_free : ℕ → Heap → Result (Ptr × Heap)
  unfolding expand_heap
  make_free size h = do
    let old_last = h.tail
    free ← lli_is_free h old_last
    last_size ← (if free then lli_region_size h old_last else ok 0)
    (grown, h₁) ← expand_heap ((size + 2 ^ 64 - last_size) % 2 ^ 64) h
    if not grown then ok (null, h₁) else do
      (merged, h₂) ← lli_try_merge_after h₁ old_last
      if not (h₂.cells h₂.tail).is_free
          then aborted
          else do n ← lli_region_size h₂ h₂.tail; if ltb n size then aborted else ok (h₂.tail, h₂)

  pub find_or_make_free : ℕ → ℕ → Heap → Result (Ptr × Heap)
  unfolding find_free make_free merge_all
  find_or_make_free fuel size h = find_free fuel fuel size h h.head >>= λ (found, h'). elim found [
    | some p ↦ ok (p, h')
    | none ↦ make_free size h'
  ]

  pub malloc : ℕ → ℕ → Heap → Result (Ptr × Heap)
  unfolding find_or_make_free take_region round_size
  malloc fuel size h =
      if size == 0
      then ok (null, h)
      else find_or_make_free fuel (round_size size) h >>= λ (reserved, h₁).
          if reserved == null then ok (null, h₁) else take_region (round_size size) reserved h₁

  pub realloc : ℕ → Ptr → ℕ → Heap → Result (Ptr × Heap)
  unfolding malloc free
  realloc fuel ptr size h = do
    (region, h₁) ← malloc fuel size h
    if ptr == null || region == null then ok (region, h₁) else do
      curr_size ← lli_region_size h₁ (ptr - header_size)
      let smallest = if ltb size curr_size then size else curr_size
      h₂ ← free ptr (record h₁ { data_bytes = (memcpy region ptr smallest h₁.data_bytes).0 })
      ok (region, h₂)

  -- `init_memory_allocator(heap_start)` over memory that holds anything.
  pub init_memory_allocator : Ptr → Heap → Result Heap
  init_memory_allocator heap_start h =
      let allocated = expand heap_start header_size in
      if ltb allocated header_size
      then aborted
      else let h₁ = lli_new h null heap_start in
        ok (record h₁ { heap_end = heap_start + allocated; head = heap_start; tail = heap_start })
