-- ===== src/Malloc/Item.antt =====
-- The headers of custom_malloc/linked_list_item.c and the state of custom_malloc/library.c.
-- A header is read from and written to `cells`, at the address where it stands; what programs
-- keep in their regions is `data`. An address lies below 2^63, so that a difference of two
-- pointers is negative only when the second is the greater.
pub mod Laws
pub mod Update
use stuos.Prelude.{ℕ, ◌+◌, ◌-◌, Bool, true, false, ◌==◌, ◌!=◌, ltb, ◌||◌, not, if◌then◌else◌}
use stuos.Libc.Memory.{Ptr, null, Memory}

-- `struct LinkedListItem`, 16 bytes long.
pub record Header : Type 0 where
  pub next : Ptr
  pub is_free : Bool
  pub canary : ℕ

abbrev pub header_size : ℕ
header_size = 16

abbrev pub ll_canary : ℕ
ll_canary = 0xDEADBEEF

-- The headers, the contents of the regions, and `struct MemoryAllocator`.
pub record Heap : Type 0 where
  pub cells : Ptr → Header
  pub data_bytes : Memory
  pub head : Ptr
  pub tail : Ptr
  pub heap_end : Ptr

-- A value; an abort by the macro HCF; or a loop that its fuel did not see to the end.
pub data Result {ℓ} (A : Type ℓ) : Type ℓ where
  ok : A → Result A
  aborted : Result A
  out_of_fuel : Result A

infixl 5 ◌>>=◌
abbrev pub ◌>>=◌ {ℓ κ} : {A : Type ℓ} {B : Type κ} → Result A → (A → Result B) → Result B
ok a >>= k = k a
aborted >>= k = aborted
out_of_fuel >>= k = out_of_fuel

abbrev pub put_cell : Heap → Ptr → Header → Heap
put_cell h p c = record h { cells = λ a. if a == p then c else h.cells a }

-- `assert_invariant(self)`, and the header that it lets pass.
pub assert_invariant : Heap → Ptr → Result Header
assert_invariant h self = if (h.cells self).canary != ll_canary then aborted else ok (h.cells self)

abbrev pub new_header : Ptr → Header
new_header next = record { next = next; is_free = true; canary = ll_canary }

pub lli_new : Heap → Ptr → Ptr → Heap
lli_new h next output = put_cell h output (new_header next)

pub destroy : Heap → Ptr → Heap
destroy h self =
    put_cell h self (record (h.cells self) { canary = 0xABABABAB; next = 0xCAFECAFECAFECAFE })

unfoldable pub lli_is_free : Heap → Ptr → Result Bool
unfolding assert_invariant
lli_is_free h self = do c ← assert_invariant h self; ok c.is_free

unfoldable pub lli_mark_as : Heap → Ptr → Bool → Result Heap
unfolding assert_invariant
lli_mark_as h self is_free = do
  c ← assert_invariant h self
  ok (put_cell h self (record c { is_free = is_free }))

unfoldable pub lli_region_start : Heap → Ptr → Result Ptr
unfolding assert_invariant
lli_region_start h self = do c ← assert_invariant h self; ok (self + header_size)

-- `lli_region_size(self, heap_end)`, where the two ends lie less than 2^63 bytes apart, so that the
-- `int64_t` of the source is negative exactly where the region ends in front of its start.
unfoldable pub lli_region_size : Heap → Ptr → Result ℕ
unfolding assert_invariant lli_region_start
lli_region_size h self = do
  c ← assert_invariant h self
  start ← lli_region_start h self
  let finish = if c.next == null then h.heap_end else c.next
  if ltb finish start then aborted else ok (finish - start)

-- `lli_insert_after(self, to_insert_addr, &allocator.tail)`
unfoldable pub lli_insert_after : Heap → Ptr → Ptr → Result Heap
unfolding assert_invariant lli_region_start lli_new
lli_insert_after h self to_insert = do
  c ← assert_invariant h self
  start ← lli_region_start h self
  if to_insert == null || ltb to_insert start
      then aborted
      else let h₁ = put_cell h self (record c { next = to_insert }) in
        let h₂ = lli_new h₁ c.next to_insert in
        if c.next == null
        then ok (record h₂ { tail = to_insert })
        else (lli_region_start h₂ to_insert >>= λ after.
            if ltb c.next after then aborted else ok h₂)

-- `lli_try_merge_after(self, &allocator.tail)`
unfoldable pub lli_try_merge_after : Heap → Ptr → Result (Bool × Heap)
unfolding assert_invariant destroy
lli_try_merge_after h self = do
  c ← assert_invariant h self
  if c.next == null
      then ok (false, h)
      else if not c.is_free || not (h.cells c.next).is_free
      then ok (false, h)
      else do
        d ← assert_invariant h c.next
        let h₁ = put_cell h self (record c { next = d.next })
        let h₂ = record h₁ { tail = if c.next == h₁.tail then self else h₁.tail }
        ok (true, destroy h₂ c.next)
