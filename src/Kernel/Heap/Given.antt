-- ===== src/Kernel/Heap/Given.antt =====
-- `malloc` over the pages that the kernel adds.
use stuos.Prelude.{
  ℕ, ◌+◌, ◌-◌, ◌%◌, ◌^◌, ◌<◌, ◌≡◌, Bool, true, false, ◌!=◌, if◌then◌else◌, sym, ap, arith, List,
  length,
}
use stuos.Libc.Memory.{Ptr}
use stuos.Malloc.Item.{Heap, ok, header_size}
use stuos.Malloc.Blocks.{Block}
use stuos.Malloc.Library.{malloc}
use stuos.Malloc.Library.Laws.{IsHeap}
use stuos.Malloc.Library.Grow.{AddsWhole}
use stuos.Malloc.Library.Allocate.{given, denied, IsGiven, malloc-Allocated}
use stuos.Kernel.Outcome.{Outcome, done, halted, ◌>>=◌}
use stuos.Kernel.Slab.{page_size}
use stuos.Kernel.Paging.{Machine}
use stuos.Kernel.Heap.{added, rounded_up_pages, expand_loop, malloc_expand_heap}

abbrev pub expand : Ptr → ℕ → ℕ
expand kheap_end size = added size

expand-AddsWhole : AddsWhole expand
expand-AddsWhole end bytes = omega arith

-- What the model of the kernel's routine returns.
malloc_expand_heap-added :
    (kheap_end size n : ℕ) (m m' : Machine)
    → malloc_expand_heap kheap_end size m ≡ done (n, m')
    → n ≡ added size
unfolding malloc_expand_heap
malloc_expand_heap-added kheap_end size n m m' e =
    go (kheap_end % page_size != 0) (expand_loop (rounded_up_pages size) 0 kheap_end m) e
  where
    returned : Outcome (ℕ × Machine) → ℕ
    returned halted = added size
    returned (done (k, m'')) = k

    clash : {x : ℕ × Machine} → ◌≡◌ {A = Outcome (ℕ × Machine)} halted (done x) → ⊥
    clash e = cc

    go :
        (b : Bool) (o : Outcome Machine)
        → ◌≡◌ {A = Outcome (ℕ × Machine)}
            (if b then halted else (o >>= λ x. done (added size, x)))
            (done (n, m'))
        → n ≡ added size
    go true o e = absurd (clash e)
    go false halted e = absurd (clash e)
    go false (done x) e = sym (ap (λ y. returned y) e)

-- `malloc(size)` for `0 < size < 2^63 - 16`, on a heap in order that grows by the bytes that
-- `_malloc_expand_heap` returns, does not return NULL, but a region as in `malloc-Allocated`. The
-- machine that the routine maps pages in, and may stop, is no part of this.
pub malloc-IsGiven :
    (fuel size : ℕ) (h : Heap) (bs : List Block)
    → 0 < size
    → size < 2 ^ 63 - 16
    → IsHeap h bs
    → length bs < fuel
    → (pre rest : List Block) × (a : ℕ) × (h' : Heap) × (malloc expand fuel size h
        ≡ ok (a + header_size, h'))
      × IsGiven size h bs pre rest a h'
malloc-IsGiven fuel size h bs some_size small g enough =
    elim (malloc-Allocated expand fuel size h bs expand-AddsWhole some_size small g enough) [
      | given pre rest a h' e k ↦ (pre, rest, a, h', e, k)
      | denied h' bs' n asked short e g' used same ↦ absurd (omega (arith, asked, short))
    ]
