-- ===== src/Malloc/Library/Allocate.antt =====
-- `malloc`, `free` and the start of the allocator, on a heap in order.
use stuos.Prelude.{
  ℕ, ◌+◌, ◌-◌, ◌*◌, ◌%◌, ◌^◌, ◌≤◌, ◌<◌, ◌≡◌, refl, true, false, ◌==◌, ltb, List, [], ◌∷◌, ◌++◌,
  length, arith, ◌∙◌, sym, ap, Bool-cases, inl, inr,
}
use stuos.Libc.Memory.{Ptr, null}
use stuos.Malloc.Item.{Heap, Header, Result, ok, header_size, lli_mark_as, lli_new}
use stuos.Malloc.Item.Update.{block, mark_as-Linked, lli_new-cell}
use stuos.Malloc.Library.{
  find_or_make_free, take_region, round_size, malloc, free, init_memory_allocator,
}
use stuos.Malloc.Library.Lists.{Linked-suffix, used_regions-append}
use stuos.Malloc.Library.Take.{IsTaken, take_region-IsTaken}
use stuos.Malloc.Library.Grow.{AddsWhole}
use stuos.Malloc.Library.Laws.{IsHeap, last_of-append, IsHeap-replace}
use stuos.Malloc.Library.Request.{Finds, found, refused, find_or_make_free-Served}
use stuos.Malloc.Blocks.{Block, region_end, Linked, used_regions}

-- Regions that do not overlap, in the order of their addresses, from `lo` on.
abbrev pub Apart : ℕ → List (ℕ × ℕ) → Type 0
Apart lo [] = Unit
Apart lo ((a, e) ∷ rs) = (lo ≤ a) × (a + header_size ≤ e) × Apart e rs

used_regions-Apart :
    (cells : Ptr → Header) (end lo : ℕ) (bs : List Block)
    → lo ≤ region_end end bs
    → Linked cells end bs
    → Apart lo (used_regions end bs)
used_regions-Apart cells end lo [] le l = tt
used_regions-Apart cells end lo (b ∷ bs) le l = elim (Bool-cases b.is_free) [
  | inl free ↦ rw free (used_regions-Apart cells end lo bs (omega arith) l.4)
  | inr in_use ↦
      rw in_use (le, l.2, used_regions-Apart cells end (region_end end bs) bs (omega arith) l.4)
]

-- The region of `size` bytes that the block at `a` got, between the blocks `pre` and `rest`: the
-- regions in use before it and behind it are those that were in use.
pub record IsGiven (size : ℕ) (h : Heap) (bs pre rest : List Block) (a : ℕ) (h' : Heap)
    : Type 0 where
  pub in_order : IsHeap h' (pre ++ (block a false ∷ rest))
  pub before : used_regions h.heap_end bs ≡ used_regions a pre ++ used_regions h'.heap_end rest
  pub now :
      used_regions h'.heap_end (pre ++ (block a false ∷ rest))
      ≡ used_regions a pre ++ ((a, region_end h'.heap_end rest) ∷ used_regions h'.heap_end rest)
  pub apart : Apart 0 (used_regions h'.heap_end (pre ++ (block a false ∷ rest)))
  pub holds : a + header_size + size ≤ region_end h'.heap_end rest
  pub aligned : (a + header_size) % 16 ≡ 0
  pub same_data : h'.data_bytes ≡ h.data_bytes

-- What `malloc` comes to: a region, or NULL when the heap could not be extended.
pub data Allocated (expand : Ptr → ℕ → ℕ) (size : ℕ) (h : Heap) (bs : List Block)
    (r : Result (Ptr × Heap)) : Type 0 where
  given :
      (pre rest : List Block) (a : ℕ) (h' : Heap)
      → r ≡ ok (a + header_size, h')
      → IsGiven size h bs pre rest a h'
      → Allocated expand size h bs r
  denied :
      (h' : Heap) (bs' : List Block) (n : ℕ)
      → n < size + 2 * header_size
      → expand h.heap_end n < n
      → r ≡ ok (null, h')
      → IsHeap h' bs'
      → used_regions h.heap_end bs' ≡ used_regions h.heap_end bs
      → h'.data_bytes ≡ h.data_bytes
      → Allocated expand size h bs r

round_size-whole :
    (size : ℕ)
    → size < 2 ^ 63 - 16
    → (round_size size % 16 ≡ 0) × (size ≤ round_size size) × (round_size size < size + 16)
unfolding round_size
round_size-whole size small = (omega arith, omega arith, omega arith)

module _ (expand : Ptr → ℕ → ℕ) (fuel size : ℕ) (h : Heap) where
  malloc-refused :
      (h₁ : Heap)
      → 0 < size
      → find_or_make_free expand fuel (round_size size) h ≡ ok (null, h₁)
      → malloc expand fuel size h ≡ ok (null, h₁)
  unfolding malloc
  malloc-refused h₁ pos e = let some_size : (size == 0) ≡ false = ground arith in rw (some_size, e)

  malloc-found :
      (p : Ptr) (h₁ : Heap)
      → 0 < size
      → 0 < p
      → find_or_make_free expand fuel (round_size size) h ≡ ok (p, h₁)
      → malloc expand fuel size h ≡ take_region (round_size size) p h₁
  unfolding malloc
  malloc-found p h₁ pos some_p e =
      let some_size : (size == 0) ≡ false = ground arith in
      let some_ptr : (p == 0) ≡ false = ground arith in rw (some_size, e, some_ptr)

-- The region that the search found is handed out.
taken-IsGiven :
    (size : ℕ) (h h₁ : Heap) (bs : List Block) (p : Ptr) (f : Finds size h bs p h₁)
    (rest : List Block) (h₂ : Heap)
    → IsTaken size h₁ f.chosen f.post rest h₂
    → IsGiven size h bs f.pre rest f.chosen.addr h₂
taken-IsGiven size h h₁ bs p f rest h₂ k =
    let c = f.chosen in
    let g = f.chosen_is.in_order in
    let l = Linked-suffix h₁.heap_end h₁.cells f.pre (c ∷ f.post) g.linked in
    let same_end = k.joined.change.same_end in
    let free : c.is_free ≡ true = ground (arith, f.chosen_is.serves_it) in
    let in_order =
      IsHeap-replace h₁ h₂ f.pre c (block c.addr false) f.post rest g refl k.joined.change.below
        k.joined.change.same_head (omega (arith, same_end)) (rw same_end g.whole) k.joined.linked
        k.joined.tail in
    record {
      in_order = in_order;
      before =
          sym f.used
          ∙ used_regions-append h₁.heap_end f.pre c f.post
          ∙ ap (λ r. used_regions c.addr f.pre ++ r) (rw (free, same_end) (sym k.used));
      now = used_regions-append h₂.heap_end f.pre (block c.addr false) rest;
      apart =
          used_regions-Apart h₂.cells h₂.heap_end 0 (f.pre ++ (block c.addr false ∷ rest))
            (omega arith) in_order.linked;
      holds = rw same_end k.holds;
      aligned = omega (arith, l.1);
      same_data = k.joined.change.same_data ∙ f.same_data;
    }

IsGiven-smaller :
    (size larger : ℕ) (h : Heap) (bs pre rest : List Block) (a : ℕ) (h' : Heap)
    → size ≤ larger
    → IsGiven larger h bs pre rest a h'
    → IsGiven size h bs pre rest a h'
IsGiven-smaller size larger h bs pre rest a h' le g = record {
  in_order = g.in_order;
  before = g.before;
  now = g.now;
  apart = g.apart;
  holds = omega (arith, g.holds);
  aligned = g.aligned;
  same_data = g.same_data;
}

-- `malloc(size)`, for `0 < size < 2^63 - 16`, on a heap in order with the blocks `bs`, with fuel
-- for more rounds than there are blocks, and with an extension that adds multiples of 16 bytes,
-- ends without an abort. Either it returns a region of at least `size` bytes, which starts at a
-- multiple of 16: the heap is in order, the regions that were in use are in use as before, and no
-- two regions in use overlap, the new one included; or it returns NULL, the heap is in order with
-- the same regions in use, and the extension had added fewer bytes than it was asked for. The
-- contents of the regions are not touched.
pub malloc-Allocated :
    (expand : Ptr → ℕ → ℕ) (fuel size : ℕ) (h : Heap) (bs : List Block)
    → AddsWhole expand
    → 0 < size
    → size < 2 ^ 63 - 16
    → IsHeap h bs
    → length bs < fuel
    → Allocated expand size h bs (malloc expand fuel size h)
malloc-Allocated expand fuel size h bs whole pos small g enough =
    let (mult, le, lt) = round_size-whole size small in
    elim (find_or_make_free-Served expand whole fuel (round_size size) (omega arith) h bs g
      enough) [
        | found p h₁ finds f ↦
            let c = f.chosen in
            let g₁ = f.chosen_is.in_order in
            let l = Linked-suffix h₁.heap_end h₁.cells f.pre (c ∷ f.post) g₁.linked in
            let (h₂, rest, takes, k) =
              take_region-IsTaken (round_size size) h₁ c f.post l
                (g₁.tail ∙ last_of-append f.pre c f.post) mult f.chosen_is.serves_it in
            given f.pre rest c.addr h₂
              (malloc-found expand fuel size h p h₁ pos (rw f.at l.0) finds ∙ rw f.at takes)
              (IsGiven-smaller size (round_size size) h bs f.pre rest c.addr h₂ le
                (taken-IsGiven (round_size size) h h₁ bs p f rest h₂ k))
        | refused h' bs' n most short answer g' longer used same ↦
            denied h' bs' n (omega arith) short (malloc-refused expand fuel size h h' pos answer) g'
              used same
      ]

-- The block at `a` given back: the other blocks and the data are as before.
pub record IsFreed (h : Heap) (pre : List Block) (a : Ptr) (post : List Block) (h' : Heap)
    : Type 0 where
  pub in_order : IsHeap h' (pre ++ (block a true ∷ post))
  pub now :
      used_regions h'.heap_end (pre ++ (block a true ∷ post))
      ≡ used_regions a pre ++ used_regions h.heap_end post
  pub same_data : h'.data_bytes ≡ h.data_bytes

free-marks :
    (h h' : Heap) (b : Block)
    → lli_mark_as h b.addr true ≡ ok h'
    → free (b.addr + header_size) h ≡ ok h'
unfolding free
free-marks h h' b e =
    let some_ptr : (b.addr + 16 == 0) ≡ false = ground arith in
    let back : b.addr + 16 - 16 ≡ b.addr = omega arith in rw (some_ptr, back) e

free-IsFreed :
    (h : Heap) (pre : List Block) (a : Ptr) (post : List Block)
    → IsHeap h (pre ++ (block a false ∷ post))
    → (h' : Heap) × (free (a + header_size) h ≡ ok h') × IsFreed h pre a post h'
free-IsFreed h pre a post g =
    let b = block a false in
    let l = Linked-suffix h.heap_end h.cells pre (b ∷ post) g.linked in
    let (h', marks, j) = mark_as-Linked h b post true l (g.tail ∙ last_of-append pre b post) in
    let same_end = j.change.same_end in
    (
      h',
      free-marks h h' b marks,
      record {
        in_order =
            IsHeap-replace h h' pre b (block a true) post post g refl j.change.below
              j.change.same_head (omega (arith, same_end)) (rw same_end g.whole) j.linked j.tail;
        now = rw same_end (used_regions-append h.heap_end pre (block a true) post);
        same_data = j.change.same_data;
      },
    )

-- The allocator starts, at an address that is a positive multiple of 16 and with an extension
-- that adds at least a header and whole multiples of 16 bytes, without an abort: the heap is in
-- order, one free block with nothing in use, whatever the memory held before.
pub init_memory_allocator-IsHeap :
    (expand : Ptr → ℕ → ℕ) (start : Ptr) (h : Heap)
    → AddsWhole expand
    → 0 < start
    → start % 16 ≡ 0
    → header_size ≤ expand start header_size
    → (h' : Heap) × (init_memory_allocator expand start h ≡ ok h')
      × IsHeap h' (block start true ∷ [])
      × (used_regions h'.heap_end (block start true ∷ []) ≡ [])
unfolding init_memory_allocator
init_memory_allocator-IsHeap expand start h whole pos mult enough =
    let works : ltb (expand start 16) 16 ≡ false = ground arith in
    (
      record (lli_new h null start) {
        heap_end = start + expand start 16;
        head = start;
        tail = start;
      },
      rw works,
      record {
        some_block = omega arith;
        head = refl;
        linked = (pos, mult, omega arith, lli_new-cell h null start, tt);
        tail = refl;
        whole = omega (arith, whole start 16);
      },
      refl,
    )

free-IsGiven :
    (size : ℕ) (h : Heap) (bs pre rest : List Block) (a : ℕ) (h' : Heap)
    → IsGiven size h bs pre rest a h'
    → (h'' : Heap) × (bs' : List Block) × (free (a + header_size) h' ≡ ok h'')
      × IsHeap h'' bs'
      × (used_regions h''.heap_end bs' ≡ used_regions h.heap_end bs)
      × (h''.data_bytes ≡ h.data_bytes)
free-IsGiven size h bs pre rest a h' g =
    let (h'', frees, k) = free-IsFreed h' pre a rest g.in_order in
    (
      h'',
      pre ++ (block a true ∷ rest),
      frees,
      k.in_order,
      k.now ∙ sym g.before,
      k.same_data ∙ g.same_data,
    )

-- When `malloc(size)`, under the conditions of `malloc-Allocated`, returns a region and not NULL,
-- `free` of that region ends without an abort: the regions in use are again those from before
-- the call of `malloc`, the heap is in order and the contents of the regions are not touched.
pub free-malloc :
    (expand : Ptr → ℕ → ℕ) (fuel size : ℕ) (h : Heap) (bs : List Block) (p : Ptr) (h' : Heap)
    → AddsWhole expand
    → 0 < size
    → size < 2 ^ 63 - 16
    → IsHeap h bs
    → length bs < fuel
    → malloc expand fuel size h ≡ ok (p, h')
    → 0 < p
    → (h'' : Heap) × (bs' : List Block) × (free p h' ≡ ok h'')
      × IsHeap h'' bs'
      × (used_regions h''.heap_end bs' ≡ used_regions h.heap_end bs)
      × (h''.data_bytes ≡ h.data_bytes)
free-malloc expand fuel size h bs p h' whole pos small g enough answer some_p =
    elim (malloc-Allocated expand fuel size h bs whole pos small g enough) [
      | given pre rest a h₁ e k ↦
          let same_ptr : p ≡ a + header_size = cc in
          let same_heap : h' ≡ h₁ = cc in
          let frees = free-IsGiven size h bs pre rest a h₁ k in rw (same_ptr, same_heap) frees
      | denied h₁ bs' n most short e g' used same ↦
          let none_given : p ≡ null = cc in absurd (omega (arith, none_given))
    ]
