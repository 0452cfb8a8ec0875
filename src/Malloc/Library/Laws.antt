-- ===== src/Malloc/Library/Laws.antt =====
-- The routines of custom_malloc/library.c on a heap that is in order.
use stuos.Prelude.{
  ℕ, ◌%◌, ◌≤◌, ◌<◌, ◌≡◌, refl, true, List, [], ◌∷◌, ◌++◌, length, arith, ◌∙◌, sym, ap,
}
use stuos.Libc.Memory.{Ptr}
use stuos.Malloc.Item.{Heap, Header}
use stuos.Malloc.Library.Lists.{Linked-replace}
use stuos.Malloc.Blocks.{Block, next_of, Linked, last_addr, serves, used_regions}

abbrev pub last_of : List Block → ℕ
last_of [] = 0
last_of (b ∷ bs) = last_addr b bs

-- The heap is in order: its blocks, in memory from the head on, are `bs`.
pub record IsHeap (h : Heap) (bs : List Block) : Type 0 where
  pub some_block : 0 < length bs
  pub head : h.head ≡ next_of bs
  pub linked : Linked h.cells h.heap_end bs
  pub tail : h.tail ≡ last_of bs
  pub whole : h.heap_end % 16 ≡ 0

-- A heap with a free block, chosen for a request: the blocks before it, the block, those behind.
pub record IsChosen (size : ℕ) (h : Heap) (pre : List Block) (c : Block) (post : List Block)
    : Type 0 where
  pub in_order : IsHeap h (pre ++ (c ∷ post))
  pub serves_it : serves size h.heap_end c post ≡ true

pub last_of-append :
    (pre : List Block) (c : Block) (post : List Block)
    → last_of (pre ++ (c ∷ post)) ≡ last_addr c post
last_of-append [] c post = refl
last_of-append (p ∷ []) c post = refl
last_of-append (p ∷ q ∷ pre) c post = last_of-append (q ∷ pre) c post

pub length-pos : (pre : List Block) (c : Block) (post : List Block) → 0 < length (pre ++ (c ∷ post))
length-pos [] c post = omega arith
length-pos (p ∷ pre) c post = omega arith

pub next_of-same :
    (pre : List Block) (b b' : Block) (bs bs' : List Block)
    → b'.addr ≡ b.addr
    → next_of (pre ++ (b' ∷ bs')) ≡ next_of (pre ++ (b ∷ bs))
next_of-same [] b b' bs bs' e = e
next_of-same (p ∷ pre) b b' bs bs' e = refl

Linked-extend :
    (cells : Ptr → Header) (end end' : ℕ) (bs : List Block)
    → end ≤ end'
    → Linked cells end bs
    → Linked cells end' bs
Linked-extend cells end end' [] le l = tt
Linked-extend cells end end' (b ∷ []) le l = (l.0, l.1, omega arith, l.3, tt)
Linked-extend cells end end' (b ∷ c ∷ bs) le l =
    (l.0, l.1, l.2, l.3, Linked-extend cells end end' (c ∷ bs) le l.4)

-- A heap in order stays so when it changes from the block `b` on.
pub IsHeap-replace :
    (h h' : Heap) (pre : List Block) (b b' : Block) (bs bs' : List Block)
    → IsHeap h (pre ++ (b ∷ bs))
    → b'.addr ≡ b.addr
    → ((a : ℕ) → a < b.addr → h'.cells a ≡ h.cells a)
    → h'.head ≡ h.head
    → h.heap_end ≤ h'.heap_end
    → h'.heap_end % 16 ≡ 0
    → Linked h'.cells h'.heap_end (b' ∷ bs')
    → h'.tail ≡ last_addr b' bs'
    → IsHeap h' (pre ++ (b' ∷ bs'))
IsHeap-replace h h' pre b b' bs bs' g e below same le whole l t = record {
  some_block = length-pos pre b' bs';
  head = same ∙ g.head ∙ sym (next_of-same pre b b' bs bs' e);
  linked =
      Linked-replace h'.heap_end h.cells h'.cells pre b b' bs bs' e below
        (Linked-extend h.cells h.heap_end h'.heap_end (pre ++ (b ∷ bs)) le g.linked) l;
  tail = t ∙ sym (last_of-append pre b' bs');
  whole = whole;
}

-- The regions in use before a block do not depend on where the heap ends.
pub used_regions-ends :
    (end end' : ℕ) (pre : List Block) (b : Block) (bs bs' : List Block)
    → used_regions end' (b ∷ bs') ≡ used_regions end (b ∷ bs)
    → used_regions end' (pre ++ (b ∷ bs')) ≡ used_regions end (pre ++ (b ∷ bs))
used_regions-ends end end' [] b bs bs' e = e
used_regions-ends end end' (p ∷ []) b bs bs' e = rw e
used_regions-ends end end' (p ∷ q ∷ pre) b bs bs' e =
    rw (used_regions-ends end end' (q ∷ pre) b bs bs' e)

pub append-cons :
    (pre : List Block) (b : Block) (bs : List Block) → (pre ++ (b ∷ [])) ++ bs ≡ pre ++ (b ∷ bs)
append-cons [] b bs = refl
append-cons (p ∷ pre) b bs = ap (λ r. p ∷ r) (append-cons pre b bs)
