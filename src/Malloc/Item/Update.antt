-- ===== src/Malloc/Item/Update.antt =====
-- Marking a block and inserting one behind it.
use stuos.Prelude.{
  ℕ, ◌+◌, ◌%◌, ◌≤◌, ◌<◌, ◌≡◌, refl, ◌≢◌, Bool, true, false, ◌==◌, ltb, if◌then◌else◌, List, [], ◌∷◌,
  arith, sym, ◌∙◌,
}
use stuos.Libc.Memory.{Ptr}
use stuos.Malloc.Item.{
  Heap, Header, ok, header_size, lli_mark_as, lli_insert_after, put_cell, new_header, lli_new,
}
use stuos.Malloc.Item.Laws.{IsJoined, Linked-frame}
use stuos.Malloc.Blocks.{Block, header, region_end, next_of, Linked, last_addr, IsChange}

abbrev pub block : ℕ → Bool → Block
block addr is_free = record { addr = addr; is_free = is_free }

put_here : (h : Heap) (p : Ptr) (c : Header) → (put_cell h p c).cells p ≡ c
put_here h p c = ground arith

put_else : (h : Heap) (p a : Ptr) (c : Header) → a ≢ p → (put_cell h p c).cells a ≡ h.cells a
put_else h p a c ne = ground arith

put-IsChange : (h : Heap) (p : Ptr) (c : Header) → IsChange p h (put_cell h p c)
put-IsChange h p c = record {
  same_head = refl;
  same_end = refl;
  same_data = refl;
  below = λ a lt. put_else h p a c (omega arith);
}

last_addr-block :
    (b : Block) (f : Bool) (bs : List Block) → last_addr (block b.addr f) bs ≡ last_addr b bs
last_addr-block b f [] = refl
last_addr-block b f (c ∷ bs) = refl

-- `lli_mark_as` changes the mark of the block and nothing else.
pub mark_as-Linked :
    (h : Heap) (b : Block) (bs : List Block) (f : Bool)
    → Linked h.cells h.heap_end (b ∷ bs)
    → h.tail ≡ last_addr b bs
    → (h' : Heap) × (lli_mark_as h b.addr f ≡ ok h') × IsJoined h (block b.addr f) bs h'
unfolding lli_mark_as
mark_as-Linked h b bs f l t = (
  put_cell h b.addr (header (next_of bs) f),
  rw l.3,
  record {
    change = put-IsChange h b.addr _;
    linked = (
      l.0,
      l.1,
      l.2,
      put_here h b.addr _,
      Linked-frame h.cells _ h.heap_end (b.addr + 1) bs (omega arith)
          (λ a le. put_else h b.addr a _ (omega arith)) l.4,
    );
    tail = t ∙ sym (last_addr-block b f bs);
  },
)

-- The heap with a free header put behind `b` at `at`.
inserted : Heap → Block → List Block → Ptr → Heap
inserted h b bs at =
    let h₁ = put_cell h b.addr (header at b.is_free) in
    let h₂ = put_cell h₁ at (new_header (next_of bs)) in
    if next_of bs == 0 then record h₂ { tail = at } else h₂

insert_after-inserted :
    (h : Heap) (b : Block) (bs : List Block) (at : Ptr)
    → Linked h.cells h.heap_end (b ∷ bs)
    → b.addr + header_size ≤ at
    → at + header_size ≤ region_end h.heap_end bs
    → lli_insert_after h b.addr at ≡ ok (inserted h b bs at)
unfolding lli_insert_after inserted
insert_after-inserted h b [] at l lo hi =
    let some_addr : (at == 0) ≡ false = ground arith in
    let behind : ltb at (b.addr + 16) ≡ false = ground arith in rw (l.3, some_addr, behind)
insert_after-inserted h b (c ∷ bs) at l lo hi =
    let some_addr : (at == 0) ≡ false = ground arith in
    let next_addr : (c.addr == 0) ≡ false = ground arith in
    let behind : ltb at (b.addr + 16) ≡ false = ground arith in
    let before : ltb c.addr (at + 16) ≡ false = ground arith in
    let itself : (at == at) ≡ true = ground arith in
    rw (l.3, some_addr, behind, next_addr, itself, before)

-- The two headers that an insertion writes.
abbrev written : Heap → Block → List Block → Ptr → Heap
written h b bs at = put_cell (put_cell h b.addr (header at b.is_free)) at (new_header (next_of bs))

written_here :
    (h : Heap) (b : Block) (bs : List Block) (at : Ptr)
    → b.addr ≢ at
    → (written h b bs at).cells b.addr ≡ header at b.is_free
written_here h b bs at ne = ground arith

written_else :
    (h : Heap) (b : Block) (bs : List Block) (at a : Ptr)
    → a ≢ b.addr
    → a ≢ at
    → (written h b bs at).cells a ≡ h.cells a
written_else h b bs at a p q = ground arith

written_at :
    (h : Heap) (b : Block) (bs : List Block) (at : Ptr)
    → (written h b bs at).cells at ≡ new_header (next_of bs)
written_at h b bs at = ground arith

written-IsChange :
    (h : Heap) (b : Block) (bs : List Block) (at : Ptr)
    → b.addr < at
    → IsChange b.addr h (written h b bs at)
written-IsChange h b bs at lt = record {
  same_head = refl;
  same_end = refl;
  same_data = refl;
  below = λ a below. written_else h b bs at a (omega arith) (omega arith);
}

written-Linked :
    (h : Heap) (b : Block) (bs : List Block) (at : Ptr)
    → Linked h.cells h.heap_end (b ∷ bs)
    → b.addr + header_size ≤ at
    → at + header_size ≤ region_end h.heap_end bs
    → at % 16 ≡ 0
    → Linked (written h b bs at).cells h.heap_end (b ∷ block at true ∷ bs)
written-Linked h b bs at l lo hi whole = (
  l.0,
  l.1,
  lo,
  written_here h b bs at (omega arith),
  (
    omega arith,
    whole,
    hi,
    written_at h b bs at,
    Linked-frame h.cells _ h.heap_end (at + 1) bs (omega arith)
        (λ a le. written_else h b bs at a (omega arith) (omega arith)) l.4,
  ),
)

inserted-IsJoined :
    (h : Heap) (b : Block) (bs : List Block) (at : Ptr)
    → Linked h.cells h.heap_end (b ∷ bs)
    → h.tail ≡ last_addr b bs
    → b.addr + header_size ≤ at
    → at + header_size ≤ region_end h.heap_end bs
    → at % 16 ≡ 0
    → IsJoined h b (block at true ∷ bs) (inserted h b bs at)
unfolding inserted
inserted-IsJoined h b [] at l t lo hi whole =
    let c = written-IsChange h b [] at (omega arith) in
    record {
      change = record { same_head = refl; same_end = refl; same_data = refl; below = c.below };
      linked = written-Linked h b [] at l lo hi whole;
      tail = refl;
    }
inserted-IsJoined h b (c ∷ cs) at l t lo hi whole =
    let some_next : (c.addr == 0) ≡ false = ground arith in
    rw some_next (record {
      change = written-IsChange h b (c ∷ cs) at (omega arith);
      linked = written-Linked h b (c ∷ cs) at l lo hi whole;
      tail = t;
    })

-- `lli_insert_after` splits the region of the block: the part from `at` on is a free block.
pub insert_after-Linked :
    (h : Heap) (b : Block) (bs : List Block) (at : Ptr)
    → Linked h.cells h.heap_end (b ∷ bs)
    → h.tail ≡ last_addr b bs
    → b.addr + header_size ≤ at
    → at + header_size ≤ region_end h.heap_end bs
    → at % 16 ≡ 0
    → (h' : Heap) × (lli_insert_after h b.addr at ≡ ok h') × IsJoined h b (block at true ∷ bs) h'
insert_after-Linked h b bs at l t lo hi whole = (
  inserted h b bs at,
  insert_after-inserted h b bs at l lo hi,
  inserted-IsJoined h b bs at l t lo hi whole,
)

pub lli_new-cell : (h : Heap) (next p : Ptr) → (lli_new h next p).cells p ≡ header next true
unfolding lli_new
lli_new-cell h next p = put_here h p (new_header next)
