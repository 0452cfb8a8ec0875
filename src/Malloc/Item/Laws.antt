-- ===== src/Malloc/Item/Laws.antt =====
-- What the operations on headers do to a list of blocks in memory.
use stuos.Prelude.{
  ℕ, ◌+◌, ◌-◌, ◌≤◌, ◌<◌, ◌≡◌, refl, ◌≢◌, true, false, ◌==◌, ◌&&◌, if◌then◌else◌, List, [], ◌∷◌,
  arith, ◌∙◌,
}
use stuos.Libc.Memory.{Ptr}
use stuos.Malloc.Item.{
  Heap, Header, ok, header_size, destroy, lli_is_free, lli_region_start, lli_region_size,
  lli_try_merge_after, put_cell,
}
use stuos.Malloc.Blocks.{Block, header, region_end, next_of, Linked, last_addr, IsChange}

pub IsChange-refl : (lo : ℕ) (h : Heap) → IsChange lo h h
IsChange-refl lo h = record {
  same_head = refl;
  same_end = refl;
  same_data = refl;
  below = λ a lt. refl;
}

pub IsChange-trans :
    (lo mid : ℕ) (h h' h'' : Heap)
    → lo ≤ mid
    → IsChange lo h h'
    → IsChange mid h' h''
    → IsChange lo h h''
IsChange-trans lo mid h h' h'' le c d = record {
  same_head = d.same_head ∙ c.same_head;
  same_end = d.same_end ∙ c.same_end;
  same_data = d.same_data ∙ c.same_data;
  below = λ a lt. d.below a (omega arith) ∙ c.below a lt;
}

-- Blocks stay where the memory from the first of them on stays.
pub Linked-frame :
    (cells cells' : Ptr → Header) (end lo : ℕ) (bs : List Block)
    → lo ≤ region_end end bs
    → ((a : ℕ) → lo ≤ a → cells' a ≡ cells a)
    → Linked cells end bs
    → Linked cells' end bs
Linked-frame cells cells' end lo [] le same l = tt
Linked-frame cells cells' end lo (b ∷ bs) le same l = (
  l.0,
  l.1,
  l.2,
  same b.addr le ∙ l.3,
  Linked-frame cells cells' end lo bs (omega arith) same l.4,
)

pub last_addr-ge :
    (cells : Ptr → Header) (end : ℕ) (b : Block) (bs : List Block)
    → Linked cells end (b ∷ bs)
    → b.addr ≤ last_addr b bs
last_addr-ge cells end b [] l = omega arith
last_addr-ge cells end b (c ∷ bs) l = omega (arith, last_addr-ge cells end c bs l.4)

-- A step of joining with nothing to join.
pub try_merge_last :
    (h : Heap) (b : Block)
    → Linked h.cells h.heap_end (b ∷ [])
    → lli_try_merge_after h b.addr ≡ ok (false, h)
unfolding lli_try_merge_after
try_merge_last h b l = ground arith

pub try_merge_used :
    (h : Heap) (b c : Block) (bs : List Block)
    → Linked h.cells h.heap_end (b ∷ c ∷ bs)
    → (b.is_free && c.is_free) ≡ false
    → lli_try_merge_after h b.addr ≡ ok (false, h)
unfolding lli_try_merge_after
try_merge_used h b c bs l e = ground arith

-- What a step of joining leaves in memory: `b` has taken in its neighbour.
pub record IsJoined (h : Heap) (b : Block) (bs : List Block) (h' : Heap) : Type 0 where
  pub change : IsChange b.addr h h'
  pub linked : Linked h'.cells h'.heap_end (b ∷ bs)
  pub tail : h'.tail ≡ last_addr b bs

-- The heap after the header of `c`, which follows `b`, is taken out.
abbrev joined_heap : Heap → Block → Block → List Block → Heap
joined_heap h b c bs =
    let h₁ = put_cell h b.addr (header (next_of bs) b.is_free) in
    destroy (record h₁ { tail = if c.addr == h.tail then b.addr else h.tail }) c.addr

try_merge_free :
    (h : Heap) (b c : Block) (bs : List Block)
    → Linked h.cells h.heap_end (b ∷ c ∷ bs)
    → (b.is_free && c.is_free) ≡ true
    → lli_try_merge_after h b.addr ≡ ok (true, joined_heap h b c bs)
unfolding lli_try_merge_after
try_merge_free h b c bs l e =
    let here : (c.addr == 0) ≡ false = ground arith in
    let b_free : b.is_free ≡ true = ground arith in
    let c_free : c.is_free ≡ true = ground arith in rw (l.3, here, l.4.3, b_free, c_free)

joined_heap_else :
    (h : Heap) (b c : Block) (bs : List Block) (a : ℕ)
    → a ≢ b.addr
    → a ≢ c.addr
    → (joined_heap h b c bs).cells a ≡ h.cells a
unfolding destroy
joined_heap_else h b c bs a p q = ground arith

joined_heap_here :
    (h : Heap) (b c : Block) (bs : List Block)
    → b.addr ≢ c.addr
    → (joined_heap h b c bs).cells b.addr ≡ header (next_of bs) b.is_free
unfolding destroy
joined_heap_here h b c bs p = ground arith

joined_heap_tail :
    (h : Heap) (b c : Block) (bs : List Block)
    → (joined_heap h b c bs).tail ≡ (if c.addr == h.tail then b.addr else h.tail)
unfolding destroy
joined_heap_tail h b c bs = refl

joined_heap-IsChange :
    (h : Heap) (b c : Block) (bs : List Block)
    → b.addr < c.addr
    → IsChange b.addr h (joined_heap h b c bs)
unfolding destroy
joined_heap-IsChange h b c bs lt = record {
  same_head = refl;
  same_end = refl;
  same_data = refl;
  below = λ a below. joined_heap_else h b c bs a (omega arith) (omega arith);
}

joined_heap-tail :
    (h : Heap) (b c : Block) (bs : List Block)
    → Linked h.cells h.heap_end (c ∷ bs)
    → h.tail ≡ last_addr c bs
    → (joined_heap h b c bs).tail ≡ last_addr b bs
joined_heap-tail h b c [] l t = tail_of_last (joined_heap_tail h b c []) t
  where
    tail_of_last :
        {u : ℕ} → u ≡ (if c.addr == h.tail then b.addr else h.tail) → h.tail ≡ c.addr → u ≡ b.addr
    tail_of_last e f = ground arith
joined_heap-tail h b c (d ∷ ds) l t =
    tail_of_more (joined_heap_tail h b c (d ∷ ds))
      (omega (arith, last_addr-ge h.cells h.heap_end d ds l.4))
  where
    tail_of_more :
        {u : ℕ}
        → u ≡ (if c.addr == h.tail then b.addr else h.tail)
        → h.tail ≢ c.addr
        → u ≡ last_addr d ds
    tail_of_more e f = ground arith

joined_heap-IsJoined :
    (h : Heap) (b c : Block) (bs : List Block)
    → Linked h.cells h.heap_end (b ∷ c ∷ bs)
    → h.tail ≡ last_addr c bs
    → IsJoined h b bs (joined_heap h b c bs)
unfolding destroy
joined_heap-IsJoined h b c bs l t = record {
  change = joined_heap-IsChange h b c bs (omega arith);
  linked = (
    l.0,
    l.1,
    omega arith,
    joined_heap_here h b c bs (omega arith),
    Linked-frame h.cells _ h.heap_end (c.addr + 1) bs (omega arith)
        (λ a le. joined_heap_else h b c bs a (omega arith) (omega arith)) l.4.4,
  );
  tail = joined_heap-tail h b c bs l.4 t;
}

-- A step of joining takes the next block in when both are free.
pub try_merge_joins :
    (h : Heap) (b c : Block) (bs : List Block)
    → Linked h.cells h.heap_end (b ∷ c ∷ bs)
    → h.tail ≡ last_addr c bs
    → (b.is_free && c.is_free) ≡ true
    → (h' : Heap) × (lli_try_merge_after h b.addr ≡ ok (true, h')) × IsJoined h b bs h'
try_merge_joins h b c bs l t e =
    (joined_heap h b c bs, try_merge_free h b c bs l e, joined_heap-IsJoined h b c bs l t)

-- The size of a region, and what a header says.
pub region_size-Linked :
    (h : Heap) (b : Block) (bs : List Block)
    → Linked h.cells h.heap_end (b ∷ bs)
    → lli_region_size h b.addr ≡ ok (region_end h.heap_end bs - (b.addr + header_size))
unfolding lli_region_size
region_size-Linked h b [] l = ground arith
region_size-Linked h b (c ∷ bs) l = ground arith

pub is_free-Linked :
    (h : Heap) (b : Block) (bs : List Block)
    → Linked h.cells h.heap_end (b ∷ bs)
    → lli_is_free h b.addr ≡ ok b.is_free
unfolding lli_is_free
is_free-Linked h b bs l = ground arith

pub region_start-Linked :
    (h : Heap) (b : Block) (bs : List Block)
    → Linked h.cells h.heap_end (b ∷ bs)
    → lli_region_start h b.addr ≡ ok (b.addr + header_size)
unfolding lli_region_start
region_start-Linked h b bs l = ground arith
