-- ===== src/Malloc/Blocks.antt =====
-- The heap as the list of its blocks, in the order of their addresses.
use stuos.Prelude.{
  ℕ, suc, zero, ◌+◌, ◌-◌, ◌%◌, ◌≤◌, ◌<◌, ◌≡◌, Bool, true, false, leb, ◌&&◌, if◌then◌else◌, List, [],
  ◌∷◌, ◌++◌, Option, none, some, arith,
}
use stuos.Libc.Memory.{Ptr}
use stuos.Malloc.Item.{Header, Heap, header_size, ll_canary}

-- A header's address and its mark.
pub record Block : Type 0 where
  pub addr : ℕ
  pub is_free : Bool

abbrev pub header : Ptr → Bool → Header
header next is_free = record { next = next; is_free = is_free; canary = ll_canary }

-- Where the region of a block ends, given the blocks behind it, and where its header points.
abbrev pub region_end : ℕ → List Block → ℕ
region_end end [] = end
region_end end (c ∷ bs) = c.addr

abbrev pub next_of : List Block → Ptr
next_of [] = 0
next_of (c ∷ bs) = c.addr

-- The blocks `bs` stand in memory as a list that ends with `end`: each header has its canary and
-- points at the next, behind its own region; addresses are multiples of 16.
abbrev pub Linked : (Ptr → Header) → ℕ → List Block → Type 0
Linked cells end [] = Unit
Linked cells end (b ∷ bs) =
    (0 < b.addr)
    × (b.addr % 16 ≡ 0)
    × (b.addr + header_size ≤ region_end end bs)
    × (cells b.addr ≡ header (next_of bs) b.is_free)
    × Linked cells end bs

abbrev pub last_addr : Block → List Block → ℕ
last_addr b [] = b.addr
last_addr b (c ∷ bs) = last_addr c bs

-- The blocks in use, each with the end of its region.
abbrev pub used_regions : ℕ → List Block → List (ℕ × ℕ)
used_regions end [] = []
used_regions end (b ∷ bs) =
    if b.is_free then used_regions end bs else (b.addr, region_end end bs) ∷ used_regions end bs

-- What stays behind a block once the free blocks next to it are joined to it.
abbrev pub absorb : Block → List Block → List Block
absorb b [] = []
absorb b (c ∷ bs) = if b.is_free && c.is_free then absorb b bs else c ∷ bs

-- A change of the heap from address `lo` on, which leaves the head, the end and the data alone.
pub record IsChange (lo : ℕ) (h h' : Heap) : Type 0 where
  pub same_head : h'.head ≡ h.head
  pub same_end : h'.heap_end ≡ h.heap_end
  pub same_data : h'.data_bytes ≡ h.data_bytes
  pub below : (a : ℕ) → a < lo → h'.cells a ≡ h.cells a

-- Where a search for a region ends: at a free block that is large enough, among the blocks
-- before and behind it, or at the last block with none found.
pub data Walk : Type 0 where
  hit : List Block → Block → List Block → Walk
  miss : List Block → Block → Walk

abbrev pub prepend : Block → Walk → Walk
prepend b (hit pre c post) = hit (b ∷ pre) c post
prepend b (miss pre c) = miss (b ∷ pre) c

abbrev pub blocks_of : Walk → List Block
blocks_of (hit pre c post) = pre ++ (c ∷ post)
blocks_of (miss pre c) = pre ++ (c ∷ [])

abbrev pub found_of : Walk → Option Ptr
found_of (hit pre c post) = some c.addr
found_of (miss pre c) = none

abbrev pub tail_of : Walk → Ptr
tail_of (hit pre c post) = last_addr c post
tail_of (miss pre c) = c.addr

-- Whether a block with `rest` behind it can serve a request.
abbrev pub serves : ℕ → ℕ → Block → List Block → Bool
serves size end b rest = leb size (region_end end rest - (b.addr + header_size)) && b.is_free

-- The search on the list: join, test, go on.
unfoldable pub walk : ℕ → ℕ → ℕ → Block → List Block → Walk
walk zero size end b bs = miss [] b
walk (suc fuel) size end b bs = elim (serves size end b (absorb b bs)) [
  | true ↦ hit [] b (absorb b bs)
  | false ↦ elim (absorb b bs) [ [] ↦ miss [] b | c ∷ cs ↦ prepend b (walk fuel size end c cs) ]
]

module _ (fuel size end : ℕ) (b : Block) (bs : List Block) where
  pub walk_hit :
      serves size end b (absorb b bs) ≡ true
      → walk (suc fuel) size end b bs ≡ hit [] b (absorb b bs)
  unfolding walk
  walk_hit e = ground arith

  pub walk_last :
      serves size end b (absorb b bs) ≡ false
      → absorb b bs ≡ []
      → walk (suc fuel) size end b bs ≡ miss [] b
  unfolding walk
  walk_last e f = ground arith

  pub walk_more :
      (c : Block) (cs : List Block)
      → serves size end b (absorb b bs) ≡ false
      → absorb b bs ≡ c ∷ cs
      → walk (suc fuel) size end b bs ≡ prepend b (walk fuel size end c cs)
  unfolding walk
  walk_more c cs e f = ground arith
