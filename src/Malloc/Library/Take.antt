-- ===== src/Malloc/Library/Take.antt =====
-- The last part of `malloc`: the region that was found is marked, and split if there is room.
use stuos.Prelude.{
  ℕ, ◌+◌, ◌-◌, ◌%◌, ◌≤◌, ◌≡◌, refl, true, false, leb, List, ◌∷◌, arith, Bool-cases, inl, inr,
}
use stuos.Malloc.Item.{Heap, ok, header_size, lli_mark_as, lli_insert_after}
use stuos.Malloc.Item.Laws.{IsJoined, IsChange-trans, region_size-Linked, region_start-Linked}
use stuos.Malloc.Item.Update.{block, mark_as-Linked, insert_after-Linked}
use stuos.Malloc.Library.{take_region}
use stuos.Malloc.Blocks.{Block, region_end, Linked, last_addr, serves, used_regions}

-- The region of the free block `b`, with `post` behind it, is handed out: the block is in use,
-- its region holds `size` bytes, and what is in use behind it is as before.
pub record IsTaken (size : ℕ) (h : Heap) (b : Block) (post rest : List Block) (h' : Heap)
    : Type 0 where
  pub joined : IsJoined h (block b.addr false) rest h'
  pub holds : b.addr + header_size + size ≤ region_end h.heap_end rest
  pub used : used_regions h.heap_end rest ≡ used_regions h.heap_end post

take_whole :
    (size : ℕ) (h h₁ : Heap) (b : Block) (post : List Block)
    → lli_mark_as h b.addr false ≡ ok h₁
    → IsJoined h (block b.addr false) post h₁
    → leb (size + header_size) (region_end h.heap_end post - (b.addr + header_size)) ≡ false
    → take_region size b.addr h ≡ ok (b.addr + header_size, h₁)
unfolding take_region
take_whole size h h₁ b post e j short = rw (
  e,
  region_size-Linked h₁ (block b.addr false) post j.linked,
  region_start-Linked h₁ (block b.addr false) post j.linked,
  j.change.same_end,
  short,
)

take_split :
    (size : ℕ) (h h₁ h₂ : Heap) (b : Block) (post : List Block)
    → lli_mark_as h b.addr false ≡ ok h₁
    → IsJoined h (block b.addr false) post h₁
    → leb (size + header_size) (region_end h.heap_end post - (b.addr + header_size)) ≡ true
    → lli_insert_after h₁ b.addr (b.addr + header_size + size) ≡ ok h₂
    → take_region size b.addr h ≡ ok (b.addr + header_size, h₂)
unfolding take_region
take_split size h h₁ h₂ b post e j room f = rw (
  e,
  region_size-Linked h₁ (block b.addr false) post j.linked,
  region_start-Linked h₁ (block b.addr false) post j.linked,
  f,
  j.change.same_end,
  room,
)

pub take_region-IsTaken :
    (size : ℕ) (h : Heap) (b : Block) (post : List Block)
    → Linked h.cells h.heap_end (b ∷ post)
    → h.tail ≡ last_addr b post
    → size % 16 ≡ 0
    → serves size h.heap_end b post ≡ true
    → (h' : Heap) × (rest : List Block) × (take_region size b.addr h
        ≡ ok (b.addr + header_size, h'))
      × IsTaken size h b post rest h'
take_region-IsTaken size h b post l t whole s =
    let (h₁, marks, j) = mark_as-Linked h b post false l t in
    let end = j.change.same_end in
    elim (Bool-cases
      (leb (size + header_size) (region_end h.heap_end post - (b.addr + header_size)))) [
        | inl room ↦
            let at : ℕ = b.addr + header_size + size in
            let fits : at + header_size ≤ region_end h.heap_end post = ground arith in
            let (h₂, inserts, k) =
              insert_after-Linked h₁ (block b.addr false) post at j.linked j.tail (omega arith)
                (rw end fits) (omega arith) in
            (
              h₂,
              block at true ∷ post,
              take_split size h h₁ h₂ b post marks j room inserts,
              record {
                joined = record {
                  change = IsChange-trans b.addr b.addr h h₁ h₂ (omega arith) j.change k.change;
                  linked = k.linked;
                  tail = k.tail;
                };
                holds = omega arith;
                used = refl;
              },
            )
        | inr short ↦ (
          h₁,
          post,
          take_whole size h h₁ b post marks j short,
          record { joined = j; holds = ground arith; used = refl },
        )
      ]
