-- ===== src/Malloc/Library/Find.antt =====
-- The search of `find_or_make_free` follows `walk` on the list of blocks.
use stuos.Prelude.{
  ℕ, zero, suc, ◌+◌, ◌≤◌, ◌<◌, ◌≡◌, refl, false, ◌&&◌, ◌==◌, if◌then◌else◌, List, [], ◌∷◌, length,
  arith, ◌∙◌, ap, Bool-cases, inl, inr, ◌⊎◌, none, some,
}
use stuos.Malloc.Item.{Heap, ok}
use stuos.Malloc.Item.Laws.{
  IsJoined, IsChange-refl, IsChange-trans, try_merge_last, try_merge_used, try_merge_joins,
  region_size-Linked, is_free-Linked,
}
use stuos.Malloc.Library.{merge_all, find_free}
use stuos.Malloc.Blocks.{
  Block, region_end, next_of, Linked, last_addr, absorb, IsChange, Walk, hit, miss, prepend,
  blocks_of, found_of, tail_of, serves, walk, walk_hit, walk_last, walk_more,
}

pub length-absorb : (b : Block) (bs : List Block) → length (absorb b bs) ≤ length bs
length-absorb b [] = omega arith
length-absorb b (c ∷ bs) = ground (arith, length-absorb b bs)

-- The inner loop joins all free blocks behind a free one.
merge_all-absorb :
    (fuel : ℕ) (h : Heap) (b : Block) (bs : List Block)
    → Linked h.cells h.heap_end (b ∷ bs)
    → h.tail ≡ last_addr b bs
    → length bs < fuel
    → (h' : Heap) × (merge_all fuel h b.addr ≡ ok h') × IsJoined h b (absorb b bs) h'
unfolding merge_all
merge_all-absorb zero h b bs l t f = absurd (omega arith)
merge_all-absorb (suc fuel) h b [] l t f =
    (h, rw (try_merge_last h b l), record { change = IsChange-refl b.addr h; linked = l; tail = t })
merge_all-absorb (suc fuel) h b (c ∷ bs) l t f = elim (Bool-cases (b.is_free && c.is_free)) [
  | inl both ↦
      let (h₁, step, j) = try_merge_joins h b c bs l t both in
      let (h₂, rest, k) = merge_all-absorb fuel h₁ b bs j.linked j.tail (omega arith) in
      (
        h₂,
        rw step rest,
        rw both (record {
          change = IsChange-trans b.addr b.addr h h₁ h₂ (omega arith) j.change k.change;
          linked = k.linked;
          tail = k.tail;
        }),
      )
  | inr not_both ↦ (
    h,
    rw (try_merge_used h b c bs l not_both),
    rw not_both (record { change = IsChange-refl b.addr h; linked = l; tail = t }),
  )
]

pub List-cases : (bs : List Block) → (bs ≡ []) ⊎ ((c : Block) × (cs : List Block) × (bs ≡ c ∷ cs))
List-cases [] = inl refl
List-cases (c ∷ cs) = inr (c, cs, refl)

pub blocks_of-prepend : (b : Block) (w : Walk) → blocks_of (prepend b w) ≡ b ∷ blocks_of w
blocks_of-prepend b (hit pre c post) = refl
blocks_of-prepend b (miss pre c) = refl

pub tail_of-prepend : (b : Block) (w : Walk) → tail_of (prepend b w) ≡ tail_of w
tail_of-prepend b (hit pre c post) = refl
tail_of-prepend b (miss pre c) = refl

pub found_of-prepend : (b : Block) (w : Walk) → found_of (prepend b w) ≡ found_of w
found_of-prepend b (hit pre c post) = refl
found_of-prepend b (miss pre c) = refl

-- What the search leaves: the blocks of `w`, of which the first stands at `lo`.
pub record IsWalked (h : Heap) (lo : ℕ) (w : Walk) (h' : Heap) : Type 0 where
  pub change : IsChange lo h h'
  pub linked : Linked h'.cells h'.heap_end (blocks_of w)
  pub tail : h'.tail ≡ tail_of w
  pub starts : next_of (blocks_of w) ≡ lo
  pub start_end : (end : ℕ) → region_end end (blocks_of w) ≡ lo

IsWalked-prepend :
    (h h₁ h₂ : Heap) (b c : Block) (cs : List Block) (w : Walk)
    → IsJoined h b (c ∷ cs) h₁
    → IsWalked h₁ c.addr w h₂
    → IsWalked h b.addr (prepend b w) h₂
IsWalked-prepend h h₁ h₂ b c cs w j k = record {
  change = IsChange-trans b.addr c.addr h h₁ h₂ (omega arith) j.change k.change;
  linked = rw blocks_of-prepend (
    j.linked.0,
    j.linked.1,
    rw (k.start_end h₂.heap_end) j.linked.2,
    rw k.starts (k.change.below b.addr (omega arith) ∙ j.linked.3),
    k.linked,
  );
  tail = rw tail_of-prepend k.tail;
  starts = rw blocks_of-prepend;
  start_end = λ end. rw blocks_of-prepend;
}

-- The search ends here with the block found.
IsWalked-hit :
    (h h' : Heap) (b : Block) (rest : List Block)
    → IsJoined h b rest h'
    → IsWalked h b.addr (hit [] b rest) h'
IsWalked-hit h h' b rest j = record {
  change = j.change;
  linked = j.linked;
  tail = j.tail;
  starts = refl;
  start_end = λ end. refl;
}

IsWalked-miss : (h h' : Heap) (b : Block) → IsJoined h b [] h' → IsWalked h b.addr (miss [] b) h'
IsWalked-miss h h' b j = record {
  change = j.change;
  linked = j.linked;
  tail = j.tail;
  starts = refl;
  start_end = λ end. refl;
}

-- One round of the loop, once the free blocks behind `b` are joined to it.
find_free-round :
    (k fuel size : ℕ) (h h' : Heap) (b : Block) (rest : List Block)
    → 0 < b.addr
    → merge_all k h b.addr ≡ ok h'
    → Linked h'.cells h'.heap_end (b ∷ rest)
    → find_free k (suc fuel) size h b.addr ≡ (
        if serves size h'.heap_end b rest
        then ok (some b.addr, h')
        else find_free k fuel size h' (next_of rest))
unfolding find_free
find_free-round k fuel size h h' b rest pos e l =
    let here : (b.addr == 0) ≡ false = ground arith in
    rw (here, e, region_size-Linked h' b rest l, is_free-Linked h' b rest l, l.3)

find_free-null : (k fuel size : ℕ) (h : Heap) → find_free k (suc fuel) size h 0 ≡ ok (none, h)
unfolding find_free
find_free-null k fuel size h = refl

pub find_free-walk :
    (k fuel size : ℕ) (h : Heap) (b : Block) (bs : List Block)
    → Linked h.cells h.heap_end (b ∷ bs)
    → h.tail ≡ last_addr b bs
    → length bs < k
    → length bs + 1 < fuel
    → (h' : Heap) × (find_free k fuel size h b.addr
        ≡ ok (found_of (walk fuel size h.heap_end b bs), h'))
      × IsWalked h b.addr (walk fuel size h.heap_end b bs) h'
find_free-walk k zero size h b bs l t kf f = absurd (omega arith)
find_free-walk k (suc zero) size h b bs l t kf f = absurd (omega arith)
find_free-walk k (suc (suc fuel)) size h b bs l t kf f =
    let (h₁, joins, j) = merge_all-absorb k h b bs l t kf in
    let round = find_free-round k (suc fuel) size h h₁ b (absorb b bs) l.0 joins j.linked in
    let same_end = j.change.same_end in
    elim (Bool-cases (serves size h.heap_end b (absorb b bs))) [
      | inl yes_serves ↦ (
        h₁,
        rw (walk_hit (suc fuel) size h.heap_end b bs yes_serves)
            (round ∙ rw (same_end, yes_serves)),
        rw (walk_hit (suc fuel) size h.heap_end b bs yes_serves)
            (IsWalked-hit h h₁ b (absorb b bs) j),
      )
      | inr no_serves ↦ elim (List-cases (absorb b bs)) [
        | inl last ↦ (
          h₁,
          rw (walk_last (suc fuel) size h.heap_end b bs no_serves last)
              (round ∙ rw (same_end, no_serves, last) (find_free-null k fuel size h₁)),
          rw (walk_last (suc fuel) size h.heap_end b bs no_serves last)
              (IsWalked-miss h h₁ b (rw last at j)),
        )
        | inr (c, cs, more) ↦
            let j' : IsJoined h b (c ∷ cs) h₁ = rw more at j in
            let shorter : length cs + 1 ≤ length bs =
              omega (arith, length-absorb b bs, ap length more) in
            let ih =
              find_free-walk k (suc fuel) size h₁ c cs j'.linked.4 j'.tail (omega arith)
                (omega arith) in
            (
              ih.0,
              rw (walk_more (suc fuel) size h.heap_end b bs c cs no_serves more, found_of-prepend)
                  (round ∙ rw (same_end, no_serves, more) (rw same_end at ih.1)),
              rw (walk_more (suc fuel) size h.heap_end b bs c cs no_serves more)
                  (IsWalked-prepend h h₁ ih.0 b c cs _ j' (rw same_end at ih.2)),
            )
      ]
    ]
