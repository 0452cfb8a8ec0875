-- ===== src/Malloc/Library/Lists.antt =====
-- Blocks in the middle of a list: the part before them stays as it is.
use stuos.Prelude.{
  ℕ, suc, zero, ◌<◌, ◌≡◌, refl, true, false, ◌&&◌, List, [], ◌∷◌, ◌++◌, length, arith, ◌∙◌, ap,
  Bool-cases, inl, inr,
}
use stuos.Libc.Memory.{Ptr}
use stuos.Malloc.Item.{Header}
use stuos.Malloc.Blocks.{
  Block, region_end, next_of, Linked, absorb, Walk, hit, miss, prepend, blocks_of, serves, walk,
  used_regions, walk_hit, walk_last, walk_more,
}
use stuos.Malloc.Library.Find.{List-cases, length-absorb, blocks_of-prepend}

module _ (end : ℕ) where
  region_end-append :
      (pre : List Block) (b b' : Block) (bs bs' : List Block)
      → b'.addr ≡ b.addr
      → region_end end (pre ++ (b' ∷ bs')) ≡ region_end end (pre ++ (b ∷ bs))
  region_end-append [] b b' bs bs' e = e
  region_end-append (p ∷ pre) b b' bs bs' e = refl

  next_of-append :
      (pre : List Block) (b b' : Block) (bs bs' : List Block)
      → b'.addr ≡ b.addr
      → next_of (pre ++ (b' ∷ bs')) ≡ next_of (pre ++ (b ∷ bs))
  next_of-append [] b b' bs bs' e = e
  next_of-append (p ∷ pre) b b' bs bs' e = refl

  pub Linked-suffix :
      (cells : Ptr → Header) (pre bs : List Block)
      → Linked cells end (pre ++ bs)
      → Linked cells end bs
  Linked-suffix cells [] bs l = l
  Linked-suffix cells (p ∷ pre) bs l = Linked-suffix cells pre bs l.4

  -- Blocks before `b` lie below it.
  front-lt :
      (cells : Ptr → Header) (p : Block) (pre : List Block) (b : Block) (bs : List Block)
      → Linked cells end (p ∷ (pre ++ (b ∷ bs)))
      → p.addr < b.addr
  front-lt cells p [] b bs l = omega arith
  front-lt cells p (q ∷ pre) b bs l = omega (arith, front-lt cells q pre b bs l.4)

  -- A change from `b` on carries over to the whole list.
  pub Linked-replace :
      (cells cells' : Ptr → Header) (pre : List Block) (b b' : Block) (bs bs' : List Block)
      → b'.addr ≡ b.addr
      → ((a : ℕ) → a < b.addr → cells' a ≡ cells a)
      → Linked cells end (pre ++ (b ∷ bs))
      → Linked cells' end (b' ∷ bs')
      → Linked cells' end (pre ++ (b' ∷ bs'))
  Linked-replace cells cells' [] b b' bs bs' e same l l' = l'
  Linked-replace cells cells' (p ∷ pre) b b' bs bs' e same l l' = (
    l.0,
    l.1,
    rw (region_end-append pre b b' bs bs' e) l.2,
    rw (next_of-append pre b b' bs bs' e) (same p.addr (front-lt cells p pre b bs l) ∙ l.3),
    Linked-replace cells cells' pre b b' bs bs' e same l.4 l',
  )

  -- The regions in use before the block `b` are those of a heap that ends where `b` stands.
  pub used_regions-append :
      (pre : List Block) (b : Block) (bs : List Block)
      → used_regions end (pre ++ (b ∷ bs)) ≡ used_regions b.addr pre ++ used_regions end (b ∷ bs)
  used_regions-append [] b bs = refl
  used_regions-append (p ∷ []) b bs = ground arith
  used_regions-append (p ∷ q ∷ pre) b bs = elim (Bool-cases p.is_free) [
    | inl free ↦ rw free (used_regions-append (q ∷ pre) b bs)
    | inr in_use ↦ rw in_use (ap (λ r. (p.addr, q.addr) ∷ r) (used_regions-append (q ∷ pre) b bs))
  ]

  absorb-used :
      (b : Block) (bs : List Block) → used_regions end (b ∷ absorb b bs) ≡ used_regions end (b ∷ bs)
  absorb-used b [] = refl
  absorb-used b (c ∷ bs) = elim (Bool-cases (b.is_free && c.is_free)) [
    | inl both ↦ rw both (absorb-used b bs ∙ free_pair b c bs both)
    | inr not_both ↦ rw not_both refl
  ]
    where
      free_pair :
          (b c : Block) (bs : List Block)
          → (b.is_free && c.is_free) ≡ true
          → used_regions end (b ∷ bs) ≡ used_regions end (b ∷ c ∷ bs)
      free_pair b c bs both = ground arith

  start-walk :
      (fuel size : ℕ) (b : Block) (bs : List Block)
      → region_end end (blocks_of (walk fuel size end b bs)) ≡ b.addr
  unfolding walk
  start-walk zero size b bs = refl
  start-walk (suc fuel) size b bs = elim (Bool-cases (serves size end b (absorb b bs))) [
    | inl yes_serves ↦ rw (walk_hit fuel size end b bs yes_serves)
    | inr no_serves ↦ elim (List-cases (absorb b bs)) [
      | inl last ↦ rw (walk_last fuel size end b bs no_serves last)
      | inr (c, cs, more) ↦ rw (walk_more fuel size end b bs c cs no_serves more, blocks_of-prepend)
    ]
  ]

  used_regions-cons :
      (b : Block) (xs ys : List Block)
      → region_end end xs ≡ region_end end ys
      → used_regions end xs ≡ used_regions end ys
      → used_regions end (b ∷ xs) ≡ used_regions end (b ∷ ys)
  used_regions-cons b xs ys e f = rw (e, f)

  -- The search joins free blocks only.
  pub used_regions-walk :
      (fuel size : ℕ) (b : Block) (bs : List Block)
      → length bs < fuel
      → used_regions end (blocks_of (walk fuel size end b bs)) ≡ used_regions end (b ∷ bs)
  used_regions-walk zero size b bs f = absurd (omega arith)
  used_regions-walk (suc fuel) size b bs f = elim (Bool-cases (serves size end b (absorb b bs))) [
    | inl yes_serves ↦ rw (walk_hit fuel size end b bs yes_serves) (absorb-used b bs)
    | inr no_serves ↦ elim (List-cases (absorb b bs)) [
      | inl last ↦ rw (walk_last fuel size end b bs no_serves last) (rw last at (absorb-used b bs))
      | inr (c, cs, more) ↦
          let shorter : length cs < fuel = omega (arith, length-absorb b bs, ap length more) in
          rw (walk_more fuel size end b bs c cs no_serves more, blocks_of-prepend)
            (used_regions-cons b (blocks_of (walk fuel size end c cs)) (c ∷ cs)
                (start-walk fuel size c cs) (used_regions-walk fuel size c cs shorter)
              ∙ (rw more at (absorb-used b bs)))
    ]
  ]

  -- A block that is found serves the request, and the last block does not if none is found.
  abbrev pub IsAnswer : ℕ → Walk → Type 0
  IsAnswer size (hit pre b post) = serves size end b post ≡ true
  IsAnswer size (miss pre b) = serves size end b [] ≡ false

  IsAnswer-prepend :
      (size : ℕ) (b : Block) (w : Walk) → IsAnswer size w → IsAnswer size (prepend b w)
  IsAnswer-prepend size b (hit pre c post) a = a
  IsAnswer-prepend size b (miss pre c) a = a

  pub walk-IsAnswer :
      (fuel size : ℕ) (b : Block) (bs : List Block)
      → length bs < fuel
      → IsAnswer size (walk fuel size end b bs)
  walk-IsAnswer zero size b bs f = absurd (omega arith)
  walk-IsAnswer (suc fuel) size b bs f = elim (Bool-cases (serves size end b (absorb b bs))) [
    | inl yes_serves ↦ rw (walk_hit fuel size end b bs yes_serves) yes_serves
    | inr no_serves ↦ elim (List-cases (absorb b bs)) [
      | inl last ↦ rw (walk_last fuel size end b bs no_serves last) (rw last at no_serves)
      | inr (c, cs, more) ↦
          let shorter : length cs < fuel = omega (arith, length-absorb b bs, ap length more) in
          rw (walk_more fuel size end b bs c cs no_serves more)
            (IsAnswer-prepend size b _ (walk-IsAnswer fuel size c cs shorter))
    ]
  ]
