-- ===== src/Malloc/Library/Grow.antt =====
-- `make_free`: no region was found, so the heap is extended behind its last block.
use stuos.Prelude.{
  ℕ, ◌+◌, ◌-◌, ◌%◌, ◌^◌, ◌≤◌, ◌<◌, ◌≡◌, refl, Bool, true, false, ltb, if◌then◌else◌, List, [], ◌∷◌,
  arith, ◌∙◌, sym, ap, subst, Bool-cases, inl, inr,
}
use stuos.Libc.Memory.{Ptr, null}
use stuos.Malloc.Item.{
  Heap, ok, header_size, lli_insert_after, lli_region_size, lli_is_free, lli_try_merge_after,
}
use stuos.Malloc.Item.Laws.{
  IsJoined, region_size-Linked, is_free-Linked, try_merge_used, try_merge_joins,
}
use stuos.Malloc.Item.Update.{block, insert_after-Linked}
use stuos.Malloc.Library.{expand_heap, make_free}
use stuos.Malloc.Blocks.{Block, Linked, serves, used_regions}

-- What an extension of the heap may do: it adds whole multiples of 16 bytes. The kernel's and
-- the C library's both add whole pages.
abbrev pub AddsWhole : (Ptr → ℕ → ℕ) → Type 0
AddsWhole expand = (end bytes : ℕ) → expand end bytes % 16 ≡ 0

-- The bytes to ask for behind the last block `t`.
abbrev pub wanted : ℕ → ℕ → Block → ℕ
wanted size end t =
    (if t.is_free then size - (end - (t.addr + header_size)) else size) + header_size

abbrev pub extended : Heap → ℕ → Heap
extended h n = record h { heap_end = h.heap_end + n }

-- The last block and, if it is in use, a new one behind it.
abbrev pub grown_rest : Heap → Block → List Block
grown_rest h t = if t.is_free then [] else block h.heap_end true ∷ []

abbrev pub chosen : Heap → Block → Ptr
chosen h t = if t.is_free then t.addr else h.heap_end

module _ (expand : Ptr → ℕ → ℕ) (whole : AddsWhole expand) (size : ℕ) (h : Heap) (t : Block)
    (l : Linked h.cells h.heap_end (t ∷ [])) (at_end : h.tail ≡ t.addr)
    (end_whole : h.heap_end % 16 ≡ 0) (small : size < 2 ^ 63)
    (none_here : serves size h.heap_end t [] ≡ false) where
  abbrev got : ℕ
  got = expand h.heap_end (wanted size h.heap_end t)

  expand_heap_fails :
      (n : ℕ)
      → (n + header_size) % 2 ^ 64 ≡ wanted size h.heap_end t
      → got < wanted size h.heap_end t
      → expand_heap expand n h ≡ ok (false, extended h got)
  unfolding expand_heap
  expand_heap_fails n e short =
      let fails : ltb got (wanted size h.heap_end t) ≡ true = ground arith in rw (e, fails)

  expand_heap_inserts :
      (n : ℕ) (h' : Heap)
      → (n + header_size) % 2 ^ 64 ≡ wanted size h.heap_end t
      → wanted size h.heap_end t ≤ got
      → lli_insert_after (extended h got) h.tail h.heap_end ≡ ok h'
      → expand_heap expand n h ≡ ok (true, h')
  unfolding expand_heap
  expand_heap_inserts n h' e enough inserts =
      let works : ltb got (wanted size h.heap_end t) ≡ false = ground arith in
      rw (e, works, inserts)

  expand_heap_grows :
      wanted size h.heap_end t ≤ got
      → (h' : Heap) × (lli_insert_after (extended h got) h.tail h.heap_end ≡ ok h')
        × IsJoined (extended h got) t (block h.heap_end true ∷ []) h'
  expand_heap_grows enough =
      let larger : Linked h.cells (h.heap_end + got) (t ∷ []) = (l.0, l.1, omega arith, l.3, tt) in
      let (h', inserts, j) =
        insert_after-Linked (extended h got) t [] h.heap_end larger at_end l.2 (omega arith)
          end_whole in
      (
        h',
        subst (λ p. lli_insert_after (extended h got) p h.heap_end ≡ ok h') (sym at_end) inserts,
        j,
      )

  -- The size of a free last block, or 0.
  abbrev last_size : ℕ
  last_size = if t.is_free then h.heap_end - (t.addr + header_size) else 0

  last_size-lt : (t.is_free ≡ true) → last_size < size
  last_size-lt free = ground arith

  request : ℕ
  request = (size + 2 ^ 64 - last_size) % 2 ^ 64

  request-wanted : (request + header_size) % 2 ^ 64 ≡ wanted size h.heap_end t
  unfolding request
  request-wanted = elim (Bool-cases t.is_free) [
    | inl free ↦ rw free (omega (arith, rw free at (last_size-lt free)))
    | inr used ↦ rw used (omega arith)
  ]

  last_size_read : (if t.is_free then lli_region_size h t.addr else ok 0) ≡ ok last_size
  last_size_read = elim (Bool-cases t.is_free) [
    | inl free ↦ rw free (region_size-Linked h t [] l)
    | inr used ↦ rw used
  ]

  last_read :
      (lli_is_free h h.tail ≡ ok t.is_free)
      × ((if t.is_free then lli_region_size h h.tail else ok 0) ≡ ok last_size)
  last_read = (
    subst (λ p. lli_is_free h p ≡ ok t.is_free) (sym at_end) (is_free-Linked h t [] l),
    subst (λ p. (if t.is_free then lli_region_size h p else ok 0) ≡ ok last_size) (sym at_end)
        last_size_read,
  )

  -- A heap that the search leaves without a region, once it is extended and joined.
  make_free_ends :
      (h₁ h₂ : Heap) (merged : Bool) (c : Block)
      → expand_heap expand request h ≡ ok (true, h₁)
      → lli_try_merge_after h₁ h.tail ≡ ok (merged, h₂)
      → Linked h₂.cells h₂.heap_end (c ∷ [])
      → h₂.tail ≡ c.addr
      → c.is_free ≡ true
      → size ≤ h₂.heap_end - (c.addr + header_size)
      → make_free expand size h ≡ ok (h₂.tail, h₂)
  unfolding make_free request
  make_free_ends h₁ h₂ merged c grows merges lc tc free fits =
      let fits' : ltb (h₂.heap_end - (c.addr + header_size)) size ≡ false = ground arith in
      let marked : (h₂.cells h₂.tail).is_free ≡ true =
        subst (λ p. (h₂.cells p).is_free ≡ true) (sym tc) (ap (λ x. x.is_free) lc.3 ∙ free) in
      let sized : lli_region_size h₂ h₂.tail ≡ ok (h₂.heap_end - (c.addr + header_size)) =
        subst (λ p. lli_region_size h₂ p ≡ ok (h₂.heap_end - (c.addr + header_size))) (sym tc)
          (region_size-Linked h₂ c [] lc) in
      rw (last_read.0, last_read.1, grows, merges, marked, sized, fits')

  -- The heap could not be extended far enough: NULL, and the blocks are as they were.
  pub make_free_fails :
      got < wanted size h.heap_end t → make_free expand size h ≡ ok (null, extended h got)
  unfolding make_free request
  make_free_fails short =
      rw (last_read.0, last_read.1, expand_heap_fails request request-wanted short)

  -- What a heap that was extended looks like from its old last block on.
  pub record IsGrown (c : Block) (rest : List Block) (h' : Heap) : Type 0 where
    pub below : (a : ℕ) → a < t.addr → h'.cells a ≡ h.cells a
    pub same_head : h'.head ≡ h.head
    pub same_data : h'.data_bytes ≡ h.data_bytes
    pub new_end : h'.heap_end ≡ h.heap_end + got
    pub linked : Linked h'.cells h'.heap_end (t ∷ rest)
    pub tail : h'.tail ≡ c.addr
    pub serves_it : serves size h'.heap_end c [] ≡ true
    pub used : used_regions h'.heap_end (t ∷ rest) ≡ used_regions h.heap_end (t ∷ [])

  pub grow_free :
      t.is_free ≡ true
      → wanted size h.heap_end t ≤ got
      → (h' : Heap) × (make_free expand size h ≡ ok (h'.tail, h')) × IsGrown t [] h'
  grow_free free enough =
      let (h₁, inserts, j) = expand_heap_grows enough in
      let grows = expand_heap_inserts request h₁ request-wanted enough inserts in
      let (h₂, merges, k) =
        try_merge_joins h₁ t (block h.heap_end true) [] j.linked j.tail (rw free) in
      let merges' : lli_try_merge_after h₁ h.tail ≡ ok (true, h₂) =
        subst (λ p. lli_try_merge_after h₁ p ≡ ok (true, h₂)) (sym at_end) merges in
      let new_end : h₂.heap_end ≡ h.heap_end + got = k.change.same_end ∙ j.change.same_end in
      let wants : wanted size h.heap_end t + (h.heap_end - (t.addr + header_size))
          ≡ size + header_size =
        rw free (omega (arith, rw free at (last_size-lt free))) in
      let fits : size ≤ h₂.heap_end - (t.addr + header_size) = omega arith in
      (
        h₂,
        make_free_ends h₁ h₂ true t grows merges' k.linked k.tail free fits,
        record {
          below = λ a lt. k.change.below a lt ∙ j.change.below a lt;
          same_head = k.change.same_head ∙ j.change.same_head;
          same_data = k.change.same_data ∙ j.change.same_data;
          new_end = new_end;
          linked = k.linked;
          tail = k.tail;
          serves_it = ground arith;
          used = rw free;
        },
      )

  pub grow_used :
      t.is_free ≡ false
      → wanted size h.heap_end t ≤ got
      → (h' : Heap) × (make_free expand size h ≡ ok (h'.tail, h'))
        × IsGrown (block h.heap_end true) (block h.heap_end true ∷ []) h'
  grow_used used enough =
      let new = block h.heap_end true in
      let (h₁, inserts, j) = expand_heap_grows enough in
      let grows = expand_heap_inserts request h₁ request-wanted enough inserts in
      let merges = try_merge_used h₁ t new [] j.linked (rw used) in
      let merges' : lli_try_merge_after h₁ h.tail ≡ ok (false, h₁) =
        subst (λ p. lli_try_merge_after h₁ p ≡ ok (false, h₁)) (sym at_end) merges in
      let wants : wanted size h.heap_end t ≡ size + header_size = rw used in
      let new_end : h₁.heap_end ≡ h.heap_end + got = j.change.same_end in
      (
        h₁,
        make_free_ends h₁ h₁ false new grows merges' j.linked.4 j.tail refl (omega arith),
        record {
          below = j.change.below;
          same_head = j.change.same_head;
          same_data = j.change.same_data;
          new_end = new_end;
          linked = j.linked;
          tail = j.tail;
          serves_it = ground arith;
          used = rw used;
        },
      )
