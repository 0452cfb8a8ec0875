-- ===== src/Malloc/Library/Request.antt =====
-- The search for a free region, and the extension of the heap where there is none.
use stuos.Prelude.{
  ℕ, ◌+◌, ◌%◌, ◌^◌, ◌≤◌, ◌<◌, ◌≡◌, refl, true, false, List, [], ◌∷◌, ◌++◌, length, arith, ◌∙◌, sym,
  ap, subst, Bool-cases, inl, inr, none, some, dec_lt,
}
use stuos.Libc.Memory.{Ptr, null}
use stuos.Malloc.Item.{Heap, Result, ok, header_size}
use stuos.Malloc.Item.Update.{block}
use stuos.Malloc.Library.{find_free, find_or_make_free, make_free}
use stuos.Malloc.Library.Find.{IsWalked, find_free-walk}
use stuos.Malloc.Library.Lists.{Linked-suffix, used_regions-walk, IsAnswer, walk-IsAnswer}
use stuos.Malloc.Library.Grow.{AddsWhole, wanted, extended, make_free_fails, grow_free, grow_used}
use stuos.Malloc.Library.Laws.{
  IsHeap, IsChosen, last_of, length-pos, last_of-append, IsHeap-replace, used_regions-ends,
  append-cons,
}
use stuos.Malloc.Blocks.{
  Block, Walk, hit, miss, blocks_of, found_of, tail_of, serves, walk, used_regions,
}

-- What a successful search or extension comes to.
pub record Finds (size : ℕ) (h : Heap) (bs : List Block) (p : Ptr) (h' : Heap) : Type 0 where
  pub pre : List Block
  pub chosen : Block
  pub post : List Block
  pub at : p ≡ chosen.addr
  pub chosen_is : IsChosen size h' pre chosen post
  pub used : used_regions h'.heap_end (pre ++ (chosen ∷ post)) ≡ used_regions h.heap_end bs
  pub same_data : h'.data_bytes ≡ h.data_bytes

-- A request is served from the blocks in order, or refused with the blocks in use as they were;
-- a refusal may have moved the end of the heap, and with it the end of the last region, and it
-- comes from an extension that adds fewer than the `n` bytes it is asked for.
pub data Served (expand : Ptr → ℕ → ℕ) (size : ℕ) (h : Heap) (bs : List Block)
    (r : Result (Ptr × Heap)) : Type 0 where
  found : (p : Ptr) (h' : Heap) → r ≡ ok (p, h') → Finds size h bs p h' → Served expand size h bs r
  refused :
      (h' : Heap) (bs' : List Block) (n : ℕ)
      → n ≤ size + header_size
      → expand h.heap_end n < n
      → r ≡ ok (null, h')
      → IsHeap h' bs'
      → h.heap_end ≤ h'.heap_end
      → used_regions h.heap_end bs' ≡ used_regions h.heap_end bs
      → h'.data_bytes ≡ h.data_bytes
      → Served expand size h bs r

module _ (expand : Ptr → ℕ → ℕ) (whole : AddsWhole expand) (fuel size : ℕ)
    (small : size < 2 ^ 63) where
  find_or_make_free-hit :
      (h h₁ : Heap) (p : Ptr)
      → find_free fuel fuel size h h.head ≡ ok (some p, h₁)
      → find_or_make_free expand fuel size h ≡ ok (p, h₁)
  unfolding find_or_make_free
  find_or_make_free-hit h h₁ p e = rw e

  find_or_make_free-miss :
      (h h₁ : Heap)
      → find_free fuel fuel size h h.head ≡ ok (none, h₁)
      → find_or_make_free expand fuel size h ≡ make_free expand size h₁
  unfolding find_or_make_free
  find_or_make_free-miss h h₁ e = rw e

  wanted-le : (h : Heap) (t : Block) → wanted size h.heap_end t ≤ size + header_size
  wanted-le h t = ground arith

  -- The last block `t` does not serve, so the heap is extended behind it.
  make_free-Served :
      (h : Heap) (pre : List Block) (t : Block)
      → IsHeap h (pre ++ (t ∷ []))
      → serves size h.heap_end t [] ≡ false
      → Served expand size h (pre ++ (t ∷ [])) (make_free expand size h)
  make_free-Served h pre t g s =
      let l = Linked-suffix h.heap_end h.cells pre (t ∷ []) g.linked in
      let at_end : h.tail ≡ t.addr = g.tail ∙ last_of-append pre t [] in
      let got : ℕ = expand h.heap_end (wanted size h.heap_end t) in
      let got_whole : got % 16 ≡ 0 = whole h.heap_end (wanted size h.heap_end t) in
      elim (dec_lt got (wanted size h.heap_end t)) [
        | yes short ↦
            refused (extended h got) (pre ++ (t ∷ [])) (wanted size h.heap_end t) (wanted-le h t)
              short (make_free_fails expand whole size h t l at_end g.whole small s short)
              (IsHeap-replace h (extended h got) pre t t [] [] g refl (λ a lt. refl) refl
                (omega arith) (omega (arith, g.whole)) (l.0, l.1, omega arith, l.3, tt) at_end)
              (omega arith) refl refl
        | no enough ↦ elim (Bool-cases t.is_free) [
          | inl free ↦
              let (h', makes, k) =
                grow_free expand whole size h t l at_end g.whole small s free (omega arith) in
              found h'.tail h' makes (record {
                pre = pre;
                chosen = t;
                post = [];
                at = k.tail;
                chosen_is = record {
                  in_order =
                      IsHeap-replace h h' pre t t [] [] g refl k.below k.same_head
                        (omega (arith, k.new_end)) (omega (arith, k.new_end, g.whole)) k.linked
                        k.tail;
                  serves_it = k.serves_it;
                };
                used = used_regions-ends h.heap_end h'.heap_end pre t [] [] k.used;
                same_data = k.same_data;
              })
          | inr in_use ↦
              let new = block h.heap_end true in
              let (h', makes, k) =
                grow_used expand whole size h t l at_end g.whole small s in_use (omega arith) in
              let assoc = append-cons pre t (new ∷ []) in
              found h'.tail h' makes (record {
                pre = pre ++ (t ∷ []);
                chosen = new;
                post = [];
                at = k.tail;
                chosen_is = record {
                  in_order = subst (IsHeap h') (sym assoc) (
                      IsHeap-replace h h' pre t t [] (new ∷ []) g refl k.below k.same_head
                        (omega (arith, k.new_end)) (omega (arith, k.new_end, g.whole)) k.linked
                        k.tail);
                  serves_it = k.serves_it;
                };
                used =
                    ap (used_regions h'.heap_end) assoc
                    ∙ used_regions-ends h.heap_end h'.heap_end pre t [] (new ∷ []) k.used;
                same_data = k.same_data;
              })
        ]
      ]

  -- The heap after the search, in order.
  walked-IsHeap :
      (h h₁ : Heap) (b : Block) (bs : List Block) (w : Walk)
      → IsHeap h (b ∷ bs)
      → IsWalked h b.addr w h₁
      → (0 < length (blocks_of w)) × (last_of (blocks_of w) ≡ tail_of w)
      → IsHeap h₁ (blocks_of w)
  walked-IsHeap h h₁ b bs w g k facts = record {
    some_block = facts.0;
    head = k.change.same_head ∙ g.head ∙ sym k.starts;
    linked = k.linked;
    tail = k.tail ∙ sym facts.1;
    whole = rw k.change.same_end g.whole;
  }

  -- What was served after the search was served before it.
  Served-back :
      (h h₁ : Heap) (bs bs₁ : List Block) (r : Result (Ptr × Heap))
      → h₁.heap_end ≡ h.heap_end
      → h₁.data_bytes ≡ h.data_bytes
      → used_regions h.heap_end bs₁ ≡ used_regions h.heap_end bs
      → Served expand size h₁ bs₁ r
      → Served expand size h bs r
  Served-back h h₁ bs bs₁ r e d u (found p h' answer finds) = found p h' answer (record {
    pre = finds.pre;
    chosen = finds.chosen;
    post = finds.post;
    at = finds.at;
    chosen_is = finds.chosen_is;
    used = finds.used ∙ rw e u;
    same_data = finds.same_data ∙ d;
  })
  Served-back h h₁ bs bs₁ r e d u (refused h' bs' n most short answer g le used same) =
      refused h' bs' n most (rw e at short) answer g (omega (arith, e)) (rw e at used ∙ u)
        (same ∙ d)

  walked-Served :
      (h h₁ : Heap) (b : Block) (bs : List Block) (w : Walk)
      → IsHeap h (b ∷ bs)
      → find_free fuel fuel size h h.head ≡ ok (found_of w, h₁)
      → IsWalked h b.addr w h₁
      → IsAnswer h.heap_end size w
      → used_regions h.heap_end (blocks_of w) ≡ used_regions h.heap_end (b ∷ bs)
      → Served expand size h (b ∷ bs) (find_or_make_free expand fuel size h)
  walked-Served h h₁ b bs (hit pre c post) g e k a u =
      let g₁ =
        walked-IsHeap h h₁ b bs (hit pre c post) g k
          (length-pos pre c post, last_of-append pre c post) in
      found c.addr h₁ (find_or_make_free-hit h h₁ c.addr e) (record {
        pre = pre;
        chosen = c;
        post = post;
        at = refl;
        chosen_is = record { in_order = g₁; serves_it = rw k.change.same_end a };
        used = rw k.change.same_end u;
        same_data = k.change.same_data;
      })
  walked-Served h h₁ b bs (miss pre c) g e k a u =
      let g₁ =
        walked-IsHeap h h₁ b bs (miss pre c) g k (length-pos pre c [], last_of-append pre c []) in
      rw (find_or_make_free-miss h h₁ e) (
        Served-back h h₁ (b ∷ bs) (pre ++ (c ∷ [])) _ k.change.same_end k.change.same_data u
          (make_free-Served h₁ pre c g₁ (rw k.change.same_end a)))

  -- `find_or_make_free` either finds a free block that serves or refuses.
  pub find_or_make_free-Served :
      (h : Heap) (bs : List Block)
      → IsHeap h bs
      → length bs < fuel
      → Served expand size h bs (find_or_make_free expand fuel size h)
  find_or_make_free-Served h [] g f = absurd (omega (arith, g.some_block))
  find_or_make_free-Served h (b ∷ bs) g f =
      let (h₁, finds, k) =
        find_free-walk fuel fuel size h b bs g.linked g.tail (omega arith) (omega arith) in
      let finds' : find_free fuel fuel size h h.head
          ≡ ok (found_of (walk fuel size h.heap_end b bs), h₁) =
        subst
          (λ p. find_free fuel fuel size h p ≡ ok (found_of (walk fuel size h.heap_end b bs), h₁))
          (sym g.head) finds in
      walked-Served h h₁ b bs (walk fuel size h.heap_end b bs) g finds' k
        (walk-IsAnswer h.heap_end fuel size b bs (omega arith))
        (used_regions-walk h.heap_end fuel size b bs (omega arith))
