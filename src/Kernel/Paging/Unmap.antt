-- ===== src/Kernel/Paging/Unmap.antt =====
-- `deallocate_page`, stuos/src/memory.c, on a tree of page tables.
use stuos.Prelude.{
  ℕ, suc, ◌+◌, ◌*◌, ◌/◌, ◌%◌, ◌^◌, ◌<◌, ◌≡◌, refl, ◌≢◌, true, false, ◌==◌, Option, none, some,
  arith, ◌∙◌, sym, ap, Bool-cases, inl, inr, some-injective,
}
use stuos.Kernel.Outcome.{done}
use stuos.Kernel.Slab.{Slab, page_size, set_flag, with_flags, free4k_phys}
use stuos.Kernel.Slab.Release.{free4k_phys-page}
use stuos.Kernel.Paging.{
  Entry, Tables, Machine, put_entry, present_child, remove_leaf, deallocate_page,
}
use stuos.Kernel.Paging.Space.{
  find, translate, index, index-lt, find-absent, find-present, find-page, Labels, IsSpace,
}
use stuos.Kernel.Paging.Leaf.{put_entry-find, put_entry-child, target-other}

-- An address that is translated has an entry on every level.
find-here :
    (tables : Tables) (l f v : ℕ) (e : Entry)
    → find tables l f v ≡ some e
    → (tables f (index l v)).present ≡ true
find-here tables l f v e found = elim (Bool-cases (tables f (index l v)).present) [
  | inl here ↦ here
  | inr gone ↦ absurd (clash (sym (find-absent tables l f v gone) ∙ found))
]
  where
    clash : {x : Entry} → ◌≡◌ {A = Option Entry} none (some x) → ⊥
    clash e = cc

-- One step on the way to a mapped page.
record IsStep (m : Machine) (labels : Labels) (f l p v : ℕ) (e : Entry) : Type 0 where
  here : (m.tables f (index (suc l) v)).present ≡ true
  child : labels (m.tables f (index (suc l) v)).addr ≡ some (l, p * 512 + index (suc l) v)
  rest : find m.tables l (m.tables f (index (suc l) v)).addr v ≡ some e

find-IsStep :
    (m : Machine) (labels : Labels) (f l p v : ℕ) (e : Entry)
    → IsSpace m labels
    → labels f ≡ some (suc l, p)
    → v < 2 ^ 47
    → find m.tables (suc l) f v ≡ some e
    → IsStep m labels f l p v e
find-IsStep m labels f l p v e s at lt found =
    let here = find-here m.tables (suc l) f v e found in
    record {
      here = here;
      child = s.child f l p (index (suc l) v) at (index-lt l v lt) here;
      rest = sym (find-present m.tables l f v here) ∙ found;
    }

remove_leaf-done :
    (m : Machine) (f i : ℕ) (slab : Slab)
    → (m.tables f i).present ≡ true
    → free4k_phys ((m.tables f i).addr * page_size) m.slab ≡ done slab
    → remove_leaf f i m
      ≡ done (record m {
        slab = slab;
        tables = put_entry f i (record (m.tables f i) { present = false }) m.tables;
      })
unfolding remove_leaf
remove_leaf-done m f i slab here frees = simp (here, frees)

present_child-done :
    (m : Machine) (f i : ℕ)
    → (m.tables f i).present ≡ true
    → present_child f i m ≡ done (m.tables f i).addr
unfolding present_child
present_child-done m f i here = simp here

abbrev without_page : Machine → ℕ → ℕ → ℕ → Machine
without_page m f i n = record m {
  slab = with_flags m.slab (set_flag m.slab.flags n false);
  tables = put_entry f i (record (m.tables f i) { present = false }) m.tables;
}

-- Giving back a page that is no table leaves the tables a tree.
without_page-IsSpace :
    (m : Machine) (labels : Labels) (f p i n : ℕ)
    → IsSpace m labels
    → labels f ≡ some (0, p)
    → labels (m.slab.base / 4096 + n) ≡ none
    → IsSpace (without_page m f i n) labels
without_page-IsSpace m labels f p i n s last no_table = record {
  paged = record { aligned = s.paged.aligned; reachable = s.paged.reachable };
  root = s.root;
  child = λ g l q j at lt here.
      let same =
        put_entry-child m labels f p i (record (m.tables f i) { present = false }) g l q j last
          at in
      rw same (s.child g l q j at lt (ap (λ x. x.present) (sym same) ∙ here));
  in_use = λ g x at.
      let (k, lt, place, used) = s.in_use g x at in
      elim (Bool-cases (k == n)) [
        | inl same ↦
            let e : g ≡ m.slab.base / 4096 + n = ground arith in
            absurd (clash (sym at ∙ ap labels e ∙ no_table))
        | inr other ↦ (k, lt, place, rw other used)
      ];
}
  where
    clash : {x : ℕ × ℕ} → ◌≡◌ {A = Option (ℕ × ℕ)} (some x) none → ⊥
    clash e = cc

-- A page of the lower half that is mapped to page `n` of the slab, which holds no table: it is
-- given back and is no longer mapped, and every other page of the lower half is translated as
-- before.
pub deallocate_page-translate :
    (m : Machine) (labels : Labels) (v n : ℕ) (e : Entry)
    → IsSpace m labels
    → v % 4096 ≡ 0
    → v < 2 ^ 47
    → translate m v ≡ some e
    → n < m.slab.pages
    → e.addr ≡ m.slab.base / 4096 + n
    → labels e.addr ≡ none
    → (m' : Machine) × (deallocate_page v m ≡ done m')
      × (m'.slab ≡ with_flags m.slab (set_flag m.slab.flags n false))
      × IsSpace m' labels
      × (translate m' v ≡ none)
      × ((w : ℕ) → w < 2 ^ 47 → w / 4096 ≢ v / 4096 → translate m' w ≡ translate m w)
unfolding deallocate_page
deallocate_page-translate m labels v n e s start lt found below place no_table =
    let root = m.cr3 / 4096 in
    let i = index 0 v in
    let a = find-IsStep m labels root 2 0 v e s s.root lt found in
    let c₁ = (m.tables root (index 3 v)).addr in
    let b = find-IsStep m labels c₁ 1 _ v e s a.child lt a.rest in
    let c₂ = (m.tables c₁ (index 2 v)).addr in
    let c = find-IsStep m labels c₂ 0 _ v e s b.child lt b.rest in
    let c₃ = (m.tables c₂ (index 1 v)).addr in
    let here = find-here m.tables 0 c₃ v e c.rest in
    let leaf = some-injective _ _ (sym (find-page m.tables c₃ v here) ∙ c.rest) in
    let addr = ap (λ x. x.addr) leaf ∙ place in
    let m' = without_page m c₃ i n in
    let frees =
      free4k_phys-page m.slab n ((m.tables c₃ i).addr * page_size)
        (record { aligned = s.paged.aligned; fits = omega (arith, s.paged.reachable) }) below
        (omega (arith, addr, s.paged.aligned)) in
    let gone : (m'.tables c₃ i).present ≡ false = ground arith in
    (
      m',
      simp
          (
            start,
            present_child-done m root (index 3 v) a.here,
            present_child-done m c₁ (index 2 v) b.here,
            present_child-done m c₂ (index 1 v) c.here,
          )
          (remove_leaf-done m c₃ i (with_flags m.slab (set_flag m.slab.flags n false)) here frees),
      refl,
      without_page-IsSpace m labels c₃ _ i n s c.child (ap labels (sym place) ∙ no_table),
      same_step m' 2 root _ (put_entry-child m labels c₃ _ i _ root 2 0 (index 3 v) c.child s.root)
            a.here
          ∙ same_step m' 1 c₁ _
              (put_entry-child m labels c₃ _ i _ c₁ 1 _ (index 2 v) c.child a.child) b.here
          ∙ same_step m' 0 c₂ _
              (put_entry-child m labels c₃ _ i _ c₂ 0 _ (index 1 v) c.child b.child) c.here
          ∙ find-absent m'.tables 0 c₃ v gone,
      λ w lt-w ne.
          put_entry-find m labels c₃ _ i _ s c.child 3 root 0 w s.root lt-w
            (target-other v w lt lt-w ne),
    )
  where
    same_step :
        (m' : Machine) (l f : ℕ) (x : Entry)
        → m'.tables f (index (suc l) v) ≡ x
        → x.present ≡ true
        → find m'.tables (suc l) f v ≡ find m'.tables l x.addr v
    same_step m' l f x same here =
        find-present m'.tables l f v (ap (λ x. x.present) same ∙ here)
        ∙ ap (λ x. find m'.tables l x.addr v) same
