-- ===== src/Kernel/Paging/Table.antt =====
-- A new table in a tree of page tables.
use stuos.Prelude.{
  ℕ, zero, suc, ◌+◌, ◌*◌, ◌/◌, ◌%◌, ◌^◌, ◌≤◌, ◌<◌, ◌≡◌, refl, ◌≢◌, Bool, true, false, ◌==◌, ltb,
  ◌&&◌, if◌then◌else◌, Option, some, arith, ◌∙◌, sym, ap, Bool-cases, inl, inr,
}
use stuos.Kernel.Slab.{set_flag, with_flags}
use stuos.Kernel.Paging.{Tables, Machine, put_entry, parent_entry, clear_table}
use stuos.Kernel.Paging.Space.{
  find, index, index-lt, index-small, find-absent, find-present, Labels, slots, free_pages, IsSpace,
  Extends,
}
use stuos.Kernel.Paging.Free.{free_pages-set}

-- What `ensure` leaves: the table of the entry, and the address space as it was.
pub record IsEnsured (m : Machine) (labels : Labels) (f i l p c : ℕ) (m' : Machine)
    (labels' : Labels) : Type 0 where
  pub space : IsSpace m' labels'
  pub more : Extends labels labels'
  pub label : labels' c ≡ some (l, p * 512 + i)
  pub present : (m'.tables f i).present ≡ true
  pub points : (m'.tables f i).addr ≡ c
  pub kept :
      (g : ℕ) (x : ℕ × ℕ) → labels g ≡ some x → g ≢ f → (j : ℕ) → m'.tables g j ≡ m.tables g j
  pub same_find :
      (k g q w : ℕ)
      → labels g ≡ some (k, q)
      → w < 2 ^ 47
      → find m'.tables k g w ≡ find m.tables k g w
  pub same_root : m'.cr3 ≡ m.cr3
  pub same_mmio : m'.mmio_start ≡ m.mmio_start
  pub page_used :
      free_pages m.slab.pages m.slab.flags ≤ suc (free_pages m'.slab.pages m'.slab.flags)

module _ (m : Machine) (labels : Labels) (f i l p : ℕ) (s : IsSpace m labels)
    (parent : labels f ≡ some (suc l, p)) (slot : i < slots l)
    (absent : (m.tables f i).present ≡ false) (n : ℕ) (below : n < m.slab.pages)
    (free : m.slab.flags n ≡ false) where
  abbrev pub frame : ℕ
  frame = m.slab.base / 4096 + n

  abbrev new_tables : Tables
  new_tables =
      put_entry f i (parent_entry frame (clear_table frame m.tables f i))
        (clear_table frame m.tables)

  abbrev new_labels : Labels
  new_labels g = if g == frame then some (l, p * 512 + i) else labels g

  -- A table in use does not lie in the free page.
  fresh : (g : ℕ) (x : ℕ × ℕ) → labels g ≡ some x → g ≢ frame
  fresh g x e same =
      let (k, lt, at, used) = s.in_use g x e in
      let k-eq : k ≡ n = omega arith in
      let clash : true ≡ false = sym used ∙ ap m.slab.flags k-eq ∙ free in cc

  pub frame-small : frame % 2 ^ 40 ≡ frame
  frame-small = omega (arith, s.paged.reachable)

  new_labels-fresh : (g : ℕ) (x : ℕ × ℕ) → labels g ≡ some x → new_labels g ≡ some x
  new_labels-fresh g x e =
      let ne = fresh g x e in let test : (g == frame) ≡ false = ground arith in rw test e

  new_labels-frame : new_labels frame ≡ some (l, p * 512 + i)
  new_labels-frame = ground arith

  new_tables-parent : new_tables f i ≡ parent_entry frame (m.tables f i)
  new_tables-parent = ground arith

  new_tables-else :
      (g : ℕ) (x : ℕ × ℕ) (j : ℕ)
      → labels g ≡ some x
      → (g == f && j == i) ≡ false
      → new_tables g j ≡ m.tables g j
  new_tables-else g x j e other =
      let ne = fresh g x e in
      let test : (g == frame && ltb j 512) ≡ false = ground arith in rw (other, test)

  new_tables-frame : (j : ℕ) → j < 512 → (new_tables frame j).present ≡ false
  new_tables-frame j lt =
      let ne = fresh f (suc l, p) parent in
      let other : (frame == f && j == i) ≡ false = ground arith in
      let cleared : (frame == frame && ltb j 512) ≡ true = ground arith in rw (other, cleared)

  abbrev pub new_machine : Machine
  new_machine = record m {
    slab = with_flags m.slab (set_flag m.slab.flags n true);
    tables = new_tables;
  }

  -- The entry of a table that was there is the parent's, or as it was.
  child_old :
      (g k q j : ℕ)
      → labels g ≡ some (suc k, q)
      → j < slots k
      → (new_tables g j).present ≡ true
      → new_labels (new_tables g j).addr ≡ some (k, q * 512 + j)
  child_old g k q j e lt here = elim (Bool-cases (g == f && j == i)) [
    | inl parent_here ↦
        let same_table : g ≡ f = ground arith in
        let same_slot : j ≡ i = ground arith in
        let same : ◌≡◌ {A = Option (ℕ × ℕ)} (some (suc k, q)) (some (suc l, p)) =
          sym e ∙ ap labels same_table ∙ parent in
        let level : k ≡ l = ground arith in
        let part : q ≡ p = cc in
        let addr : (new_tables g j).addr ≡ frame = rw parent_here frame-small in
        rw (addr, same_slot, level, part) new_labels-frame
    | inr other ↦
        let kept = new_tables-else g (suc k, q) j e other in
        rw kept (
          new_labels-fresh (m.tables g j).addr (k, q * 512 + j)
            (s.child g k q j e lt (ap (λ x. x.present) (sym kept) ∙ here)))
  ]

  new_machine-IsSpace : IsSpace new_machine new_labels
  new_machine-IsSpace = record {
    paged = record { aligned = s.paged.aligned; reachable = s.paged.reachable };
    root = new_labels-fresh (m.cr3 / 4096) (3, 0) s.root;
    child = λ g k q j e lt here. elim (Bool-cases (g == frame)) [
      | inl new ↦
          let same : g ≡ frame = ground arith in
          let small : j < 512 = ground arith in
          let off : (new_tables g j).present ≡ false =
            ap (λ h. (new_tables h j).present) same ∙ new_tables-frame j small in
          absurd (clash here off)
      | inr old ↦ child_old g k q j (rw old at e) lt here
    ];
    in_use = λ g x e. elim (Bool-cases (g == frame)) [
      | inl new ↦ (n, below, ground arith, ground arith)
      | inr old ↦ let (k, lt, at, used) = s.in_use g x (rw old at e) in (k, lt, at, ground arith)
    ];
  }
    where
      clash : {b : Bool} → b ≡ true → b ≡ false → ⊥
      clash e f = cc

  -- No address is mapped or unmapped by a new table.
  new_tables-find :
      (k g q w : ℕ)
      → labels g ≡ some (k, q)
      → w < 2 ^ 47
      → find new_tables k g w ≡ find m.tables k g w
  unfolding find
  new_tables-find zero g q w e lt =
      let ne : g ≢ f = λ same. levels_differ (sym e ∙ ap labels same ∙ parent) in
      let other : (g == f && index 0 w == i) ≡ false = ground arith in
      rw (new_tables-else g (0, q) (index 0 w) e other)
    where
      levels_differ : {a b : ℕ} → ◌≡◌ {A = Option (ℕ × ℕ)} (some (0, a)) (some (suc l, b)) → ⊥
      levels_differ e = cc
  new_tables-find (suc k) g q w e lt = elim (Bool-cases (g == f && index (suc k) w == i)) [
    | inl parent_here ↦
        let same_table : g ≡ f = ground arith in
        let same_slot : index (suc k) w ≡ i = ground arith in
        let here : new_tables g (index (suc k) w) ≡ parent_entry frame (m.tables f i) =
          ap (λ h. new_tables h (index (suc k) w)) same_table
          ∙ ap (new_tables f) same_slot
          ∙ new_tables-parent in
        let old : (m.tables g (index (suc k) w)).present ≡ false =
          ap (λ h. (m.tables h (index (suc k) w)).present) same_table
          ∙ ap (λ j. (m.tables f j).present) same_slot
          ∙ absent in
        find-present new_tables k g w (ap (λ x. x.present) here)
        ∙ ap (λ c. find new_tables k c w) (ap (λ x. x.addr) here ∙ frame-small)
        ∙ find-absent new_tables k frame w (new_tables-frame (index k w) (index-small k w))
        ∙ sym (find-absent m.tables (suc k) g w old)
    | inr other ↦
        let kept = new_tables-else g (suc k, q) (index (suc k) w) e other in
        elim (Bool-cases (m.tables g (index (suc k) w)).present) [
          | inl here ↦
              let below_here = s.child g k q (index (suc k) w) e (index-lt k w lt) here in
              find-present new_tables k g w (ap (λ x. x.present) kept ∙ here)
              ∙ ap (λ c. find new_tables k c w) (ap (λ x. x.addr) kept)
              ∙ new_tables-find k (m.tables g (index (suc k) w)).addr (q * 512 + index (suc k) w) w
                  below_here lt
              ∙ sym (find-present m.tables k g w here)
          | inr gone ↦
              find-absent new_tables (suc k) g w (ap (λ x. x.present) kept ∙ gone)
              ∙ sym (find-absent m.tables (suc k) g w gone)
        ]
  ]

  pub new_machine-IsEnsured : IsEnsured m labels f i l p frame new_machine new_labels
  new_machine-IsEnsured = record {
    space = new_machine-IsSpace;
    more = new_labels-fresh;
    label = new_labels-frame;
    present = ap (λ x. x.present) new_tables-parent;
    points = ap (λ x. x.addr) new_tables-parent ∙ frame-small;
    kept = λ g x e ne j. new_tables-else g x j e (ground arith);
    same_find = new_tables-find;
    same_root = refl;
    same_mmio = refl;
    page_used = omega (arith, free_pages-set m.slab.pages n m.slab.flags below free);
  }
