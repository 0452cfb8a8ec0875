-- ===== src/Kernel/Paging/Setup.antt =====
-- A table for an entry, found or made, on a tree of page tables.
use stuos.Prelude.{
  ℕ, suc, ◌+◌, ◌*◌, ◌/◌, ◌%◌, ◌^◌, ◌<◌, ◌≡◌, refl, true, false, some, arith, ◌∙◌, ap, Bool-cases,
  inl, inr,
}
use stuos.Kernel.Outcome.{done}
use stuos.Kernel.Slab.{Slab, page_size, malloc4k_phys}
use stuos.Kernel.Paging.{
  Machine, put_entry, parent_entry, clear_table, setup_page_table_entry, ensure,
}
use stuos.Kernel.Paging.Space.{Labels, slots, free_pages, IsSpace}
use stuos.Kernel.Paging.Free.{malloc4k_phys-IsTakenPage}
use stuos.Kernel.Paging.Table.{IsEnsured, frame-small, new_machine, new_machine-IsEnsured}

-- An entry whose table is there is left alone.
present-IsEnsured :
    (m : Machine) (labels : Labels) (f i l p : ℕ)
    → IsSpace m labels
    → labels f ≡ some (suc l, p)
    → i < slots l
    → (m.tables f i).present ≡ true
    → IsEnsured m labels f i l p (m.tables f i).addr m labels
present-IsEnsured m labels f i l p s parent slot here = record {
  space = s;
  more = λ g x e. e;
  label = s.child f l p i parent slot here;
  present = here;
  points = refl;
  kept = λ g x e ne j. refl;
  same_find = λ k g q w e lt. refl;
  same_root = refl;
  same_mmio = refl;
  page_used = omega arith;
}

setup_done :
    (m : Machine) (f i n : ℕ) (slab : Slab)
    → (m.tables f i).present ≡ false
    → m.slab.base % 4096 ≡ 0
    → malloc4k_phys m.slab ≡ done (m.slab.base + n * page_size, slab)
    → let frame = m.slab.base / 4096 + n in
      ensure f i m
      ≡ done (
        frame % 2 ^ 40,
        record m {
          slab = slab;
          tables =
              put_entry f i
                (parent_entry frame (clear_table frame m.tables f i))
                (clear_table frame m.tables);
        },
      )
unfolding ensure setup_page_table_entry
setup_done m f i n slab absent aligned takes =
    let at : (m.slab.base + n * page_size) / page_size ≡ m.slab.base / 4096 + n = omega arith in
    simp (absent, takes, at) (ground arith)

-- `ensure` finds the table of an entry or makes one in a free page, if there is one.
pub ensure-IsEnsured :
    (m : Machine) (labels : Labels) (f i l p : ℕ)
    → IsSpace m labels
    → labels f ≡ some (suc l, p)
    → i < slots l
    → 0 < free_pages m.slab.pages m.slab.flags
    → (c : ℕ) × (m' : Machine) × (labels' : Labels) × (ensure f i m ≡ done (c, m'))
      × IsEnsured m labels f i l p c m' labels'
unfolding ensure
ensure-IsEnsured m labels f i l p s parent slot some_free =
    elim (Bool-cases (m.tables f i).present) [
      | inl here ↦ (
        (m.tables f i).addr,
        m,
        labels,
        simp here,
        present-IsEnsured m labels f i l p s parent slot here,
      )
      | inr absent ↦
          let (n, t) = malloc4k_phys-IsTakenPage m.slab s.paged some_free in
          (
            _,
            _,
            _,
            setup_done m f i n _ absent s.paged.aligned t.taken
                ∙ ap
                    (λ c.
                      done (c, new_machine m labels f i l p s parent slot absent n t.below t.free))
                    (frame-small m labels f i l p s parent slot absent n t.below t.free),
            new_machine-IsEnsured m labels f i l p s parent slot absent n t.below t.free,
          )
    ]
