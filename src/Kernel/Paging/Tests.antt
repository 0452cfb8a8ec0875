-- ===== src/Kernel/Paging/Tests.antt =====
-- Runs of the page table code on a small tree, and its theorems there.
use stuos.Prelude.{
  ℕ, ◌+◌, ◌-◌, ◌≤◌, ◌/◌, ◌^◌, ◌<◌, ◌≡◌, refl, ◌≢◌, Bool, true, false, ◌==◌, leb, ◌&&◌,
  if◌then◌else◌, none, some, arith,
}
use stuos.Kernel.Outcome.{done}
use stuos.Kernel.Slab.{Slab, with_flags, set_flag}
use stuos.Kernel.Paging.{Entry, Machine, map_page, deallocate_page}
use stuos.Kernel.Paging.Space.{find, translate, Labels, IsSpace}
use stuos.Kernel.Paging.Map.{page_entry, map_page-translate}
use stuos.Kernel.Paging.Unmap.{deallocate_page-translate}

-- Sixteen pages from 0x100000, of which the first five are in use: a table of each level, and a
-- page that is mapped at 0.
abbrev slab : Slab
slab = record { base = 0x100000; pages = 16; flags = λ n. leb n 4 }

abbrev pointer : ℕ → Bool → Entry
pointer page there = record {
  present = there;
  read_write = true;
  user = true;
  pwt = true;
  pcd = false;
  huge = false;
  global = false;
  addr = page;
  nx = false;
}

abbrev machine : Machine
machine = record {
  slab = slab;
  tables = λ f i. pointer (f + 1) (i == 0 && leb 0x100 f && leb f 0x103);
  cr3 = 0x100000;
  mmio_start = 0;
}

abbrev labels : Labels
labels f =
    if f == 0x100
    then some (3, 0)
    else if f == 0x101
    then some (2, 0)
    else if f == 0x102
    then some (1, 0)
    else if f == 0x103
    then some (0, 0)
    else none

machine-IsSpace : IsSpace machine labels
machine-IsSpace = record {
  paged = record { aligned = refl; reachable = omega arith };
  root = refl;
  child = λ f l p i e lt here. ground arith;
  in_use = λ f x e.
      let r : (0x100 ≤ f) × (f < 0x105) = ground arith in
      (f - 0x100, omega (arith, r), omega (arith, r), ground arith);
}

map_page-translate_example :
    (m' : Machine) × (labels' : Labels) × (map_page 0x7000 0x40000000 true false machine ≡ done m')
    × IsSpace m' labels'
    × (translate m' 0x40000000 ≡ some (page_entry 0x7000 true false))
    × ((w : ℕ) → w < 2 ^ 47 → w / 4096 ≢ 0x40000000 / 4096 → translate m' w ≡ translate machine w)
unfolding find
map_page-translate_example =
    map_page-translate machine labels 0x7000 0x40000000 true false machine-IsSpace refl refl
      (omega arith) (omega arith) refl

deallocate_page-translate_example :
    (m' : Machine) × (deallocate_page 0 machine ≡ done m')
    × (m'.slab ≡ with_flags slab (set_flag slab.flags 4 false))
    × IsSpace m' labels
    × (translate m' 0 ≡ none)
    × ((w : ℕ) → w < 2 ^ 47 → w / 4096 ≢ 0 / 4096 → translate m' w ≡ translate machine w)
unfolding find
deallocate_page-translate_example =
    deallocate_page-translate machine labels 0 4 (pointer 0x104 true) machine-IsSpace refl
      (omega arith) refl (omega arith) refl refl
