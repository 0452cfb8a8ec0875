-- ===== src/Kernel/Paging.antt =====
-- The four levels of page tables, stuos/src/memory.c.
-- A table lies in a physical page and is found by the page's number, since `phys_to_hhdm` maps all
-- of physical memory one to one; `tables f i` is entry `i` of the table in page `f`.
pub mod Space
pub mod Free
pub mod Table
pub mod Setup
pub mod Leaf
pub mod Map
pub mod Unmap
mod Tests
use stuos.Prelude.{
  ℕ, zero, suc, ◌+◌, ◌*◌, ◌/◌, ◌%◌, ◌^◌, Bool, true, false, ◌==◌, ◌!=◌, ltb, ◌&&◌, not,
  if◌then◌else◌,
}
use stuos.Kernel.Outcome.{Outcome, done, halted, ◌>>=◌}
use stuos.Kernel.Slab.{Slab, page_size, malloc4k_phys, free4k_phys}

-- `struct PageTableEntry`, without the bits that this code leaves alone.
pub record Entry : Type 0 where
  pub present : Bool
  pub read_write : Bool
  pub user : Bool
  pub pwt : Bool
  pub pcd : Bool
  pub huge : Bool
  pub global : Bool
  pub addr : ℕ
  pub nx : Bool

abbrev pub Tables : Type 0
Tables = ℕ → ℕ → Entry

-- Physical memory as this file uses it: the pages in use, the page tables, the register CR3 and
-- the next address for device memory.
pub record Machine : Type 0 where
  pub slab : Slab
  pub tables : Tables
  pub cr3 : ℕ
  pub mmio_start : ℕ

-- The fields of `union PointerBitmap`.
abbrev pub page_offset : ℕ → ℕ
page_offset p = p % 4096

abbrev pub pt_index : ℕ → ℕ
pt_index p = p / 2 ^ 12 % 512

abbrev pub pd_index : ℕ → ℕ
pd_index p = p / 2 ^ 21 % 512

abbrev pub pdpt_index : ℕ → ℕ
pdpt_index p = p / 2 ^ 30 % 512

abbrev pub pml4_index : ℕ → ℕ
pml4_index p = p / 2 ^ 39 % 512

abbrev pub put_entry : ℕ → ℕ → Entry → Tables → Tables
put_entry f i e tables g j = if g == f && j == i then e else tables g j

-- What `setup_page_table_entry` makes of its parent, for a new table in page `frame`.
abbrev pub parent_entry : ℕ → Entry → Entry
parent_entry frame e = record {
  present = true;
  read_write = true;
  user = true;
  pwt = true;
  pcd = false;
  huge = false;
  global = false;
  addr = frame % 2 ^ 40;
  nx = false;
}

-- The loop that clears a new table.
abbrev pub clear_table : ℕ → Tables → Tables
clear_table frame tables g j =
    if g == frame && ltb j 512
    then record (tables g j) { present = false; addr = 0 }
    else tables g j

-- `setup_page_table_entry`, for the entry `i` of the table in page `f`.
pub setup_page_table_entry : ℕ → ℕ → Machine → Outcome Machine
setup_page_table_entry f i m =
    if (m.tables f i).present
    then halted
    else malloc4k_phys m.slab >>= λ (new_entry_phys, slab).
        let frame = new_entry_phys / page_size in
        let tables = clear_table frame m.tables in
        done (record m {
          slab = slab;
          tables = put_entry f i (parent_entry frame (tables f i)) tables;
        })

-- `if(!entry->present) setup_page_table_entry(entry);`, and the page of the table behind it.
pub ensure : ℕ → ℕ → Machine → Outcome (ℕ × Machine)
ensure f i m = (if (m.tables f i).present then done m else setup_page_table_entry f i m) >>= λ m'.
    done ((m'.tables f i).addr, m')

abbrev pub leaf_entry : ℕ → Bool → Bool → Entry
leaf_entry physical_addr can_cache can_execute = record {
  present = true;
  read_write = true;
  user = true;
  pwt = true;
  pcd = not can_cache;
  huge = false;
  global = false;
  addr = physical_addr / page_size % 2 ^ 40;
  nx = not can_execute;
}

-- The last part of `map_page`, for the entry `i` of the last table, in page `f`.
pub put_leaf : ℕ → Bool → Bool → ℕ → ℕ → Machine → Outcome Machine
put_leaf physical_addr can_cache can_execute f i m =
    if (m.tables f i).present
    then halted
    else if physical_addr % page_size != 0
    then halted
    else done (record m {
      tables = put_entry f i (leaf_entry physical_addr can_cache can_execute) m.tables;
    })

-- The first part of `map_page`: the last table for an address, made where it is missing.
pub ensure_path : Machine → ℕ → Outcome (ℕ × Machine)
ensure_path m virtual_addr =
    ensure (m.cr3 / page_size) (pml4_index virtual_addr) m >>= λ (pdpt, m₁).
    ensure pdpt (pdpt_index virtual_addr) m₁ >>= λ (pd, m₂). ensure pd (pd_index virtual_addr) m₂

pub map_page : ℕ → ℕ → Bool → Bool → Machine → Outcome Machine
map_page physical_addr virtual_addr can_cache can_execute m =
    if page_offset virtual_addr != 0
    then halted
    else ensure_path m virtual_addr >>= λ (pt, m').
        put_leaf physical_addr can_cache can_execute pt (pt_index virtual_addr) m'

pub allocate_ram_page : ℕ → Bool → Machine → Outcome Machine
allocate_ram_page virtual_addr can_execute m = do
  (new_page_phys, slab) ← malloc4k_phys m.slab
  map_page new_page_phys virtual_addr true can_execute (record m { slab = slab })

-- The table behind an entry of `deallocate_page`, which must be there.
pub present_child : ℕ → ℕ → Machine → Outcome ℕ
present_child f i m = if not (m.tables f i).present then halted else done (m.tables f i).addr

-- The last part of `deallocate_page`.
pub remove_leaf : ℕ → ℕ → Machine → Outcome Machine
remove_leaf f i m =
    if not (m.tables f i).present
    then halted
    else free4k_phys ((m.tables f i).addr * page_size) m.slab >>= λ slab. done (record m {
      slab = slab;
      tables = put_entry f i (record (m.tables f i) { present = false }) m.tables;
    })

pub deallocate_page : ℕ → Machine → Outcome Machine
deallocate_page virtual_addr m =
    if page_offset virtual_addr != 0
    then halted
    else present_child (m.cr3 / page_size) (pml4_index virtual_addr) m >>= λ pdpt.
        present_child pdpt (pdpt_index virtual_addr) m >>= λ pd.
        present_child pd (pd_index virtual_addr) m >>= λ pt.
        remove_leaf pt (pt_index virtual_addr) m

-- The loop of `setup_mmio` at the physical address `i`, with `left` pages to go.
pub mmio_loop : (left i : ℕ) → Machine → Outcome Machine
mmio_loop zero i m = done m
mmio_loop (suc left) i m = map_page i m.mmio_start false false m >>= λ m'.
    mmio_loop left (i + page_size) (record m' { mmio_start = m'.mmio_start + page_size })

-- `setup_mmio`, where the range does not reach the end of the address space.
pub setup_mmio : ℕ → ℕ → Machine → Outcome (ℕ × Machine)
setup_mmio phys_addr size m =
    if phys_addr % page_size != 0
    then halted
    else if m.mmio_start % page_size != 0
    then halted
    else do m' ← mmio_loop ((size + 4095) / page_size) phys_addr m; done (m.mmio_start, m')
