-- ===== src/Kernel/Paging/Space.antt =====
-- The address space that the page tables stand for, and when they are a tree.
use stuos.Prelude.{
  ℕ, zero, suc, ◌+◌, ◌*◌, ◌/◌, ◌%◌, ◌^◌, ◌≤◌, ◌<◌, ◌≡◌, true, false, ◌==◌, if◌then◌else◌, Option,
  none, some, arith,
}
use stuos.Kernel.Slab.{Slab, Flags}
use stuos.Kernel.Paging.{Entry, Tables, Machine}

-- The index into a table of level `l`; the tables of level 0 hold the pages.
abbrev pub index : ℕ → ℕ → ℕ
index zero v = v / 2 ^ 12 % 512
index (suc zero) v = v / 2 ^ 21 % 512
index (suc (suc zero)) v = v / 2 ^ 30 % 512
index (suc (suc (suc l))) v = v / 2 ^ 39 % 512

-- What the tables give an address, from the table of level `l` in page `f` on.
unfoldable pub find : Tables → ℕ → ℕ → ℕ → Option Entry
find tables zero f v = if (tables f (index 0 v)).present then some (tables f (index 0 v)) else none
find tables (suc l) f v =
    let rest = find tables l (tables f (index (suc l) v)).addr v in
    if (tables f (index (suc l) v)).present then rest else none

abbrev pub translate : Machine → ℕ → Option Entry
translate m v = find m.tables 3 (m.cr3 / 4096) v

-- The number of the page that an address has below a table that covers the part `p`.
abbrev pub target : ℕ → ℕ → ℕ → ℕ
target zero p v = p * 512 + index 0 v
target (suc l) p v = target l (p * 512 + index (suc l) v) v

-- The level of each page table in use and the part of the addresses that it covers.
abbrev pub Labels : Type 0
Labels = ℕ → Option (ℕ × ℕ)

-- How many entries of a table count, by the level of the tables below it: the first half of the
-- top table belongs to programs.
abbrev pub slots : ℕ → ℕ
slots l = if l == 2 then 256 else 512

-- Pages that are free among the first `n`.
abbrev pub free_pages : ℕ → Flags → ℕ
free_pages zero flags = 0
free_pages (suc n) flags = (if flags n then 0 else 1) + free_pages n flags

-- The pages lie where 52 bits reach, on page boundaries.
pub record IsPaged (s : Slab) : Type 0 where
  pub aligned : s.base % 4096 ≡ 0
  pub reachable : s.base + s.pages * 4096 ≤ 2 ^ 52

-- The program's tables are a tree: each has one level and covers one part, that of its place
-- below the root, and lies in a page that is in use.
pub record IsSpace (m : Machine) (labels : Labels) : Type 0 where
  pub paged : IsPaged m.slab
  pub root : labels (m.cr3 / 4096) ≡ some (3, 0)
  pub child :
      (f l p i : ℕ)
      → labels f ≡ some (suc l, p)
      → i < slots l
      → (m.tables f i).present ≡ true
      → labels (m.tables f i).addr ≡ some (l, p * 512 + i)
  pub in_use :
      (f : ℕ) (x : ℕ × ℕ)
      → labels f ≡ some x
      → (n : ℕ) × (n < m.slab.pages) × (f ≡ m.slab.base / 4096 + n) × (m.slab.flags n ≡ true)

-- More tables, with the old ones where they were.
abbrev pub Extends : Labels → Labels → Type 0
Extends old new = (f : ℕ) (x : ℕ × ℕ) → old f ≡ some x → new f ≡ some x

pub index-lt : (l v : ℕ) → v < 2 ^ 47 → index (suc l) v < slots l
index-lt zero v lt = omega arith
index-lt (suc zero) v lt = omega arith
index-lt (suc (suc zero)) v lt = omega arith
index-lt (suc (suc (suc l))) v lt = ground arith

-- The page number of an address is its target from the root.
pub target-root : (v : ℕ) → target 3 0 v ≡ v / 4096 % 2 ^ 36
target-root v = omega arith

pub index-small : (l v : ℕ) → index l v < 512
index-small zero v = omega arith
index-small (suc zero) v = omega arith
index-small (suc (suc zero)) v = omega arith
index-small (suc (suc (suc l))) v = omega arith

-- The entry that an address has in a table decides.
pub find-absent :
    (tables : Tables) (l f v : ℕ)
    → (tables f (index l v)).present ≡ false
    → find tables l f v ≡ none
unfolding find
find-absent tables zero f v e = rw e
find-absent tables (suc l) f v e = rw e

pub find-present :
    (tables : Tables) (l f v : ℕ)
    → (tables f (index (suc l) v)).present ≡ true
    → find tables (suc l) f v ≡ find tables l (tables f (index (suc l) v)).addr v
unfolding find
find-present tables l f v e = rw e

pub find-page :
    (tables : Tables) (f v : ℕ)
    → (tables f (index 0 v)).present ≡ true
    → find tables 0 f v ≡ some (tables f (index 0 v))
unfolding find
find-page tables f v e = rw e
