-- ===== src/Kernel/Paging/Map.antt =====
-- `map_page`, stuos/src/memory.c, on a tree of page tables.
use stuos.Prelude.{
  ℕ, suc, ◌+◌, ◌*◌, ◌/◌, ◌%◌, ◌^◌, ◌≤◌, ◌<◌, ◌≡◌, refl, ◌≢◌, Bool, true, false, not, Option, none,
  some, arith, ◌∙◌, sym, ap, Bool-cases, inl, inr,
}
use stuos.Kernel.Outcome.{done}
use stuos.Kernel.Paging.{
  Entry, Tables, Machine, put_entry, leaf_entry, put_leaf, ensure_path, map_page,
}
use stuos.Kernel.Paging.Space.{
  find, translate, index, index-lt, find-present, find-page, Labels, free_pages, IsSpace, Extends,
}
use stuos.Kernel.Paging.Table.{IsEnsured}
use stuos.Kernel.Paging.Setup.{ensure-IsEnsured}
use stuos.Kernel.Paging.Leaf.{
  labels-differ, put_entry-find, target-other, put_entry-child, put_entry-IsSpace,
}

-- The way to a page: the tables that lead to the last table `c` for `v`, in the machine `m`.
pub record IsReached (m : Machine) (labels : Labels) (v c : ℕ) : Type 0 where
  pub space : IsSpace m labels
  pub last : labels c ≡ some (0, ((0 * 512 + index 3 v) * 512 + index 2 v) * 512 + index 1 v)
  pub path :
      (tables : Tables)
      → ((g l q j : ℕ) → labels g ≡ some (suc l, q) → tables g j ≡ m.tables g j)
      → find tables 3 (m.cr3 / 4096) v ≡ find tables 0 c v

-- What `map_page` has done before its last part.
record IsPrepared (m : Machine) (labels : Labels) (v c : ℕ) (m' : Machine) (labels' : Labels)
    : Type 0 where
  reached : IsReached m' labels' v c
  more : Extends labels labels'
  same : (w : ℕ) → w < 2 ^ 47 → translate m' w ≡ translate m w
  same_root : m'.cr3 ≡ m.cr3

three_levels :
    (m : Machine) (labels : Labels) (v c₁ c₂ c₃ : ℕ) (m₁ m₂ m₃ : Machine) (l₁ l₂ l₃ : Labels)
    → IsSpace m labels
    → IsEnsured m labels (m.cr3 / 4096) (index 3 v) 2 0 c₁ m₁ l₁
    → IsEnsured m₁ l₁ c₁ (index 2 v) 1 (0 * 512 + index 3 v) c₂ m₂ l₂
    → IsEnsured m₂ l₂ c₂ (index 1 v) 0 ((0 * 512 + index 3 v) * 512 + index 2 v) c₃ m₃ l₃
    → IsPrepared m labels v c₃ m₃ l₃
three_levels m labels v c₁ c₂ c₃ m₁ m₂ m₃ l₁ l₂ l₃ s a b c =
    let root₁ = a.more (m.cr3 / 4096) (3, 0) s.root in
    let root₂ = b.more (m.cr3 / 4096) (3, 0) root₁ in
    let one₂ = b.more c₁ (2, 0 * 512 + index 3 v) a.label in
    let root-one =
      labels-differ l₁ (m.cr3 / 4096) c₁ 3 2 0 (0 * 512 + index 3 v) root₁ a.label
        (λ e. absurd (omega (arith, e))) in
    let root-two =
      labels-differ l₂ (m.cr3 / 4096) c₂ 3 1 0 _ root₂ b.label (λ e. absurd (omega (arith, e))) in
    let one-two = labels-differ l₂ c₁ c₂ 2 1 _ _ one₂ b.label (λ e. absurd (omega (arith, e))) in
    let root₃ = c.more (m.cr3 / 4096) (3, 0) root₂ in
    let one₃ = c.more c₁ (2, 0 * 512 + index 3 v) one₂ in
    let two₃ = c.more c₂ _ b.label in
    let at_root =
      c.kept (m.cr3 / 4096) (3, 0) root₂ root-two (index 3 v)
      ∙ b.kept (m.cr3 / 4096) (3, 0) root₁ root-one (index 3 v) in
    let at_one = c.kept c₁ _ one₂ one-two (index 2 v) in
    let cr3 : m₃.cr3 ≡ m.cr3 = c.same_root ∙ b.same_root ∙ a.same_root in
    record {
      reached = record {
        space = c.space;
        last = c.label;
        path = λ tables agree.
            let top = agree (m.cr3 / 4096) 2 0 (index 3 v) root₃ ∙ at_root in
            let one = agree c₁ 1 _ (index 2 v) one₃ ∙ at_one in
            let two = agree c₂ 0 _ (index 1 v) two₃ in
            ap (λ r. find tables 3 (r / 4096) v) cr3
            ∙ step tables 2 (m.cr3 / 4096) c₁ (ap (λ x. x.present) top ∙ a.present)
                (ap (λ x. x.addr) top ∙ a.points)
            ∙ step tables 1 c₁ c₂ (ap (λ x. x.present) one ∙ b.present)
                (ap (λ x. x.addr) one ∙ b.points)
            ∙ step tables 0 c₂ c₃ (ap (λ x. x.present) two ∙ c.present)
                (ap (λ x. x.addr) two ∙ c.points);
      };
      more = λ g x e. c.more g x (b.more g x (a.more g x e));
      same = λ w lt.
          ap (λ r. find m₃.tables 3 (r / 4096) w) cr3
          ∙ c.same_find 3 (m.cr3 / 4096) 0 w root₂ lt
          ∙ b.same_find 3 (m.cr3 / 4096) 0 w root₁ lt
          ∙ a.same_find 3 (m.cr3 / 4096) 0 w s.root lt;
      same_root = cr3;
    }
  where
    step :
        (tables : Tables) (l f c : ℕ)
        → (tables f (index (suc l) v)).present ≡ true
        → (tables f (index (suc l) v)).addr ≡ c
        → find tables (suc l) f v ≡ find tables l c v
    step tables l f c here at = find-present tables l f v here ∙ ap (λ x. find tables l x v) at

-- A page that `find` does not give in the last table is not there.
pub find-none :
    (tables : Tables) (f v : ℕ) → find tables 0 f v ≡ none → (tables f (index 0 v)).present ≡ false
find-none tables f v e = elim (Bool-cases (tables f (index 0 v)).present) [
  | inl here ↦ absurd (clash (sym (find-page tables f v here) ∙ e))
  | inr gone ↦ gone
]
  where
    clash : {x : Entry} → ◌≡◌ {A = Option Entry} (some x) none → ⊥
    clash e = cc

put_leaf-done :
    (phys : ℕ) (can_cache can_execute : Bool) (f i : ℕ) (m : Machine)
    → phys % 4096 ≡ 0
    → (m.tables f i).present ≡ false
    → put_leaf phys can_cache can_execute f i m
      ≡ done (record m { tables = put_entry f i (leaf_entry phys can_cache can_execute) m.tables })
unfolding put_leaf
put_leaf-done phys can_cache can_execute f i m aligned free = simp free (ground arith)

prepare :
    (m : Machine) (labels : Labels) (v : ℕ)
    → IsSpace m labels
    → v < 2 ^ 47
    → 3 ≤ free_pages m.slab.pages m.slab.flags
    → (c : ℕ) × (m' : Machine) × (labels' : Labels) × (ensure_path m v ≡ done (c, m'))
      × IsPrepared m labels v c m' labels'
unfolding ensure_path
prepare m labels v s lt room =
    let (c₁, m₁, l₁, e₁, a) =
      ensure-IsEnsured m labels (m.cr3 / 4096) (index 3 v) 2 0 s s.root (index-lt 2 v lt)
        (omega (arith, room)) in
    let (c₂, m₂, l₂, e₂, b) =
      ensure-IsEnsured m₁ l₁ c₁ (index 2 v) 1 _ a.space a.label (index-lt 1 v lt)
        (omega (arith, room, a.page_used)) in
    let (c₃, m₃, l₃, e₃, c) =
      ensure-IsEnsured m₂ l₂ c₂ (index 1 v) 0 _ b.space b.label (index-lt 0 v lt)
        (omega (arith, room, a.page_used, b.page_used)) in
    (c₃, m₃, l₃, simp (e₁, e₂, e₃), three_levels m labels v c₁ c₂ c₃ m₁ m₂ m₃ l₁ l₂ l₃ s a b c)

-- The entry of a page at `phys`: present, open to programs and to writes, written through the
-- cache, not a huge page, cached and executed only as asked.
abbrev pub page_entry : ℕ → Bool → Bool → Entry
page_entry phys can_cache can_execute = record {
  present = true;
  read_write = true;
  user = true;
  pwt = true;
  pcd = not can_cache;
  huge = false;
  global = false;
  addr = phys / 4096 % 2 ^ 40;
  nx = not can_execute;
}

-- Where the free pages last for three tables, `map_page` maps a free page of the lower half, as
-- the caller asks, and every other page of the lower half is translated as before. The page tables
-- are a tree again.
pub map_page-translate :
    (m : Machine) (labels : Labels) (phys v : ℕ) (can_cache can_execute : Bool)
    → IsSpace m labels
    → phys % 4096 ≡ 0
    → v % 4096 ≡ 0
    → v < 2 ^ 47
    → 3 ≤ free_pages m.slab.pages m.slab.flags
    → translate m v ≡ none
    → (m' : Machine) × (labels' : Labels) × (map_page phys v can_cache can_execute m ≡ done m')
      × IsSpace m' labels'
      × (translate m' v ≡ some (page_entry phys can_cache can_execute))
      × ((w : ℕ) → w < 2 ^ 47 → w / 4096 ≢ v / 4096 → translate m' w ≡ translate m w)
unfolding map_page
map_page-translate m labels phys v can_cache can_execute s aligned start lt room free =
    let (c, m₃, l₃, e, p) = prepare m labels v s lt room in
    let r = p.reached in
    let leaf = leaf_entry phys can_cache can_execute in
    let absent =
      find-none m₃.tables c v (sym (r.path m₃.tables (λ g l q j at. refl)) ∙ p.same v lt ∙ free) in
    let here : put_entry c (index 0 v) leaf m₃.tables c (index 0 v) ≡ leaf = ground arith in
    (
      record m₃ { tables = put_entry c (index 0 v) leaf m₃.tables },
      l₃,
      simp (start, e) (put_leaf-done phys can_cache can_execute c (index 0 v) m₃ aligned absent),
      put_entry-IsSpace m₃ l₃ c _ (index 0 v) leaf r.space r.last,
      r.path (put_entry c (index 0 v) leaf m₃.tables)
            (λ g l q j at. put_entry-child m₃ l₃ c _ (index 0 v) leaf g l q j r.last at)
          ∙ find-page (put_entry c (index 0 v) leaf m₃.tables) c v (ap (λ x. x.present) here)
          ∙ ap some here,
      λ w lt-w ne.
          put_entry-find m₃ l₃ c _ (index 0 v) leaf r.space r.last 3 (m₃.cr3 / 4096) 0 w
            r.space.root lt-w (target-other v w lt lt-w ne)
          ∙ p.same w lt-w,
    )
