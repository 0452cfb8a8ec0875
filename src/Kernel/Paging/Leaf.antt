-- ===== src/Kernel/Paging/Leaf.antt =====
-- A change of one entry of a last table.
use stuos.Prelude.{
  ℕ, zero, suc, ◌+◌, ◌*◌, ◌/◌, ◌%◌, ◌^◌, ◌<◌, ◌≡◌, ◌≢◌, false, ◌==◌, ◌&&◌, Option, some, arith, ◌∙◌,
  sym, ap, Bool-cases, inl, inr,
}
use stuos.Kernel.Paging.{Entry, Machine, put_entry}
use stuos.Kernel.Paging.Space.{
  find, target, target-root, index, index-lt, find-absent, find-present, Labels, IsSpace,
}

-- Tables of different levels are different tables.
pub labels-differ :
    (labels : Labels) (f g k l p q : ℕ)
    → labels f ≡ some (k, p)
    → labels g ≡ some (l, q)
    → k ≢ l
    → f ≢ g
labels-differ labels f g k l p q e d ne same = ne (first (sym e ∙ ap labels same ∙ d))
  where
    first : {a b : ℕ} → ◌≡◌ {A = Option (ℕ × ℕ)} (some (k, a)) (some (l, b)) → k ≡ l
    first e = ground arith

-- An entry of a last table changes nothing for the other addresses.
pub put_entry-find :
    (m : Machine) (labels : Labels) (f p i : ℕ) (e : Entry)
    → IsSpace m labels
    → labels f ≡ some (0, p)
    → (k g q w : ℕ) → labels g ≡ some (k, q)
    → w < 2 ^ 47
    → target k q w ≢ p * 512 + i
    → find (put_entry f i e m.tables) k g w ≡ find m.tables k g w
unfolding find
put_entry-find m labels f p i e s last zero g q w at lt ne =
    let other : (g == f && index 0 w == i) ≡ false = elim (Bool-cases (g == f && index 0 w == i)) [
      | inl same ↦
          let table : g ≡ f = ground arith in
          let slot : index 0 w ≡ i = ground arith in
          let part : q ≡ p = second (sym at ∙ ap labels table ∙ last) in
          absurd (ne (rw (part, slot)))
      | inr other ↦ other
    ] in
    rw other
  where
    second : {a b : ℕ} → ◌≡◌ {A = Option (ℕ × ℕ)} (some (0, a)) (some (0, b)) → a ≡ b
    second e = ground arith
put_entry-find m labels f p i e s last (suc k) g q w at lt ne =
    let apart = labels-differ labels g f (suc k) 0 q p at last (λ e. absurd (omega (arith, e))) in
    let other : (g == f && index (suc k) w == i) ≡ false = ground arith in
    elim (Bool-cases (m.tables g (index (suc k) w)).present) [
      | inl here ↦
          find-present (put_entry f i e m.tables) k g w (rw other here)
          ∙ ap (λ x. find (put_entry f i e m.tables) k x.addr w) (entry other)
          ∙ put_entry-find m labels f p i e s last k (m.tables g (index (suc k) w)).addr
              (q * 512 + index (suc k) w) w
              (s.child g k q (index (suc k) w) at (index-lt k w lt) here) lt ne
          ∙ sym (find-present m.tables k g w here)
      | inr gone ↦
          find-absent (put_entry f i e m.tables) (suc k) g w (rw other gone)
          ∙ sym (find-absent m.tables (suc k) g w gone)
    ]
  where
    entry :
        (g == f && index (suc k) w == i) ≡ false
        → put_entry f i e m.tables g (index (suc k) w) ≡ m.tables g (index (suc k) w)
    entry other = rw other

-- The other pages are those with another number.
pub target-other :
    (v w : ℕ) → v < 2 ^ 47 → w < 2 ^ 47 → w / 4096 ≢ v / 4096 → target 3 0 w ≢ target 3 0 v
target-other v w lt-v lt-w ne same =
    let e : w / 4096 % 2 ^ 36 ≡ v / 4096 % 2 ^ 36 = sym (target-root w) ∙ same ∙ target-root v in
    ne (omega arith)

-- The tables stay a tree when an entry of a last table changes.
pub put_entry-child :
    (m : Machine) (labels : Labels) (f p i : ℕ) (e : Entry) (g l q j : ℕ)
    → labels f ≡ some (0, p)
    → labels g ≡ some (suc l, q)
    → put_entry f i e m.tables g j ≡ m.tables g j
put_entry-child m labels f p i e g l q j last at =
    let apart = labels-differ labels g f (suc l) 0 q p at last (λ e. absurd (omega (arith, e))) in
    let other : (g == f && j == i) ≡ false = ground arith in rw other

pub put_entry-IsSpace :
    (m : Machine) (labels : Labels) (f p i : ℕ) (e : Entry)
    → IsSpace m labels
    → labels f ≡ some (0, p)
    → IsSpace (record m { tables = put_entry f i e m.tables }) labels
put_entry-IsSpace m labels f p i e s last = record {
  paged = s.paged;
  root = s.root;
  child = λ g l q j at lt here.
      let same = put_entry-child m labels f p i e g l q j last at in
      rw same (s.child g l q j at lt (ap (λ x. x.present) (sym same) ∙ here));
  in_use = s.in_use;
}
