-- ===== src/Kernel/Ring/Reader.antt =====
-- `create_ring` and `enqueue_ring` on a ring that the controller reads.
use stuos.Prelude.{
  ℕ, suc, ◌+◌, ◌-◌, ◌<◌, ◌≡◌, refl, ◌≢◌, true, false, ◌==◌, not, arith, ◌∙◌, sym, ap, Bool-cases,
  inl, inr, subst,
}
use stuos.Kernel.Outcome.{Outcome, done, halted, ◌>>=◌}
use stuos.Kernel.Slab.{Slab, malloc4k_phys}
use stuos.Kernel.Ring.{
  Trb, Ring, create_ring, enqueue_ring, wrap, put_trb, stamp, link_trb, blank, trb_type_link,
}
use stuos.Kernel.Ring.Filled.{slot, lap, IsFilled, extend, IsFilled-next, IsFilled-outside}
use stuos.Kernel.Ring.Shared.{
  Reader, IsShared, slot_apart, slot_around, slot_first, slot_small, slot_next, slot_wrap, start,
}

abbrev new_ring : ℕ → Ring
new_ring trb_phys = record {
  count = 256;
  idx = 0;
  trbs_phys = trb_phys;
  allocated = true;
  trbs = put_trb 255 (link_trb trb_phys) (λ i. blank);
  ring_cycle_state = true;
}

new_ring-IsShared : (p : ℕ) (h : ℕ → Trb) → IsShared (new_ring p) start h 0 0 0
new_ring-IsShared p h = record {
  total = refl;
  filled = record {
    written = λ a lt le. absurd (omega (arith, lt));
    fresh = λ a le lt. let other : (slot 255 a == 255) ≡ false = ground arith in rw other refl;
  };
  idx = refl;
  state = refl;
  count = refl;
  allocated = refl;
  place = refl;
  cycle = refl;
  room = omega arith;
  link = refl;
  no_link = λ b lt. absurd (omega (arith, lt));
}

-- `create_ring` leaves a ring with nothing to read.
pub create_ring-IsShared :
    (s s' : Slab) (r : Ring) (h : ℕ → Trb) → create_ring s ≡ done (r, s') → IsShared r start h 0 0 0
unfolding create_ring
create_ring-IsShared s s' r h = go (malloc4k_phys s)
  where
    go :
        (o : Outcome (ℕ × Slab))
        → ◌≡◌ {A = Outcome (Ring × Slab)}
            (o >>= λ (trb_phys, after). done (new_ring trb_phys, after))
            (done (r, s'))
        → IsShared r start h 0 0 0
    go halted e = absurd (absurd_halt e)
      where
        absurd_halt : {x : Ring × Slab} → ◌≡◌ {A = Outcome (Ring × Slab)} halted (done x) → ⊥
        absurd_halt e = cc
    go (done (trb_phys, after)) e =
        let same : new_ring trb_phys ≡ r = ap (λ o. ring o) e in
        subst (λ x. IsShared x start h 0 0 0) same (new_ring-IsShared trb_phys h)
      where
        ring : Outcome (Ring × Slab) → Ring
        ring halted = r
        ring (done (x, y)) = x

-- The ring after `enqueue_ring`, before the wrap.
abbrev written : Ring → Trb → Ring
written r t = record r { trbs = put_trb r.idx (stamp r.ring_cycle_state t) r.trbs; idx = r.idx + 1 }

enqueue_near :
    (r : Ring) (t : Trb)
    → r.allocated ≡ true
    → (r.idx + 1 == r.count - 1) ≡ false
    → enqueue_ring r t ≡ done (written r t)
unfolding enqueue_ring
enqueue_near r t there far = simp (there, far)

enqueue_wrap :
    (r : Ring) (t : Trb)
    → r.allocated ≡ true
    → (r.idx + 1 == r.count - 1) ≡ true
    → enqueue_ring r t ≡ done (wrap (written r t))
unfolding enqueue_ring
enqueue_wrap r t there last = simp (there, last)

extend-no_link :
    (h : ℕ → Trb) (n : ℕ) (t : Trb)
    → t.trb_type ≢ trb_type_link
    → ((b : ℕ) → b < n → (h b).trb_type ≢ trb_type_link)
    → (b : ℕ) → b < n + 1
    → (extend h n t b).trb_type ≢ trb_type_link
extend-no_link h n t ne old b lt = elim (Bool-cases (b == n)) [
  | inl same ↦ λ e. ne (sym (rw same refl) ∙ e)
  | inr other ↦ λ e. old b (ground arith) (sym (rw other refl) ∙ e)
]

module _ (r : Ring) (rd : Reader) (h : ℕ → Trb) (a k n : ℕ) (s : IsShared r rd h a k n)
    (t : Trb) where
  written-IsFilled : IsFilled 255 (written r t).trbs (extend h n t) (n + 1)
  written-IsFilled =
      rw (s.idx, s.state)
        (IsFilled-next 255 (omega arith) slot_apart slot_around slot_first r.trbs h n s.filled t)

  -- A block that is no link itself is put in the ring, if there is room.
  pub enqueue_ring-IsShared :
      k < 254
      → t.trb_type ≢ trb_type_link
      → (r' : Ring) × (enqueue_ring r t ≡ done r') × IsShared r' rd (extend h n t) a (suc k) (n + 1)
  enqueue_ring-IsShared room no_link = elim (Bool-cases (slot 255 n + 1 == 255)) [
    | inr near ↦
        let (next, same) = slot_next n (ground arith) in
        let other : (255 == slot 255 n) ≡ false = ground arith in
        (
          written r t,
          enqueue_near r t s.allocated (rw (s.idx, s.count) near),
          record {
            total = omega (arith, s.total);
            filled = written-IsFilled;
            idx = ap (λ x. x + 1) s.idx ∙ sym next;
            state = s.state ∙ sym same;
            count = s.count;
            allocated = s.allocated;
            place = s.place;
            cycle = s.cycle;
            room = omega (arith, room);
            link = rw (s.idx, other, same) s.link;
            no_link = extend-no_link h n t no_link s.no_link;
          },
        )
    | inl last ↦
        let (next, flipped) = slot_wrap n (ground arith) in
        let at : r.idx + 1 ≡ 255 = ap (λ x. x + 1) s.idx ∙ ground arith in
        let here : (255 == r.idx + 1) ≡ true = ground arith in
        let other : (r.idx + 1 == r.idx) ≡ false = ground arith in
        let old : put_trb r.idx (stamp r.ring_cycle_state t) r.trbs (r.idx + 1)
            ≡ stamp (not (lap 255 n)) (link_trb r.trbs_phys) =
          rw other (ap r.trbs at ∙ s.link) in
        (
          wrap (written r t),
          enqueue_wrap r t s.allocated (rw (s.idx, s.count) last),
          record {
            total = omega (arith, s.total);
            filled =
                IsFilled-outside 255 (written r t).trbs (extend h n t) (n + 1) (r.idx + 1) _
                  slot_small (omega (arith, at)) written-IsFilled;
            idx = sym next;
            state = ap not s.state ∙ sym flipped;
            count = s.count;
            allocated = s.allocated;
            place = s.place;
            cycle = s.cycle;
            room = omega (arith, room);
            link = rw here (
                ap (λ x. stamp (not x.cycle_bit) x) old
                ∙ ap (λ b. stamp (not b) (link_trb r.trbs_phys)) (sym flipped));
            no_link = extend-no_link h n t no_link s.no_link;
          },
        )
  ]
