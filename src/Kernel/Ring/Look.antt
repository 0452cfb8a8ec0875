-- ===== src/Kernel/Ring/Look.antt =====
-- What the controller finds in a ring that the kernel fills.
use stuos.Prelude.{
  ℕ, zero, suc, ◌+◌, ◌-◌, ◌/◌, ◌%◌, ◌<◌, ◌≡◌, refl, ◌≢◌, Bool, true, false, ◌==◌, not, arith, ◌∙◌,
  sym, ap, Bool-cases, inl, inr, none, some,
}
use stuos.Kernel.Ring.{Trb, Ring, stamp, link_trb, same_bit, trb_type_link}
use stuos.Kernel.Ring.Filled.{slot, lap, IsFilled-end, same_bit-not, same_bit_refl}
use stuos.Kernel.Ring.Shared.{
  Reader, follow, read_ring, IsShared, slot_apart, slot_around, slot_first, slot_next, slot_wrap,
}

follow-plain :
    (phys : ℕ) (t : Trb) (rd : Reader) → t.trb_type ≢ trb_type_link → follow phys t rd ≡ rd
follow-plain phys t rd ne =
    let other : (t.trb_type == trb_type_link) ≡ false = ground arith in rw other refl

follow-stale :
    (phys : ℕ) (t : Trb) (rd : Reader) → t.cycle_bit ≡ not rd.cycle → follow phys t rd ≡ rd
follow-stale phys t rd e = elim (Bool-cases (t.trb_type == trb_type_link)) [
  | inl link ↦ rw (link, e, same_bit-not rd.cycle) refl
  | inr other ↦ rw other refl
]

follow-link :
    (phys : ℕ) (rd : Reader)
    → follow phys (stamp rd.cycle (link_trb phys)) rd ≡ record { place = 0; cycle = not rd.cycle }
follow-link phys rd =
    let start : (phys - phys) / 16 ≡ 0 = omega arith in rw (same_bit_refl rd.cycle, start) refl

lap_crossed : (a k : ℕ) → slot 255 a + 1 ≡ 255 → k < 254 → lap 255 (a + suc k) ≡ not (lap 255 a)
lap_crossed a k last lt =
    let e : (a + suc k) / 255 ≡ (a + 1) / 255 = omega arith in
    ap (λ x. x % 2 == 0) e ∙ (slot_wrap a last).1

not-not : (b : Bool) → not (not b) ≡ b
not-not true = refl
not-not false = refl

module _ (r : Ring) (rd : Reader) (h : ℕ → Trb) (a n : ℕ) where
  abbrev moved : Reader
  moved = follow r.trbs_phys (r.trbs (rd.place + 1)) (record rd { place = rd.place + 1 })

  moved-link :
      (k : ℕ)
      → IsShared r rd h a (suc k) n
      → slot 255 a + 1 ≡ 255
      → moved ≡ record { place = 0; cycle = not rd.cycle }
  moved-link k s last =
      let at : rd.place + 1 ≡ 255 = ap (λ x. x + 1) s.place ∙ last in
      let bit : not (lap 255 n) ≡ rd.cycle =
        ap (λ x. not (lap 255 x)) s.total
        ∙ ap not (lap_crossed a k last (omega (arith, s.room)))
        ∙ not-not (lap 255 a)
        ∙ sym s.cycle in
      let next : r.trbs (rd.place + 1) ≡ stamp rd.cycle (link_trb r.trbs_phys) =
        ap r.trbs at ∙ s.link ∙ ap (λ b. stamp b (link_trb r.trbs_phys)) bit in
      ap (λ t. follow r.trbs_phys t (record rd { place = rd.place + 1 })) next
      ∙ follow-link r.trbs_phys (record rd { place = rd.place + 1 })

  moved-near :
      (k : ℕ)
      → IsShared r rd h a (suc k) n
      → slot 255 a + 1 ≢ 255
      → moved ≡ record rd { place = rd.place + 1 }
  moved-near zero s ne =
      let (next, same) = slot_next a ne in
      let e : n ≡ a + 1 = omega (arith, s.total) in
      let at : rd.place + 1 ≡ slot 255 n =
        ap (λ x. x + 1) s.place ∙ sym next ∙ ap (slot 255) (sym e) in
      follow-stale r.trbs_phys (r.trbs (rd.place + 1)) (record rd { place = rd.place + 1 })
        (ap (λ x. (r.trbs x).cycle_bit) at
          ∙ IsFilled-end 255 (omega arith) slot_apart slot_around slot_first r.trbs h n s.filled
          ∙ ap (λ x. not (lap 255 x)) e
          ∙ ap not (same ∙ sym s.cycle))
  moved-near (suc k) s ne =
      let (next, same) = slot_next a ne in
      let at : rd.place + 1 ≡ slot 255 (a + 1) = ap (λ x. x + 1) s.place ∙ sym next in
      let held =
        s.filled.written (a + 1) (omega (arith, s.total)) (omega (arith, s.total, s.room)) in
      follow-plain r.trbs_phys (r.trbs (rd.place + 1)) (record rd { place = rd.place + 1 })
        (λ e.
          s.no_link (a + 1) (omega (arith, s.total))
            (sym (ap (λ t. t.trb_type) (ap r.trbs at ∙ held)) ∙ e))

  -- The controller goes on to the slot of the next block.
  moved-next :
      (k : ℕ)
      → IsShared r rd h a (suc k) n
      → (moved.place ≡ slot 255 (a + 1)) × (moved.cycle ≡ lap 255 (a + 1))
  moved-next k s = elim (Bool-cases (slot 255 a + 1 == 255)) [
    | inl last ↦
        let at : slot 255 a + 1 ≡ 255 = ground arith in
        let e = moved-link k s at in
        let (next, flipped) = slot_wrap a at in
        (ap (λ x. x.place) e ∙ sym next, ap (λ x. x.cycle) e ∙ ap not s.cycle ∙ sym flipped)
    | inr near ↦
        let ne : slot 255 a + 1 ≢ 255 = ground arith in
        let e = moved-near k s ne in
        let (next, same) = slot_next a ne in
        (
          ap (λ x. x.place) e ∙ ap (λ x. x + 1) s.place ∙ sym next,
          ap (λ x. x.cycle) e ∙ s.cycle ∙ sym same,
        )
  ]

  -- Where no block waits, the controller finds none.
  pub read_ring-empty : IsShared r rd h a 0 n → read_ring r rd ≡ none
  read_ring-empty s =
      let e : n ≡ a = omega (arith, s.total) in
      let at : rd.place ≡ slot 255 n = s.place ∙ ap (slot 255) (sym e) in
      let bit : (r.trbs rd.place).cycle_bit ≡ not rd.cycle =
        ap (λ x. (r.trbs x).cycle_bit) at
        ∙ IsFilled-end 255 (omega arith) slot_apart slot_around slot_first r.trbs h n s.filled
        ∙ ap (λ x. not (lap 255 x)) e
        ∙ ap not (sym s.cycle) in
      let stale : same_bit (r.trbs rd.place).cycle_bit rd.cycle ≡ false =
        ap (λ b. same_bit b rd.cycle) bit ∙ same_bit-not rd.cycle in
      rw stale refl

  -- It takes the oldest block that waits.
  pub read_ring-IsShared :
      (k : ℕ)
      → IsShared r rd h a (suc k) n
      → (b : Bool) × (rd' : Reader) × (read_ring r rd ≡ some (stamp b (h a), rd'))
        × IsShared r rd' h (a + 1) k n
  read_ring-IsShared k s =
      let here : r.trbs rd.place ≡ stamp (lap 255 a) (h a) =
        ap r.trbs s.place
        ∙ s.filled.written a (omega (arith, s.total)) (omega (arith, s.total, s.room)) in
      let valid : same_bit (r.trbs rd.place).cycle_bit rd.cycle ≡ true =
        ap (λ t. same_bit t.cycle_bit rd.cycle) here
        ∙ ap (λ b. same_bit b rd.cycle) (sym s.cycle)
        ∙ same_bit_refl rd.cycle in
      let (place, cycle) = moved-next k s in
      (
        lap 255 a,
        moved,
        taken valid ∙ ap (λ t. some (t, moved)) here,
        record {
          total = omega (arith, s.total);
          filled = s.filled;
          idx = s.idx;
          state = s.state;
          count = s.count;
          allocated = s.allocated;
          place = place;
          cycle = cycle;
          room = omega (arith, s.room);
          link = s.link;
          no_link = s.no_link;
        },
      )
    where
      taken :
          same_bit (r.trbs rd.place).cycle_bit rd.cycle ≡ true
          → read_ring r rd ≡ some (r.trbs rd.place, moved)
      taken valid = rw valid refl
