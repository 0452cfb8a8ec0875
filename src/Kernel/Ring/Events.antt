-- ===== src/Kernel/Ring/Events.antt =====
-- A ring that the controller writes and the kernel reads with `dequeue_ring`.
use stuos.Prelude.{
  ℕ, zero, suc, ◌+◌, ◌/◌, ◌%◌, ◌≤◌, ◌<◌, ◌≡◌, refl, ◌≢◌, Bool, true, false, ◌==◌, not,
  if◌then◌else◌, arith, ◌∙◌, sym, ap, Bool-cases, inl, inr, none, some,
}
use stuos.Kernel.Ring.{Trb, Ring, dequeue_ring, put_trb, stamp, same_bit}
use stuos.Kernel.Ring.Filled.{slot, lap, IsFilled, extend, IsFilled-next, IsFilled-end}
use stuos.Kernel.Ring.Filled.{same_bit_refl, same_bit-not}

-- Where the controller writes its next event, and the cycle bit it gives it.
pub record Writer : Type 0 where
  pub place : ℕ
  pub cycle : Bool

-- The controller writes an event; behind the last of the 256 slots it starts over and flips its
-- cycle bit.
abbrev pub posted : Writer → Trb → Ring → Ring
posted w t r = record r { trbs = put_trb w.place (stamp w.cycle t) r.trbs }

abbrev pub advanced : Writer → Writer
advanced w =
    if w.place + 1 == 256
    then record { place = 0; cycle = not w.cycle }
    else record w { place = w.place + 1 }

-- The kernel has taken `a` of the `n` events `h`, and `k` more wait.
pub record IsPosted (r : Ring) (w : Writer) (h : ℕ → Trb) (a k n : ℕ) : Type 0 where
  pub total : n ≡ a + k
  pub filled : IsFilled 256 r.trbs h n
  pub place : w.place ≡ slot 256 n
  pub cycle : w.cycle ≡ lap 256 n
  pub count : r.count ≡ 256
  pub idx : r.idx ≡ slot 256 a
  pub state : r.ring_cycle_state ≡ lap 256 a
  pub room : k ≤ 256

slot_apart : (a b : ℕ) → a < b → b < a + 256 → slot 256 a ≢ slot 256 b
slot_apart a b lt near e = omega arith

slot_around : (a : ℕ) → (slot 256 (a + 256) ≡ slot 256 a) × (lap 256 (a + 256) ≡ not (lap 256 a))
slot_around a = (omega arith, ground arith)

slot_first : (a : ℕ) → a < 256 → lap 256 a ≡ true
slot_first a lt = let e : a / 256 ≡ 0 = omega arith in rw e refl

slot_next :
    (n : ℕ)
    → slot 256 n + 1 ≢ 256
    → (slot 256 (n + 1) ≡ slot 256 n + 1) × (lap 256 (n + 1) ≡ lap 256 n)
slot_next n ne =
    let e : (n + 1) / 256 ≡ n / 256 = omega arith in (omega arith, ap (λ x. x % 2 == 0) e)

slot_wrap :
    (n : ℕ) → slot 256 n + 1 ≡ 256 → (slot 256 (n + 1) ≡ 0) × (lap 256 (n + 1) ≡ not (lap 256 n))
slot_wrap n e =
    let e' : (n + 1) / 256 ≡ n / 256 + 1 = omega arith in
    (omega arith, ap (λ x. x % 2 == 0) e' ∙ odd (n / 256))
  where
    odd : (x : ℕ) → ((x + 1) % 2 == 0) ≡ not (x % 2 == 0)
    odd x = ground arith

advanced-next :
    (w : Writer) (n : ℕ)
    → w.place ≡ slot 256 n
    → w.cycle ≡ lap 256 n
    → ((advanced w).place ≡ slot 256 (n + 1)) × ((advanced w).cycle ≡ lap 256 (n + 1))
advanced-next w n at bit = elim (Bool-cases (w.place + 1 == 256)) [
  | inl last ↦
      let (s, l) = slot_wrap n (omega_last at last) in
      (rw last (sym s), rw last (ap not bit ∙ sym l))
  | inr near ↦
      let (s, l) = slot_next n (λ e. omega_near at near e) in
      (rw near (ap (λ x. x + 1) at ∙ sym s), rw near (bit ∙ sym l))
]
  where
    omega_last : w.place ≡ slot 256 n → (w.place + 1 == 256) ≡ true → slot 256 n + 1 ≡ 256
    omega_last at e = ground arith

    omega_near : w.place ≡ slot 256 n → (w.place + 1 == 256) ≡ false → slot 256 n + 1 ≢ 256
    omega_near at e = ground arith

module _ (r : Ring) (w : Writer) (h : ℕ → Trb) (a k n : ℕ) where
  -- An event that the controller writes, while fewer than 256 wait.
  pub posted-IsPosted :
      (t : Trb)
      → k < 256
      → IsPosted r w h a k n
      → IsPosted (posted w t r) (advanced w) (extend h n t) a (suc k) (n + 1)
  posted-IsPosted t room s =
      let (place, cycle) = advanced-next w n s.place s.cycle in
      record {
        total = omega (arith, s.total);
        filled =
            rw (s.place, s.cycle)
              (IsFilled-next 256 (omega arith) slot_apart slot_around slot_first r.trbs h n s.filled
                t);
        place = place;
        cycle = cycle;
        count = s.count;
        idx = s.idx;
        state = s.state;
        room = omega (arith, room);
      }

dequeue_stale :
    (r : Ring)
    → same_bit (r.trbs r.idx).cycle_bit r.ring_cycle_state ≡ false
    → dequeue_ring r ≡ none
unfolding dequeue_ring
dequeue_stale r e = rw e refl

-- The ring behind the event that it is at.
abbrev pub behind : Ring → Ring
behind r =
    if r.idx + 1 == 256
    then record r { idx = 0; ring_cycle_state = not r.ring_cycle_state }
    else record r { idx = r.idx + 1 }

dequeue_valid :
    (r : Ring)
    → same_bit (r.trbs r.idx).cycle_bit r.ring_cycle_state ≡ true
    → r.count ≡ 256
    → dequeue_ring r ≡ some (r.trbs r.idx, behind r)
unfolding dequeue_ring
dequeue_valid r e c = simp (e, c)

behind-IsPosted :
    (r : Ring) (w : Writer) (h : ℕ → Trb) (a k n : ℕ)
    → IsPosted r w h a (suc k) n
    → IsPosted (behind r) w h (a + 1) k n
behind-IsPosted r w h a k n s = elim (Bool-cases (r.idx + 1 == 256)) [
  | inl last ↦
      let (next, flipped) = slot_wrap a (sym (ap (λ x. x + 1) s.idx) ∙ ground arith) in
      rw last (moved 0 (not r.ring_cycle_state) (sym next) (ap not s.state ∙ sym flipped))
  | inr near ↦
      let (next, same) = slot_next a (λ e. ne near (ap (λ x. x + 1) s.idx ∙ e)) in
      rw near (
        moved (r.idx + 1) r.ring_cycle_state (ap (λ x. x + 1) s.idx ∙ sym next)
          (s.state ∙ sym same))
]
  where
    ne : (r.idx + 1 == 256) ≡ false → r.idx + 1 ≢ 256
    ne e = ground arith

    moved :
        (i : ℕ) (c : Bool)
        → i ≡ slot 256 (a + 1)
        → c ≡ lap 256 (a + 1)
        → IsPosted (record r { idx = i; ring_cycle_state = c }) w h (a + 1) k n
    moved i c idx state = record {
      total = omega (arith, s.total);
      filled = s.filled;
      place = s.place;
      cycle = s.cycle;
      count = s.count;
      idx = idx;
      state = state;
      room = omega (arith, s.room);
    }

-- What `dequeue_ring` does where `k` events wait.
abbrev pub IsDequeued : Ring → Writer → (ℕ → Trb) → ℕ → ℕ → ℕ → Type 0
IsDequeued r w h a zero n = dequeue_ring r ≡ none
IsDequeued r w h a (suc k) n =
    (b : Bool) × (r' : Ring) × (dequeue_ring r ≡ some (stamp b (h a), r'))
    × IsPosted r' w h (a + 1) k n

-- On a ring of 256 slots in which the controller has written events round and round, at most 256
-- of them not taken yet: `dequeue_ring` returns the oldest of those with the ring behind it, and
-- -1 exactly when there is none.
pub dequeue_ring-IsDequeued :
    (r : Ring) (w : Writer) (h : ℕ → Trb) (a k n : ℕ)
    → IsPosted r w h a k n
    → IsDequeued r w h a k n
dequeue_ring-IsDequeued r w h a zero n s =
    let e : n ≡ a = omega (arith, s.total) in
    let at : r.idx ≡ slot 256 n = s.idx ∙ ap (slot 256) (sym e) in
    let bit : (r.trbs r.idx).cycle_bit ≡ not r.ring_cycle_state =
      ap (λ x. (r.trbs x).cycle_bit) at
      ∙ IsFilled-end 256 (omega arith) slot_apart slot_around slot_first r.trbs h n s.filled
      ∙ ap (λ x. not (lap 256 x)) e
      ∙ ap not (sym s.state) in
    dequeue_stale r (ap (λ b. same_bit b r.ring_cycle_state) bit ∙ same_bit-not r.ring_cycle_state)
dequeue_ring-IsDequeued r w h a (suc k) n s =
    let here : r.trbs r.idx ≡ stamp (lap 256 a) (h a) =
      ap r.trbs s.idx
      ∙ s.filled.written a (omega (arith, s.total)) (omega (arith, s.total, s.room)) in
    let valid : same_bit (r.trbs r.idx).cycle_bit r.ring_cycle_state ≡ true =
      ap (λ t. same_bit t.cycle_bit r.ring_cycle_state) here
      ∙ ap (λ b. same_bit b r.ring_cycle_state) (sym s.state)
      ∙ same_bit_refl r.ring_cycle_state in
    (
      lap 256 a,
      behind r,
      dequeue_valid r valid s.count ∙ ap (λ t. some (t, behind r)) here,
      behind-IsPosted r w h a k n s,
    )
