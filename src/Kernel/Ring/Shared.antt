-- ===== src/Kernel/Ring/Shared.antt =====
-- A ring that the kernel fills, and the controller that reads it.
use stuos.Prelude.{
  ℕ, ◌+◌, ◌-◌, ◌/◌, ◌%◌, ◌≤◌, ◌<◌, ◌≡◌, refl, ◌≢◌, Bool, true, ◌==◌, ◌&&◌, not, if◌then◌else◌,
  arith, ◌∙◌, ap, Option, none, some,
}
use stuos.Kernel.Ring.{Trb, Ring, stamp, link_trb, same_bit, trb_type_link}
use stuos.Kernel.Ring.Filled.{slot, lap, IsFilled}

-- Where the controller is: its place in the ring and its cycle bit.
pub record Reader : Type 0 where
  pub place : ℕ
  pub cycle : Bool

-- Where the block `next` at its place leads the controller: a link that is valid leads to the
-- block that it points to, and its toggle flips the cycle bit.
abbrev pub follow : (phys : ℕ) → Trb → Reader → Reader
follow phys next rd =
    if next.trb_type == trb_type_link && same_bit next.cycle_bit rd.cycle
    then record {
      place = (next.parameter - phys) / 16;
      cycle = if next.flags % 2 == 1 then not rd.cycle else rd.cycle;
    }
    else rd

-- The controller takes the block at its place when its cycle bit is the controller's.
abbrev pub read_ring : Ring → Reader → Option (Trb × Reader)
read_ring r rd =
    if same_bit (r.trbs rd.place).cycle_bit rd.cycle
    then some (
      r.trbs rd.place,
      follow r.trbs_phys (r.trbs (rd.place + 1)) (record rd { place = rd.place + 1 }),
    )
    else none

-- The controller has taken `a` of the `n` blocks `h`, and `k` more wait.
pub record IsShared (r : Ring) (rd : Reader) (h : ℕ → Trb) (a k n : ℕ) : Type 0 where
  pub total : n ≡ a + k
  pub filled : IsFilled 255 r.trbs h n
  pub idx : r.idx ≡ slot 255 n
  pub state : r.ring_cycle_state ≡ lap 255 n
  pub count : r.count ≡ 256
  pub allocated : r.allocated ≡ true
  pub place : rd.place ≡ slot 255 a
  pub cycle : rd.cycle ≡ lap 255 a
  pub room : k ≤ 254
  pub link : r.trbs 255 ≡ stamp (not (lap 255 n)) (link_trb r.trbs_phys)
  pub no_link : (b : ℕ) → b < n → (h b).trb_type ≢ trb_type_link

pub slot_apart : (a b : ℕ) → a < b → b < a + 255 → slot 255 a ≢ slot 255 b
slot_apart a b lt near e = omega arith

pub slot_around :
    (a : ℕ) → (slot 255 (a + 255) ≡ slot 255 a) × (lap 255 (a + 255) ≡ not (lap 255 a))
slot_around a = (omega arith, ground arith)

pub slot_first : (a : ℕ) → a < 255 → lap 255 a ≡ true
slot_first a lt = let e : a / 255 ≡ 0 = omega arith in rw e refl

pub slot_small : (a : ℕ) → slot 255 a < 255
slot_small a = omega arith

-- The next block is in the next slot, or in the first one of the next lap.
pub slot_next :
    (n : ℕ)
    → slot 255 n + 1 ≢ 255
    → (slot 255 (n + 1) ≡ slot 255 n + 1) × (lap 255 (n + 1) ≡ lap 255 n)
slot_next n ne =
    let e : (n + 1) / 255 ≡ n / 255 = omega arith in (omega arith, ap (λ x. x % 2 == 0) e)

pub slot_wrap :
    (n : ℕ) → slot 255 n + 1 ≡ 255 → (slot 255 (n + 1) ≡ 0) × (lap 255 (n + 1) ≡ not (lap 255 n))
slot_wrap n e =
    let e' : (n + 1) / 255 ≡ n / 255 + 1 = omega arith in
    (omega arith, ap (λ x. x % 2 == 0) e' ∙ odd (n / 255))
  where
    odd : (x : ℕ) → ((x + 1) % 2 == 0) ≡ not (x % 2 == 0)
    odd x = ground arith

abbrev pub start : Reader
start = record { place = 0; cycle = true }
