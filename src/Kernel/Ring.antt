-- ===== src/Kernel/Ring.antt =====
-- The rings of transfer blocks that the kernel shares with the USB controller,
-- stuos/src/xhci_trb.c. A ring's page belongs to it, so the ring holds its blocks.
pub mod Filled
pub mod Shared
pub mod Reader
pub mod Look
pub mod Trace
pub mod Events
mod Tests
use stuos.Prelude.{
  ℕ, ◌+◌, ◌-◌, ◌/◌, Bool, true, false, ◌==◌, not, if◌then◌else◌, Option, none, some,
}
use stuos.Kernel.Outcome.{Outcome, done, halted, ◌>>=◌}
use stuos.Kernel.Slab.{Slab, page_size, malloc4k_phys}

-- `struct TRB`: the parameter, and the fields of the status word by their bits: 0 to 31, the
-- cycle bit, 33 to 41, the type, 48 to 63.
pub record Trb : Type 0 where
  pub parameter : ℕ
  pub low : ℕ
  pub cycle_bit : Bool
  pub flags : ℕ
  pub trb_type : ℕ
  pub high : ℕ

abbrev pub trb_type_link : ℕ
trb_type_link = 6

abbrev pub blank : Trb
blank = record { parameter = 0; low = 0; cycle_bit = false; flags = 0; trb_type = 0; high = 0 }

-- `struct Ring`; `allocated` tells that `trbs` is not NULL.
pub record Ring : Type 0 where
  pub count : ℕ
  pub idx : ℕ
  pub trbs_phys : ℕ
  pub allocated : Bool
  pub trbs : ℕ → Trb
  pub ring_cycle_state : Bool

-- The link back to the start, `toggle_cycle` being bit 33.
abbrev pub link_trb : ℕ → Trb
link_trb trb_phys = record {
  parameter = trb_phys;
  low = 0;
  cycle_bit = false;
  flags = 1;
  trb_type = trb_type_link;
  high = 0;
}

abbrev pub put_trb : ℕ → Trb → (ℕ → Trb) → ℕ → Trb
put_trb i t trbs j = if j == i then t else trbs j

-- `page_size / sizeof(struct TRB)`
abbrev pub trbs_per_page : ℕ
trbs_per_page = page_size / 16

unfoldable pub create_ring : Slab → Outcome (Ring × Slab)
create_ring s = do
  (trb_phys, s') ← malloc4k_phys s
  done (
    record {
      count = trbs_per_page;
      idx = 0;
      trbs_phys = trb_phys;
      allocated = true;
      trbs = put_trb (trbs_per_page - 1) (link_trb trb_phys) (λ i. blank);
      ring_cycle_state = true;
    },
    s',
  )

-- `trb.status.cycle_bit = ...`
abbrev pub stamp : Bool → Trb → Trb
stamp b t = record t { cycle_bit = b }

-- The end of `enqueue_ring`, at the link: its cycle bit is flipped and the ring starts over.
abbrev pub wrap : Ring → Ring
wrap r = record r {
  trbs = put_trb r.idx (stamp (not (r.trbs r.idx).cycle_bit) (r.trbs r.idx)) r.trbs;
  idx = 0;
  ring_cycle_state = not r.ring_cycle_state;
}

unfoldable pub enqueue_ring : Ring → Trb → Outcome Ring
enqueue_ring r trb =
    if not r.allocated
    then halted
    else let r' = record r {
      trbs = put_trb r.idx (stamp r.ring_cycle_state trb) r.trbs;
      idx = r.idx + 1;
    } in
      done (if r'.idx == r'.count - 1 then wrap r' else r')

abbrev pub same_bit : Bool → Bool → Bool
same_bit true b = b
same_bit false b = not b

-- `dequeue_ring`: the block and the ring behind it, or `none` for -1.
unfoldable pub dequeue_ring : Ring → Option (Trb × Ring)
dequeue_ring r =
    if not (same_bit (r.trbs r.idx).cycle_bit r.ring_cycle_state)
    then none
    else let next = r.idx + 1 in
      some (
        r.trbs r.idx,
        if next == r.count
            then record r { idx = 0; ring_cycle_state = not r.ring_cycle_state }
            else record r { idx = next },
      )
