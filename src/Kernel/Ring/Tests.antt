-- ===== src/Kernel/Ring/Tests.antt =====
-- Runs of a ring, and its theorems there.
use stuos.Prelude.{ℕ, ◌≡◌, refl, true, false, ◌==◌, if◌then◌else◌, arith, [], ◌∷◌, none, some}
use stuos.Kernel.Outcome.{done}
use stuos.Kernel.Slab.{Slab, malloc4k_phys, set_flag, with_flags}
use stuos.Kernel.Ring.{Trb, Ring, create_ring, link_trb, put_trb, blank}
use stuos.Kernel.Ring.Shared.{start}
use stuos.Kernel.Ring.Trace.{put, look, run_ring, run_queue, run_ring-queue}
use stuos.Kernel.Ring.Events.{
  Writer, IsPosted, posted-IsPosted, dequeue_ring-IsDequeued, IsDequeued, posted, advanced,
}

abbrev slab : Slab
slab = record { base = 0x10000; pages = 2; flags = λ p. false }

abbrev block : ℕ → Trb
block n = record blank { parameter = n; trb_type = 1 }

abbrev ring : Ring
ring = record {
  count = 256;
  idx = 0;
  trbs_phys = 0x10000;
  allocated = true;
  trbs = put_trb 255 (link_trb 0x10000) (λ i. blank);
  ring_cycle_state = true;
}

run_ring-queue_example :
    run_ring ring start (put (block 1) ∷ put (block 2) ∷ look ∷ look ∷ look ∷ [])
    ≡ done (some (block 1) ∷ some (block 2) ∷ none ∷ [])
unfolding create_ring run_queue malloc4k_phys
run_ring-queue_example =
    run_ring-queue slab (with_flags slab (set_flag slab.flags 0 true)) ring
      (put (block 1) ∷ put (block 2) ∷ look ∷ look ∷ look ∷ [])
      (some (block 1) ∷ some (block 2) ∷ none ∷ []) refl refl

abbrev events : Ring
events = record ring { trbs = λ i. blank }

abbrev first_place : Writer
first_place = record { place = 0; cycle = true }

events-IsPosted : IsPosted events first_place (λ i. blank) 0 0 0
events-IsPosted = record {
  total = refl;
  filled = record { written = λ a lt le. absurd (omega (arith, lt)); fresh = λ a le lt. refl };
  place = refl;
  cycle = refl;
  count = refl;
  idx = refl;
  state = refl;
  room = omega arith;
}

dequeue_ring-IsDequeued_example :
    IsDequeued
      (posted first_place (block 7) events)
      (advanced first_place)
      (λ a. if a == 0 then block 7 else blank)
      0
      1
      1
dequeue_ring-IsDequeued_example =
    dequeue_ring-IsDequeued (posted first_place (block 7) events) (advanced first_place)
      (λ a. if a == 0 then block 7 else blank) 0 1 1
      (posted-IsPosted events first_place (λ i. blank) 0 0 0 (block 7) (omega arith)
        events-IsPosted)
