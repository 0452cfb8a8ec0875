-- ===== src/Kernel/Ring/Trace.antt =====
-- The ring as a queue between the kernel and the controller.
use stuos.Prelude.{
  ℕ, zero, suc, ◌+◌, ◌<◌, ◌≡◌, refl, ◌≢◌, true, false, ◌==◌, ltb, ◌&&◌, not, if◌then◌else◌, arith,
  ◌∙◌, sym, ap, Bool-cases, inl, inr, List, [], ◌∷◌, ◌++◌, length, Option, none, some,
  some-injective,
}
use stuos.Kernel.Outcome.{Outcome, done, halted}
use stuos.Kernel.Slab.{Slab}
use stuos.Kernel.Ring.{Trb, Ring, create_ring, enqueue_ring, stamp, trb_type_link, blank}
use stuos.Kernel.Ring.Filled.{items, extend, items-extend}
use stuos.Kernel.Ring.Shared.{Reader, start, read_ring, IsShared}
use stuos.Kernel.Ring.Reader.{create_ring-IsShared, enqueue_ring-IsShared}
use stuos.Kernel.Ring.Look.{read_ring-empty, read_ring-IsShared}

-- The kernel puts a block in the ring, or the controller looks for one.
pub data Op : Type 0 where
  put : Trb → Op
  look : Op

abbrev pub Found : Type 0
Found = List (Option Trb)

-- A block as the two sides exchange it: the cycle bit is the ring's.
abbrev pub body : Trb → Trb
body = stamp false

abbrev pub found : Option Trb → Outcome Found → Outcome Found
found x (done xs) = done (x ∷ xs)
found x halted = halted

-- What the controller finds in the ring.
abbrev pub looked : Option (Trb × Reader) → Reader → (Reader → Outcome Found) → Outcome Found
looked none rd rest = found none (rest rd)
looked (some (t, rd')) rd rest = found (some (body t)) (rest rd')

abbrev pub and_then : Outcome Ring → (Ring → Outcome Found) → Outcome Found
and_then (done r) rest = rest r
and_then halted rest = halted

unfoldable pub run_ring : Ring → Reader → List Op → Outcome Found
run_ring r rd [] = done []
run_ring r rd (put t ∷ ops) = and_then (enqueue_ring r t) (λ r'. run_ring r' rd ops)
run_ring r rd (look ∷ ops) = looked (read_ring r rd) rd (λ rd'. run_ring r rd' ops)

-- The same on a queue of at most 254 blocks, none of them a link; `none` where that does not hold.
abbrev pub found_in_queue : Option Trb → Option Found → Option Found
found_in_queue x (some xs) = some (x ∷ xs)
found_in_queue x none = none

unfoldable pub run_queue : List Trb → List Op → Option Found
run_queue q [] = some []
run_queue q (put t ∷ ops) =
    let rest = run_queue (q ++ (t ∷ [])) ops in
    if ltb (length q) 254 && not (t.trb_type == trb_type_link) then rest else none
run_queue [] (look ∷ ops) = found_in_queue none (run_queue [] ops)
run_queue (t ∷ q) (look ∷ ops) = found_in_queue (some (body t)) (run_queue q ops)

length-items : (h : ℕ → Trb) (a k : ℕ) → length (items h a k) ≡ k
length-items h a zero = refl
length-items h a (suc k) = ap suc (length-items h (a + 1) k)

found-same :
    (x : Option Trb) (o : Option Found) (out : Found)
    → found_in_queue x o ≡ some out
    → (xs : Found) × (o ≡ some xs) × (out ≡ x ∷ xs)
found-same x (some xs) out e = (xs, refl, sym (some-injective _ _ e))
found-same x none out e = absurd (clash e)
  where
    clash : ◌≡◌ {A = Option Found} none (some out) → ⊥
    clash e = cc

room-plain :
    (k : ℕ) (t : Trb)
    → (ltb k 254 && not (t.trb_type == trb_type_link)) ≡ true
    → (k < 254) × (t.trb_type ≢ trb_type_link)
room-plain k t e = ground arith

run_ring-shared :
    (ops : List Op) (r : Ring) (rd : Reader) (h : ℕ → Trb) (a k n : ℕ) (out : Found)
    → IsShared r rd h a k n
    → run_queue (items h a k) ops ≡ some out
    → run_ring r rd ops ≡ done out
unfolding run_ring run_queue
run_ring-shared [] r rd h a k n out s e = ap done (some-injective _ _ e)
run_ring-shared (put t ∷ ops) r rd h a k n out s e =
    elim (Bool-cases (ltb (length (items h a k)) 254 && not (t.trb_type == trb_type_link))) [
      | inl fits ↦
          let (small, plain) : (k < 254) × (t.trb_type ≢ trb_type_link) =
            room-plain k t (rw (length-items h a k) at fits) in
          let (r', eq, s') = enqueue_ring-IsShared r rd h a k n s t small plain in
          ap (λ o. and_then o (λ x. run_ring x rd ops)) eq
          ∙ run_ring-shared ops r' rd (extend h n t) a (suc k) (n + 1) out s'
              (ap (λ q. run_queue q ops) (items-extend h t n a k s.total) ∙ rw fits at e)
      | inr full ↦ absurd (no_run (rw full at e))
    ]
  where
    no_run : ◌≡◌ {A = Option Found} none (some out) → ⊥
    no_run e = cc
run_ring-shared (look ∷ ops) r rd h a zero n out s e =
    let (xs, rest, same) = found-same none (run_queue [] ops) out e in
    ap (λ o. looked o rd (λ x. run_ring r x ops)) (read_ring-empty r rd h a n s)
    ∙ ap (found none) (run_ring-shared ops r rd h a zero n xs s rest)
    ∙ ap done (sym same)
run_ring-shared (look ∷ ops) r rd h a (suc k) n out s e =
    let (xs, rest, same) =
      found-same (some (body (h a))) (run_queue (items h (a + 1) k) ops) out e in
    let (b, rd', eq, s') = read_ring-IsShared r rd h a n k s in
    ap (λ o. looked o rd (λ x. run_ring r x ops)) eq
    ∙ ap (found (some (body (h a)))) (run_ring-shared ops r rd' h (a + 1) k n xs s' rest)
    ∙ ap done (sym same)

-- A new ring is a queue between the kernel and the controller: whatever blocks the kernel puts in
-- it and whenever the controller looks, as long as no more than 254 blocks wait at a time and none
-- of them is a link, no `enqueue_ring` halts and each look finds the block that has waited
-- longest, or nothing where none waits. It stays so however often the ring goes round.
pub run_ring-queue :
    (s s' : Slab) (r : Ring) (ops : List Op) (out : Found)
    → create_ring s ≡ done (r, s')
    → run_queue [] ops ≡ some out
    → run_ring r start ops ≡ done out
run_ring-queue s s' r ops out made e =
    run_ring-shared ops r start (λ a. blank) 0 0 0 out
      (create_ring-IsShared s s' r (λ a. blank) made) e
