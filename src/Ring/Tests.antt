-- ===== src/Ring/Tests.antt =====
-- Runs of ring_buffer.hpp, and its theorems at concrete rings.
use std.Equiv.{IsEquiv}
use dumbo.Base.{ℕ, zero, suc, ◌+◌, ◌%◌, ◌<◌, ◌≡◌, refl, List, [], ◌∷◌, some, arith, get_elem?}
use dumbo.Ring.{Ring, pop_back, push_front}
use dumbo.Ring.Refine.{Holds}
use dumbo.Ring.Quotient.{contents, contents-IsEquiv}
use dumbo.Ring.Trace.{Op, push, pop, run_ring, run_queue, SameRun, run_ring_refines}

-- Four cells whose values go round the end: 8, then 9.
abbrev wrapped : Ring ℕ
wrapped = record { buffer = 9 ∷ 0 ∷ 0 ∷ 8 ∷ []; tail = 3; head = 5 }

abbrev script : List (Op ℕ)
script = push 1 ∷ push 2 ∷ pop ∷ push 3 ∷ pop ∷ pop ∷ []

wrapped_run :
    run_ring wrapped script
    ≡ some (8 ∷ 9 ∷ 1 ∷ [], record { buffer = 9 ∷ 1 ∷ 2 ∷ 3 ∷ []; tail = 6; head = 8 })
unfolding run_ring push_front pop_back
wrapped_run = refl

wrapped_cells : (i : ℕ) → i < 2 → get_elem? wrapped.buffer ((3 + i) % 4) ≡ get_elem? (8 ∷ 9 ∷ []) i
wrapped_cells zero p = refl
wrapped_cells (suc zero) p = refl
wrapped_cells (suc (suc i)) p = absurd (omega arith)

wrapped-Holds : Holds 2 wrapped (8 ∷ 9 ∷ [])
wrapped-Holds = record {
  small = omega arith;
  sized = refl;
  fits = omega arith;
  span = refl;
  in_range = omega arith;
  cells = wrapped_cells;
}

run_ring_refines_example : SameRun 2 (run_ring wrapped script) (run_queue 4 (8 ∷ 9 ∷ []) script)
run_ring_refines_example =
    run_ring_refines 2 script wrapped (8 ∷ 9 ∷ []) wrapped-Holds (omega arith)

contents-IsEquiv_example : IsEquiv (contents 4)
contents-IsEquiv_example = contents-IsEquiv 4 (omega arith)
