-- ===== src/Mpsc/Tests.antt =====
-- The theorems of mpsc_queue.hpp over a disruptor that keeps its events in a list.
use dumbo.Base.{ℕ, ◌≡◌, refl, List, [], ◌∷◌, ◌++◌, true}
use dumbo.Mpsc.{send, get_one, get, get_all}
use dumbo.Mpsc.Listed.{listed, listed-Fifo}
use dumbo.Mpsc.Fifo.{Took, get_all_lem}
use dumbo.Mpsc.History.{Call, sends, receives, receives_all, keep, run, run_conserves}

abbrev three : ℕ × List ℕ
three = (0, 4 ∷ 5 ∷ 6 ∷ [])

abbrev calls : List (Call ℕ)
calls = sends 7 ∷ receives 2 ∷ sends 8 ∷ receives_all ∷ sends 9 ∷ []

calls-run : run listed three [] calls ≡ (4 ∷ 5 ∷ 6 ∷ 7 ∷ 8 ∷ [], (0, 9 ∷ []))
unfolding run send get get_all
calls-run = refl

one_taken : get_one listed three 0 ≡ (true, 4, (0, 5 ∷ 6 ∷ []))
unfolding get_one
one_taken = refl

get_all_lem_example :
    let r = get_all listed keep three [] in
    Took listed listed-Fifo keep three [] r × (r.0 ≡ 0 → three.1 ≡ [])
get_all_lem_example = get_all_lem listed listed-Fifo keep three []

run_conserves_example :
    (run listed three [] calls).0 ++ (run listed three [] calls).1.1 ≡ 4 ∷ 5 ∷ 6 ∷ 7 ∷ 8 ∷ 9 ∷ []
run_conserves_example = run_conserves listed listed-Fifo calls three []
