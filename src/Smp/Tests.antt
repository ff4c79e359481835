-- ===== src/Smp/Tests.antt =====
-- Two cpus with listed inboxes, and the theorems of smp_base.hpp over them.
use dumbo.Base.{ℕ, ◌≡◌, refl, List, [], ◌∷◌, ◌++◌, some, arith, pos}
use dumbo.Base.Bags.{Bag, bag, Interleaves, nothing, left, right}
use dumbo.Mpsc.Listed.{listed, listed-Fifo}
use dumbo.Smp.{Smp}
use dumbo.Smp.Routing.{IsValid, queued, addressed, submit_each}
use dumbo.Smp.Concurrent.{concurrent_lem}

abbrev two : Smp listed
two = record { cpu_num = pos 2; inboxes = (0, 4 ∷ 5 ∷ []) ∷ (0, []) ∷ [] }

two-IsValid : IsValid listed two 2
two-IsValid = record { cpus = refl; boxes = refl }

abbrev messages : List (ℕ × ℕ)
messages = (1, 8) ∷ (0, 6) ∷ (1, 9) ∷ []

-- One reactor sends 8 and 9 to cpu 1, another one 6 to cpu 0 and 7 to cpu 1.
abbrev sent_first : List (ℕ × ℕ)
sent_first = (1, 8) ∷ (1, 9) ∷ []

abbrev sent_second : List (ℕ × ℕ)
sent_second = (0, 6) ∷ (1, 7) ∷ []

concurrent_lem_example :
    (s₁ : Smp listed) × (s₂ : Smp listed) × (submit_each listed listed-Fifo two
        ((1, 8) ∷ (0, 6) ∷ (1, 7) ∷ (1, 9) ∷ [])
      ≡ some s₁)
    × (submit_each listed listed-Fifo two ((0, 6) ∷ (1, 8) ∷ (1, 9) ∷ (1, 7) ∷ []) ≡ some s₂)
    × ((e : ℕ)
        → (part : List ℕ) × (queued listed listed-Fifo s₁ e
            ≡ queued listed listed-Fifo two e ++ part)
          × Interleaves
              (addressed listed listed-Fifo e sent_first)
              (addressed listed listed-Fifo e sent_second)
              part)
    × ((e : ℕ)
        → ◌≡◌ {A = Bag}
            (bag (queued listed listed-Fifo s₁ e))
            (bag (queued listed listed-Fifo s₂ e)))
concurrent_lem_example =
    concurrent_lem listed listed-Fifo sent_first sent_second
      ((1, 8) ∷ (0, 6) ∷ (1, 7) ∷ (1, 9) ∷ []) ((0, 6) ∷ (1, 8) ∷ (1, 9) ∷ (1, 7) ∷ []) two 2
      two-IsValid (omega arith) (omega arith)
      (left (1, 8) (right (0, 6) (right (1, 7) (left (1, 9) nothing))))
      (right (0, 6) (left (1, 8) (left (1, 9) (right (1, 7) nothing))))
