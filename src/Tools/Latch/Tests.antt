-- ===== src/Tools/Latch/Tests.antt =====
-- A latch of 1 that a thread counts down while another one waits for 0.
use dumbo.Base.{ℕ, ◌+◌, ◌-◌, ◌≡◌, refl, [], ◌∷◌, ◌==◌}
use dumbo.Tools.Latch.{CountDownLatch, make_latch, dec, wait}
use dumbo.Tools.Latch.Waiting.{decs, apply_all}

abbrev up : ℕ → ℕ
up n = n + 1

abbrev down : ℕ → ℕ
down n = n - 1

abbrev watched : CountDownLatch ℕ
unfolding wait make_latch
watched = (wait up down ◌==◌ 7 0 (make_latch 1)).0

-- The value is 0, and thread 7 still waits.
counted_down :
    apply_all up down ◌==◌ (decs ∷ []) watched ≡ record { value = 0; waiting = (7, 0) ∷ [] }
unfolding watched dec wait make_latch
counted_down = refl
