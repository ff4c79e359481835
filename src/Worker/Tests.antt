-- ===== src/Worker/Tests.antt =====
-- Workers of thread_pool.hpp in each place, and the theorems at them.
use dumbo.Base.{◌≡◌, refl, [], ◌∷◌, none, some, arith, true, false}
use dumbo.Worker.{Worker, starting, waiting, blocked, moved, make_worker, thread_step, run, stop}
use dumbo.Worker.Handoff.{IsIdle, serve, serve_lem, lost_wakeup, stop_lem}

abbrev idle : Worker
unfolding make_worker
idle = record make_worker { place = waiting }

abbrev fresh : Worker
unfolding make_worker
fresh = make_worker

idle-IsIdle : IsIdle idle
unfolding make_worker
idle-IsIdle = record { place = refl; not_ready = refl; running = refl; joinable = refl }

serve_lem_example :
    (w : Worker) × (serve idle (4 ∷ 5 ∷ []) ≡ some w) × (w.processed ≡ 4 ∷ 5 ∷ []) × IsIdle w
unfolding make_worker
serve_lem_example =
    serve_lem (4 ∷ 5 ∷ []) idle idle-IsIdle
      (λ e. absurd (omega arith), (λ e. absurd (omega arith), tt))

lost_wakeup_example :
    (v w : Worker) × (run fresh 4 ≡ some v)
    × (thread_step v ≡ moved w)
    × (thread_step w ≡ blocked)
    × (w.task ≡ some 4)
    × (w.processed ≡ [])
unfolding make_worker
lost_wakeup_example = lost_wakeup fresh 4 refl refl (λ e. absurd (omega arith))

stop_lem_example :
    (IsIdle idle → (w : Worker) × (stop idle ≡ some w) × (w.finished ≡ true) × (w.joinable ≡ false))
    × (idle.joinable ≡ false → stop idle ≡ some idle)
    × (idle.joinable ≡ true → idle.place ≡ starting → stop idle ≡ none)
stop_lem_example = stop_lem idle
