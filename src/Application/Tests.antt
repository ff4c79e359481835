-- ===== src/Application/Tests.antt =====
-- An application with two reactors, and its shutdown.
use dumbo.Base.{ℕ, ◌+◌, ◌<◌, ◌≡◌, refl, [], ◌∷◌, ◌++◌, some, true, false, pos}
use dumbo.Message.{make_one_way_function_message, make_special_one_way_lambda_message}
use dumbo.Mpsc.Listed.{listed, listed-Fifo}
use dumbo.Smp.Routing.{queued}
use dumbo.Reactor.{World}
use dumbo.Application.{Application, make_reactors, shutdown}
use dumbo.Application.Shutdown.{shutdown_lem}

abbrev two : Application listed
two = record {
  smp = record { cpu_num = pos 2; inboxes = (0, 4 ∷ []) ∷ (0, []) ∷ [] };
  reactors = record { cpu = 0; own_thread = false } ∷ record { cpu = 1; own_thread = true } ∷ [];
}

abbrev world : World ℕ
world = record {
  store = λ a. make_special_one_way_lambda_message 0;
  acts = [];
  ended = false;
  finished = [];
}

shutdown_lem_example :
    (w : World ℕ) × (app : Application listed) × (shutdown listed two 50 world ≡ some (w, app))
    × ((i : ℕ)
        → i < 2
        → queued listed listed-Fifo app.smp i
          ≡ queued listed listed-Fifo two.smp i ++ (50 + i) ∷ [])
    × ((i : ℕ) → i < 2 → w.store (50 + i) ≡ make_one_way_function_message i)
    × ((a : ℕ) → a < 50 → w.store a ≡ make_special_one_way_lambda_message 0)
unfolding make_reactors
shutdown_lem_example =
    shutdown_lem listed listed-Fifo ℕ 2 50 world two refl (record { cpus = refl; boxes = refl })
