-- ===== src/Message/Tests.antt =====
-- Messages of each kind, and the theorems of message/*.hpp at them.
use dumbo.Base.{ℕ, ◌≡◌, [], ◌∷◌, some, arith}
use dumbo.Message.{Message, resume, make_fiber_lambda_message}
use dumbo.Message.Laws.{finish_times, waiting_for, finish_once}

abbrev call : Message ℕ
unfolding make_fiber_lambda_message
call = make_fiber_lambda_message 2 40

-- The message of a connection counts one event: the second does not resume the fiber.
finish_once_example :
    (m : Message ℕ) × (finish_times 2 (waiting_for call 1 40) ≡ some (m, resume 40 ∷ []))
finish_once_example = finish_once call 40 2 1 (omega arith) (omega arith) (omega arith)
