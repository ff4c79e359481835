-- ===== src/Message/Offloaded.antt =====
-- A call whose function a worker of the thread pool runs.
use dumbo.Base.{ℕ, ◌≡◌, ◌≢◌, refl, [], ◌∷◌, some, true, ne→==}
use dumbo.Message.{
  Outcome, returns, throws, Message, resume, process, finish, result_of, set_data,
  make_fiber_lambda_message,
}

-- The message of a call after `process` and `set_data`.
abbrev pub offloaded : {R : Type 0} → ℕ → ℕ → ℕ → Outcome R → Message R
offloaded cpu context worker o = set_data (process (make_fiber_lambda_message cpu context) o) worker

-- It resumes the fiber when it is finished, goes back to the cpu that it came from, has the outcome
-- of the function, and names the worker.
pub offloaded_lem :
    {R : Type 0} (cpu context worker : ℕ) (o : Outcome R)
    → context ≢ 0
    → let m = offloaded cpu context worker o in
      (finish m ≡ some (m, resume context ∷ []))
      × (m.returned ≡ true)
      × (m.cpu ≡ cpu)
      × (result_of m ≡ some o)
      × (m.worker ≡ some worker)
unfolding process finish make_fiber_lambda_message result_of set_data
offloaded_lem cpu context worker (returns r) z = (rw (ne→== context 0 z), refl, refl, refl, refl)
offloaded_lem cpu context worker (throws e) z = (rw (ne→== context 0 z), refl, refl, refl, refl)
