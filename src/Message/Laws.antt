-- ===== src/Message/Laws.antt =====
-- The life of a message: what `process` keeps and what `finish` does, for each class.
use dumbo.Base.{
  ℕ, zero, suc, ◌+◌, ◌^◌, ◌<◌, ◌≡◌, ◌≢◌, refl, inl, inr, List, [], ◌∷◌, ◌++◌, Option, none, some,
  arith, true, false, ltb, lt→ltb, le→ltb, ◌==◌, ne→==, if◌then◌else◌, sub64, Bool-cases,
}
use dumbo.Base.Faults.{◌>>=◌}
use dumbo.Message.{
  Outcome, returns, throws, Class, fiber_lambda, fiber_io, one_way_function, lambda, one_way_lambda,
  app_lambda, Message, Effect, resume, delete, rethrow, process, finish, result_of,
  make_fiber_lambda_message, make_one_way_function_message, make_one_way_lambda_message,
  make_special_one_way_lambda_message,
}

-- The classes that keep the outcome of their function.
abbrev pub IsLambda : Class → Type 0
IsLambda (fiber_lambda c) = Unit
IsLambda (fiber_io n c) = ⊥
IsLambda one_way_function = ⊥
IsLambda lambda = Unit
IsLambda one_way_lambda = Unit
IsLambda app_lambda = Unit

-- The calls of `finish` until the counter passes zero.
abbrev pub calls_left : ℕ → ℕ
calls_left n = if n == 0 then 2 ^ 64 else n

pub fresh_call :
    (R : Type 0) (cpu context : ℕ)
    → (make_fiber_lambda_message {R = R} cpu context).returned ≡ false
unfolding make_fiber_lambda_message
fresh_call R cpu context = refl

pub fresh_one_way :
    (R : Type 0) (cpu : ℕ)
    → let m = make_one_way_lambda_message {R = R} cpu in
      (m.returned ≡ false) × (m.cpu ≡ cpu) × (m.one_way ≡ true)
unfolding make_one_way_lambda_message
fresh_one_way R cpu = (refl, refl, refl)

-- The message of the main function of an application.
pub fresh_app :
    (R : Type 0) (cpu : ℕ)
    → let m = make_special_one_way_lambda_message {R = R} cpu in
      (m.returned ≡ false) × (m.one_way ≡ true) × (m.class ≡ app_lambda) × (m.exception ≡ none)
unfolding make_special_one_way_lambda_message
fresh_app R cpu = (refl, refl, refl, refl)

module _ {R : Type 0} where
  process-outcome_class :
      (c : Class) (m : Message R) (o : Outcome R)
      → m.class ≡ c
      → IsLambda c
      → m.exception ≡ none
      → (result_of (process m o) ≡ some o)
        × ((process m o).returned ≡ true)
        × ((process m o).cpu ≡ m.cpu)
        × ((process m o).one_way ≡ m.one_way)
        × ((process m o).class ≡ m.class)
  unfolding process result_of
  process-outcome_class (fiber_lambda c) m o e l n = ground arith
  process-outcome_class (fiber_io k c) m o e l n = absurd l
  process-outcome_class one_way_function m o e l n = absurd l
  process-outcome_class lambda m o e l n = ground arith
  process-outcome_class one_way_lambda m o e l n = ground arith
  process-outcome_class app_lambda m o e l n = ground arith

  -- The outcome of the function of a lambda message that has no exception yet, value or exception,
  -- reaches `result`; the message is marked as answered, and keeps its class, its cpu and its
  -- direction.
  pub process_outcome :
      (m : Message R) (o : Outcome R)
      → IsLambda m.class
      → m.exception ≡ none
      → (result_of (process m o) ≡ some o)
        × ((process m o).returned ≡ true)
        × ((process m o).cpu ≡ m.cpu)
        × ((process m o).one_way ≡ m.one_way)
        × ((process m o).class ≡ m.class)
  process_outcome m o l n = process-outcome_class m.class m o refl l n

  pub app_result :
      (cpu : ℕ) (o : Outcome R)
      → result_of (process (make_special_one_way_lambda_message cpu) o) ≡ some o
  unfolding make_special_one_way_lambda_message
  app_result cpu o = (process_outcome (make_special_one_way_lambda_message cpu) o tt refl).0

  abbrev pub thrown_by : Outcome R → List Effect
  thrown_by (returns r) = []
  thrown_by (throws e) = rethrow e ∷ []

  -- A function message, which has no result, deletes itself, and its exception comes out of
  -- `finish` after that. So does a one-way lambda message.
  pub one_way_finish :
      (cpu : ℕ) (o : Outcome R)
      → let f = process (make_one_way_function_message cpu) o in
        let l = process (make_one_way_lambda_message cpu) o in
        (finish f ≡ some (f, delete ∷ thrown_by o)) × (finish l ≡ some (l, delete ∷ thrown_by o))
  unfolding process finish make_one_way_function_message make_one_way_lambda_message
  one_way_finish cpu (returns r) = (refl, refl)
  one_way_finish cpu (throws e) = (refl, refl)

  -- The call that a fiber makes on another reactor: once processed it resumes the fiber when it is
  -- finished, goes back to the cpu that it came from, and has the outcome of the function.
  pub answered_call :
      (cpu context : ℕ) (o : Outcome R)
      → context ≢ 0
      → let m = process (make_fiber_lambda_message cpu context) o in
        (finish m ≡ some (m, resume context ∷ []))
        × (m.returned ≡ true)
        × (m.one_way ≡ false)
        × (m.cpu ≡ cpu)
        × (result_of m ≡ some o)
  unfolding process finish make_fiber_lambda_message result_of
  answered_call cpu context (returns r) z = (rw (ne→== context 0 z), refl, refl, refl, refl)
  answered_call cpu context (throws e) z = (rw (ne→== context 0 z), refl, refl, refl, refl)

  pub one_way-process :
      (cpu : ℕ) (o : Outcome R) → (process (make_one_way_lambda_message cpu) o).one_way ≡ true
  unfolding process make_one_way_lambda_message
  one_way-process cpu (returns r) = refl
  one_way-process cpu (throws e) = refl

  -- The effects of `finish` called `k` times on a message.
  unfoldable pub finish_times : ℕ → Message R → Option (Message R × List Effect)
  finish_times zero m = some (m, [])
  finish_times (suc k) m = do (m₁, es) ← finish m; (m₂, fs) ← finish_times k m₁; some (m₂, es ++ fs)

  -- The message of an IO operation whose counter stands at `n`.
  abbrev pub waiting_for : Message R → ℕ → ℕ → Message R
  waiting_for m n context = record m { class = fiber_io n context }

  module _ (m : Message R) (context : ℕ) where
    finish-waiting_for :
        (n : ℕ)
        → finish (waiting_for m n context)
          ≡ some (
            waiting_for m (sub64 n 1) context,
            (if sub64 n 1 == 0 then resume context ∷ [] else []),
          )
    unfolding finish
    finish-waiting_for n = refl

    -- No call before the last resumes the fiber.
    finish_early :
        (k n : ℕ)
        → n < 2 ^ 64
        → k < calls_left n
        → (m' : Message R) × (finish_times k (waiting_for m n context) ≡ some (m', []))
    unfolding finish_times
    finish_early zero n small h = (waiting_for m n context, refl)
    finish_early (suc k) n small h =
        let (m', e) = finish_early k (sub64 n 1) (omega arith) (ground arith) in
        (m', rw (finish-waiting_for n, ne→== (sub64 n 1) 0 (ground arith), e))

    -- An IO message that counts `n` events, `n` not 0, resumes its fiber when the last of them is
    -- finished, and not again: of `k` calls of `finish` none resumes it if `k` is less than `n`,
    -- and exactly one does otherwise, for `k` below `n + 2 ^ 64`, where the counter comes round.
    pub finish_once :
        (k n : ℕ)
        → n < 2 ^ 64
        → 0 < n
        → k < n + 2 ^ 64
        → (m' : Message R) × (finish_times k (waiting_for m n context)
            ≡ some (m', (if ltb k n then [] else resume context ∷ [])))
    unfolding finish_times
    finish_once zero n small h z = (waiting_for m n context, rw (lt→ltb 0 n h))
    finish_once (suc k) n small h z = elim (Bool-cases (sub64 n 1 == 0)) [
      | inl last ↦
          let (m', e) = finish_early k (sub64 n 1) (omega arith) (ground arith) in
          (m', rw (finish-waiting_for n, last, e, le→ltb (suc k) n (ground arith)))
      | inr more ↦
          let (m', e) = finish_once k (sub64 n 1) (omega arith) (ground arith) (ground arith) in
          (m', rw (finish-waiting_for n, more, e) (ground arith))
    ]
