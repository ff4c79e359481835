-- ===== src/Message.antt =====
-- include/dumbo/v1/reactor/message/*.hpp and src/reactor/message.cpp: what travels between
-- reactors. The class of a message is its constructor of `Class`. A function that a message calls
-- is outside the program: its outcome is an argument of `process`. What `finish` does to the world
-- is a list of effects. A context is its address, 0 the null pointer.
pub mod Laws
pub mod Kept
pub mod Resumes
pub mod Offloaded
mod Tests
use dumbo.Base.{
  ℕ, ◌+◌, ◌-◌, ◌^◌, ◌%◌, List, [], ◌∷◌, Option, none, some, Bool, true, false, not, ◌==◌,
  if◌then◌else◌, sub64,
}
use dumbo.Base.Faults.{◌>>=◌, ◌>>◌, assert}

-- How a call of the message's function ends: by a value, or by an exception.
pub data Outcome (R : Type 0) : Type 0 where
  returns : R → Outcome R
  throws : ℕ → Outcome R

-- The classes, with the fields that they add.
pub data Class : Type 0 where
  fiber_lambda : ℕ → Class
  fiber_io : ℕ → ℕ → Class
  one_way_function : Class
  lambda : Class
  one_way_lambda : Class
  app_lambda : Class

-- `Message`, with `result_` of the lambda classes.
pub record Message (R : Type 0) : Type 0 where
  pub class : Class
  pub cpu : ℕ
  pub one_way : Bool
  pub returned : Bool
  pub worker : Option ℕ
  pub exception : Option ℕ
  pub result : Option R

pub data Effect : Type 0 where
  resume : ℕ → Effect
  delete : Effect
  rethrow : ℕ → Effect

-- `delete this`, after which a kept exception is thrown.
delete_and_rethrow : Option ℕ → List Effect
delete_and_rethrow none = delete ∷ []
delete_and_rethrow (some e) = delete ∷ rethrow e ∷ []

-- FiberIOMessage::set_count; no other class has it.
set_class_count : Class → ℕ → Class
set_class_count (fiber_io n c) count = fiber_io count c
set_class_count c count = c

module _ {R : Type 0} where
  message : Class → ℕ → Bool → Bool → Message R
  message c cpu one_way returned = record {
    class = c;
    cpu = cpu;
    one_way = one_way;
    returned = returned;
    worker = none;
    exception = none;
    result = none;
  }

  pub make_fiber_lambda_message : ℕ → ℕ → Message R
  unfolding message
  make_fiber_lambda_message cpu context = message (fiber_lambda context) cpu false false

  pub make_fiber_io_message : ℕ → ℕ → ℕ → Message R
  unfolding message
  make_fiber_io_message cpu count context = message (fiber_io count context) cpu false true

  pub make_one_way_function_message : ℕ → Message R
  unfolding message
  make_one_way_function_message cpu = message one_way_function cpu true false

  pub make_lambda_message : ℕ → Bool → Message R
  unfolding message
  make_lambda_message cpu one_way = message lambda cpu one_way false

  pub make_one_way_lambda_message : ℕ → Message R
  unfolding message
  make_one_way_lambda_message cpu = message one_way_lambda cpu true false

  pub make_special_one_way_lambda_message : ℕ → Message R
  unfolding message
  make_special_one_way_lambda_message cpu = message app_lambda cpu true false

  pub is_exception : Message R → Bool
  is_exception m = elim m.exception [ none ↦ false | some e ↦ true ]

  pub set_data : Message R → ℕ → Message R
  set_data m w = record m { worker = some w }

  -- The `try` of the lambda classes: the value or the exception is kept, never thrown.
  store_outcome : Message R → Outcome R → Message R
  store_outcome m (returns r) = record m { result = some r }
  store_outcome m (throws e) = record m { exception = some e }

  process_fiber_lambda : Message R → Outcome R → Message R
  unfolding store_outcome
  process_fiber_lambda m o = record (store_outcome m o) { returned = true }

  process_fiber_io : Message R → Outcome R → Message R
  process_fiber_io m o = m

  process_one_way_function : Message R → Outcome R → Message R
  process_one_way_function m (returns r) = m
  process_one_way_function m (throws e) = record m { exception = some e }

  process_lambda : Message R → Outcome R → Message R
  unfolding store_outcome
  process_lambda m o = record (store_outcome m o) { returned = true }

  process_class : Class → Message R → Outcome R → Message R
  unfolding process_fiber_lambda process_fiber_io process_one_way_function process_lambda
  process_class (fiber_lambda c) m o = process_fiber_lambda m o
  process_class (fiber_io n c) m o = process_fiber_io m o
  process_class one_way_function m o = process_one_way_function m o
  process_class lambda m o = process_lambda m o
  process_class one_way_lambda m o = process_lambda m o
  process_class app_lambda m o = process_lambda m o

  pub process : Message R → Outcome R → Message R
  unfolding process_class
  process m o = process_class m.class m o

  finish_fiber : ℕ → Message R → Option (Message R × List Effect)
  finish_fiber context m = do assert (not (context == 0)); some (m, resume context ∷ [])

  finish_fiber_io : ℕ → ℕ → Message R → Option (Message R × List Effect)
  finish_fiber_io count context m =
      let count' = sub64 count 1 in
      some (
        record m { class = fiber_io count' context },
        (if count' == 0 then resume context ∷ [] else []),
      )

  finish_one_way_function : Message R → Option (Message R × List Effect)
  unfolding delete_and_rethrow
  finish_one_way_function m = some (m, delete_and_rethrow m.exception)

  finish_lambda : Message R → Option (Message R × List Effect)
  finish_lambda m = some (m, if m.one_way then delete ∷ [] else [])

  finish_one_way_lambda : Message R → Option (Message R × List Effect)
  unfolding delete_and_rethrow
  finish_one_way_lambda m = some (m, delete_and_rethrow m.exception)

  finish_app_lambda : Message R → Option (Message R × List Effect)
  finish_app_lambda m = some (m, [])

  finish_class : Class → Message R → Option (Message R × List Effect)
  unfolding finish_fiber finish_fiber_io finish_one_way_function finish_lambda finish_one_way_lambda
      finish_app_lambda
  finish_class (fiber_lambda context) m = finish_fiber context m
  finish_class (fiber_io count context) m = finish_fiber_io count context m
  finish_class one_way_function m = finish_one_way_function m
  finish_class lambda m = finish_lambda m
  finish_class one_way_lambda m = finish_one_way_lambda m
  finish_class app_lambda m = finish_app_lambda m

  -- `none` is the failed assertion.
  pub finish : Message R → Option (Message R × List Effect)
  unfolding finish_class
  finish m = finish_class m.class m

  -- `result()` of the lambda classes: it rethrows the kept exception, and otherwise returns the
  -- value, which is not initialised before `process`.
  pub result_of : Message R → Option (Outcome R)
  result_of m = elim m.exception [
    | some e ↦ some (throws e)
    | none ↦ elim m.result [ none ↦ none | some r ↦ some (returns r) ]
  ]

  pub set_count : Message R → ℕ → Message R
  unfolding set_class_count
  set_count m count = record m { class = set_class_count m.class count }
