-- ===== src/Message/Resumes.antt =====
-- The fibers that `finish` resumes, for each class of message.
use dumbo.Base.{
  ℕ, ◌^◌, ◌%◌, ◌≡◌, refl, List, [], ◌∷◌, Option, none, some, arith, true, false, ◌==◌,
  if◌then◌else◌, Bool, sub64, Bool-cases, inl, inr,
}
use dumbo.Base.Members.{is_in}
use dumbo.Message.{
  Class, fiber_lambda, fiber_io, one_way_function, lambda, one_way_lambda, app_lambda, Message,
  Effect, resume, delete, rethrow, finish, finish_class, delete_and_rethrow,
}

-- The fibers that effects resume, in order.
unfoldable pub resumed : List Effect → List ℕ
resumed [] = []
resumed (resume c ∷ es) = c ∷ resumed es
resumed (delete ∷ es) = resumed es
resumed (rethrow e ∷ es) = resumed es

-- The fiber of an answered call, and that of an IO message whose last event has come.
unfoldable pub resumed_class : Class → List ℕ
resumed_class (fiber_lambda c) = c ∷ []
resumed_class (fiber_io n c) = if n % 2 ^ 64 == 1 then c ∷ [] else []
resumed_class one_way_function = []
resumed_class lambda = []
resumed_class one_way_lambda = []
resumed_class app_lambda = []

-- Effects throw a kept exception.
unfoldable pub rethrows : List Effect → Bool
rethrows [] = false
rethrows (resume c ∷ es) = rethrows es
rethrows (delete ∷ es) = rethrows es
rethrows (rethrow e ∷ es) = true

-- The classes that throw the exception that they have kept.
unfoldable pub throws_class : Class → Option ℕ → Bool
throws_class one_way_function (some e) = true
throws_class one_way_lambda (some e) = true
throws_class c e = false

rethrows-delete_and_rethrow :
    (e : Option ℕ)
    → (rethrows (delete_and_rethrow e) ≡ throws_class one_way_function e)
      × (rethrows (delete_and_rethrow e) ≡ throws_class one_way_lambda e)
unfolding rethrows throws_class delete_and_rethrow
rethrows-delete_and_rethrow none = (refl, refl)
rethrows-delete_and_rethrow (some e) = (refl, refl)

rethrows-delete : (b : Bool) → rethrows (if b then delete ∷ [] else []) ≡ false
unfolding rethrows
rethrows-delete true = refl
rethrows-delete false = refl

resumed-delete_and_rethrow : (e : Option ℕ) → resumed (delete_and_rethrow e) ≡ []
unfolding resumed delete_and_rethrow
resumed-delete_and_rethrow none = refl
resumed-delete_and_rethrow (some e) = refl

module _ {R : Type 0} where
  finish_class-resumes :
      (c : Class) (m : Message R)
      → is_in 0 (resumed_class c) ≡ false
      → (m' : Message R) × (es : List Effect) × (finish_class c m ≡ some (m', es))
        × (resumed es ≡ resumed_class c)
        × (rethrows es ≡ throws_class c m.exception)
  unfolding finish_class resumed resumed_class rethrows throws_class
  finish_class-resumes (fiber_lambda c) m h = (m, resume c ∷ [], ground arith, refl, refl)
  finish_class-resumes (fiber_io n c) m h = elim (Bool-cases (sub64 n 1 == 0)) [
    | inl last ↦
        let e : (n % 2 ^ 64 == 1) ≡ true = ground arith in
        (record m { class = fiber_io (sub64 n 1) c }, resume c ∷ [], rw last, rw e, refl)
    | inr more ↦
        let e : (n % 2 ^ 64 == 1) ≡ false = ground arith in
        (record m { class = fiber_io (sub64 n 1) c }, [], rw more, rw e, refl)
  ]
  finish_class-resumes one_way_function m h = (
    m,
    delete_and_rethrow m.exception,
    refl,
    resumed-delete_and_rethrow m.exception,
    (rethrows-delete_and_rethrow m.exception).0,
  )
  finish_class-resumes lambda m h =
      (m, (if m.one_way then delete ∷ [] else []), refl, ground arith, rethrows-delete m.one_way)
  finish_class-resumes one_way_lambda m h = (
    m,
    delete_and_rethrow m.exception,
    refl,
    resumed-delete_and_rethrow m.exception,
    (rethrows-delete_and_rethrow m.exception).1,
  )
  finish_class-resumes app_lambda m h = (m, [], refl, refl, refl)

  -- What `finish` does to the message and its surroundings, if it resumes no null pointer.
  pub finish-resumes :
      (m : Message R)
      → is_in 0 (resumed_class m.class) ≡ false
      → (m' : Message R) × (es : List Effect) × (finish m ≡ some (m', es))
        × (resumed es ≡ resumed_class m.class)
        × (rethrows es ≡ throws_class m.class m.exception)
  unfolding finish
  finish-resumes m h = finish_class-resumes m.class m h
