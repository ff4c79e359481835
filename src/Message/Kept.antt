-- ===== src/Message/Kept.antt =====
-- What `process` and `finish` leave of a message, whatever its class.
use dumbo.Base.{
  ℕ, ◌≡◌, refl, sym, subst, ap, ◌∙◌, ◌⊎◌, inl, inr, List, Option, some, true, false, arith,
  Bool-cases, ◌==◌,
}
use dumbo.Base.Faults.{nothing_done, done_same}
use dumbo.Message.{
  Outcome, returns, throws, Class, fiber_lambda, fiber_io, one_way_function, lambda, one_way_lambda,
  app_lambda, Message, Effect, process, finish, process_class, process_fiber_lambda,
  process_fiber_io, process_one_way_function, process_lambda, store_outcome, finish_class,
  finish_fiber, finish_fiber_io, finish_one_way_function, finish_lambda, finish_one_way_lambda,
  finish_app_lambda, make_fiber_lambda_message, make_one_way_lambda_message,
}
use dumbo.Message.Laws.{IsLambda}

module _ {R : Type 0} where
  -- A message that is one-way, or whose class keeps the outcome of its function.
  abbrev pub IsCall : Message R → Type 0
  IsCall m = (m.one_way ≡ true) ⊎ IsLambda m.class

  -- What a step leaves of a message: an answer is not taken back, and a call stays a call.
  pub record Keeps (m m' : Message R) : Type 0 where
    pub returned : m.returned ≡ true → m'.returned ≡ true
    pub one_way : m'.one_way ≡ m.one_way
    pub call : IsCall m → IsCall m'

  process_class-keeps :
      (c : Class) (m : Message R) (o : Outcome R)
      → (m.returned ≡ true → (process_class c m o).returned ≡ true)
        × ((process_class c m o).one_way ≡ m.one_way)
        × ((process_class c m o).class ≡ m.class)
        × (IsLambda c → (process_class c m o).returned ≡ true)
  unfolding process_class process_fiber_lambda process_fiber_io process_one_way_function
      process_lambda store_outcome
  process_class-keeps (fiber_lambda c) m (returns r) = (λ h. refl, refl, refl, λ h. refl)
  process_class-keeps (fiber_lambda c) m (throws e) = (λ h. refl, refl, refl, λ h. refl)
  process_class-keeps (fiber_io n c) m o = (λ h. h, refl, refl, λ h. absurd h)
  process_class-keeps one_way_function m (returns r) = (λ h. h, refl, refl, λ h. absurd h)
  process_class-keeps one_way_function m (throws e) = (λ h. h, refl, refl, λ h. absurd h)
  process_class-keeps lambda m (returns r) = (λ h. refl, refl, refl, λ h. refl)
  process_class-keeps lambda m (throws e) = (λ h. refl, refl, refl, λ h. refl)
  process_class-keeps one_way_lambda m (returns r) = (λ h. refl, refl, refl, λ h. refl)
  process_class-keeps one_way_lambda m (throws e) = (λ h. refl, refl, refl, λ h. refl)
  process_class-keeps app_lambda m (returns r) = (λ h. refl, refl, refl, λ h. refl)
  process_class-keeps app_lambda m (throws e) = (λ h. refl, refl, refl, λ h. refl)

  pub process-Keeps : (m : Message R) (o : Outcome R) → Keeps m (process m o)
  unfolding process
  process-Keeps m o =
      let (kept, one_way, class, answered) = process_class-keeps m.class m o in
      record {
        returned = kept;
        one_way = one_way;
        call =
            λ c. elim c [ inl h ↦ inl (one_way ∙ h) | inr l ↦ inr (subst IsLambda (sym class) l) ];
      }

  -- A call that is not one-way is answered once it was processed.
  pub answered_call :
      (m : Message R) (o : Outcome R)
      → IsCall m
      → (process m o).one_way ≡ false
      → (process m o).returned ≡ true
  unfolding process
  answered_call m o c e =
      let (kept, one_way, class, answered) = process_class-keeps m.class m o in
      elim c [ inl h ↦ absurd (ground (arith, one_way, h, e)) | inr l ↦ answered l ]

  pub Keeps-refl : (m : Message R) → Keeps m m
  Keeps-refl m = record { returned = λ h. h; one_way = refl; call = λ c. c }

  same-Keeps :
      (m m' : Message R) (es es' : List Effect)
      → ◌≡◌ {A = Option (Message R × List Effect)} (some (m, es)) (some (m', es'))
      → Keeps m m'
  same-Keeps m m' es es' e =
      subst (Keeps m) (ap (λ r. r.0) (done_same (m, es) (m', es') e)) (Keeps-refl m)

  finish_class-Keeps :
      (c : Class) (m m' : Message R) (es : List Effect)
      → m.class ≡ c
      → finish_class c m ≡ some (m', es)
      → Keeps m m'
  unfolding finish_class finish_fiber finish_fiber_io finish_one_way_function finish_lambda
      finish_one_way_lambda finish_app_lambda
  finish_class-Keeps (fiber_lambda context) m m' es q e = elim (Bool-cases (context == 0)) [
    | inl z ↦ absurd (nothing_done (m', es) (rw z at e))
    | inr z ↦ same-Keeps m m' _ es (rw z at e)
  ]
  finish_class-Keeps (fiber_io n context) m m' es q e =
      subst (Keeps m) (ap (λ r. r.0) (done_same _ (m', es) e)) (record {
        returned = λ h. h;
        one_way = refl;
        call = λ c. elim c [ inl h ↦ inl h | inr l ↦ absurd (subst IsLambda q l) ];
      })
  finish_class-Keeps one_way_function m m' es q e = same-Keeps m m' _ es e
  finish_class-Keeps lambda m m' es q e = same-Keeps m m' _ es e
  finish_class-Keeps one_way_lambda m m' es q e = same-Keeps m m' _ es e
  finish_class-Keeps app_lambda m m' es q e = same-Keeps m m' _ es e

  pub finish-Keeps : (m m' : Message R) (es : List Effect) → finish m ≡ some (m', es) → Keeps m m'
  unfolding finish
  finish-Keeps m m' es e = finish_class-Keeps m.class m m' es refl e

  pub Keeps-trans : (m₁ m₂ m₃ : Message R) → Keeps m₁ m₂ → Keeps m₂ m₃ → Keeps m₁ m₃
  Keeps-trans m₁ m₂ m₃ h k = record {
    returned = λ r. k.returned (h.returned r);
    one_way = k.one_way ∙ h.one_way;
    call = λ c. k.call (h.call c);
  }

pub run_at-IsCall :
    (R : Type 0) (cpu context : ℕ) → IsCall (make_fiber_lambda_message {R = R} cpu context)
unfolding make_fiber_lambda_message
run_at-IsCall R cpu context = inr tt

pub run_at_async-IsCall : (R : Type 0) (cpu : ℕ) → IsCall (make_one_way_lambda_message {R = R} cpu)
unfolding make_one_way_lambda_message
run_at_async-IsCall R cpu = inl refl
