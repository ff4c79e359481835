-- ===== src/Reactor/Dispatch.antt =====
-- The way of a message through the reactors of reactor.cpp.
use dumbo.Base.{
  ℕ, ◌<◌, ◌≡◌, ◌≢◌, refl, ap, ◌∙◌, List, [], ◌∷◌, ◌++◌, some, Bool, true, false, ◌||◌, ◌==◌,
  ==_refl, ne→==, if◌then◌else◌,
}
use dumbo.Base.Faults.{◌>>=◌}
use dumbo.Message.{
  Outcome, returns, throws, Message, Effect, resume, delete, process, finish, result_of,
  make_fiber_lambda_message, make_one_way_lambda_message,
}
use dumbo.Message.Laws.{
  one_way_finish, thrown_by, answered_call, fresh_call, fresh_one_way, one_way-process,
}
use dumbo.Mpsc.{Disruptor}
use dumbo.Mpsc.Fifo.{Fifo}
use dumbo.Smp.{Smp}
use dumbo.Smp.Routing.{IsValid, queued, submit_to_lem}
use dumbo.Reactor.{
  does, spawns, World, put, add_acts, finished_with, finish_at, leave, effects_of, process_branch,
  process_fn, settle, fiber_body, run_at, run_at_async, throws_out,
}

-- What the inboxes hold after a message for `cpu`.
abbrev pub Behind : (d : Disruptor ℕ) → Fifo d → Smp d → Smp d → ℕ → ℕ → Type 0
Behind d f s s' cpu a =
    (e : ℕ) → queued d f s' e ≡ (if cpu == e then queued d f s e ++ a ∷ [] else queued d f s e)

module _ {R : Type 0} where
  abbrev pub threw : Outcome R → Bool
  threw (returns r) = false
  threw (throws e) = true

  throws_out-thrown_by : (o : Outcome R) → throws_out (delete ∷ thrown_by o) ≡ threw o
  unfolding throws_out
  throws_out-thrown_by (returns r) = refl
  throws_out-thrown_by (throws e) = refl

  pub store-put : (w : World R) (a : ℕ) (m : Message R) → (put w a m).store a ≡ m
  store-put w a m = rw (==_refl a)

  -- A message that is not answered starts a fiber, whatever its class.
  pub process_fn-spawns :
      (w : World R) (a : ℕ)
      → (w.store a).returned ≡ false
      → process_fn a w ≡ some (add_acts w (spawns a ∷ []))
  unfolding process_fn
  process_fn-spawns w a e = rw e

  finish_at-lem :
      (w : World R) (a : ℕ) (m : Message R) (es : List Effect)
      → finish (w.store a) ≡ some (m, es)
      → finish_at w a ≡ some (finished_with w a m (effects_of a es), es)
  unfolding finish_at
  finish_at-lem w a m es e = rw e

  -- A message that is answered and that resumes a fiber when it is finished does just that.
  pub process_fn-resumes :
      (w : World R) (a context : ℕ) (m : Message R)
      → w.store a ≡ m
      → m.returned ≡ true
      → finish m ≡ some (m, resume context ∷ [])
      → process_fn a w ≡ some (finished_with w a m (does a (resume context) ∷ []))
  unfolding process_fn effects_of process_branch leave throws_out
  process_fn-resumes w a context m e r fin =
      ap (λ b. process_branch b a w) (ap (λ k. k.returned) e ∙ r)
      ∙ ap (λ f. f >>= leave) (finish_at-lem w a m (resume context ∷ []) (ap finish e ∙ fin))

  process_fn-answer :
      (w : World R) (a cpu context : ℕ) (o : Outcome R)
      → context ≢ 0
      → w.store a ≡ process (make_fiber_lambda_message cpu context) o
      → process_fn a w
        ≡ some (
            finished_with w a
              ((process (make_fiber_lambda_message cpu context) o))
              (does a (resume context) ∷ []))
  process_fn-answer w a cpu context o z e =
      let (fin, r, ow, c, res) = answered_call cpu context o z in
      process_fn-resumes w a context (process (make_fiber_lambda_message cpu context) o) e r fin

  module _ (d : Disruptor ℕ) where
    fiber_body-lem :
        (w : World R) (a cpu : ℕ) (one_way : Bool) (m : Message R) (o : Outcome R) (smp : Smp d)
        → process (w.store a) o ≡ m
        → m.one_way ≡ one_way
        → m.cpu ≡ cpu
        → fiber_body d a o w smp ≡ settle d one_way cpu a (put w a m) smp
    unfolding fiber_body
    fiber_body-lem w a cpu one_way m o smp e h c =
        ap (λ k. settle d k.one_way k.cpu a (put w a k) smp) e
        ∙ ap (λ b. settle d b m.cpu a (put w a m) smp) h
        ∙ ap (λ k. settle d one_way k a (put w a m) smp) c

    fiber_body-one_way :
        (w : World R) (a cpu : ℕ) (o : Outcome R) (smp : Smp d)
        → w.store a ≡ make_one_way_lambda_message cpu
        → (w' : World R) × (fiber_body d a o w smp ≡ some (w', smp))
          × (w'.acts ≡ w.acts ++ effects_of a (delete ∷ thrown_by o))
          × (w'.ended ≡ (w.ended || threw o))
    unfolding settle
    fiber_body-one_way w a cpu o smp e =
        let l = process (make_one_way_lambda_message cpu) o in
        let es = delete ∷ thrown_by o in
        let w₁ = put w a l in
        let w₂ = finished_with w₁ a l (effects_of a es) in
        (
          record w₂ { ended = w₂.ended || throws_out es },
          fiber_body-lem w a l.cpu true l o smp (ap (λ k. process k o) e) (one_way-process cpu o)
                refl
              ∙ ap (λ r. r >>= λ k. some (record k.0 { ended = k.0.ended || throws_out k.1 }, smp))
                  (finish_at-lem w₁ a l es
                    (ap finish (store-put w a l) ∙ (one_way_finish cpu o).1)),
          refl,
          ap (λ b. w.ended || b) (throws_out-thrown_by o),
        )

    module _ (f : Fifo d) where
      fiber_body-answer :
          (w : World R) (a cpu context n : ℕ) (o : Outcome R) (smp : Smp d)
          → w.store a ≡ make_fiber_lambda_message cpu context
          → context ≢ 0
          → IsValid d smp n
          → cpu < n
          → (smp' : Smp d) × (fiber_body d a o w smp
              ≡ some (put w a (process (make_fiber_lambda_message cpu context) o), smp'))
            × IsValid d smp' n
            × Behind d f smp smp' cpu a
      unfolding settle
      fiber_body-answer w a cpu context n o smp e z v h =
          let m = process (make_fiber_lambda_message cpu context) o in
          let (fin, r, ow, c, res) = answered_call cpu context o z in
          let (smp', e', v', q) = submit_to_lem d f smp n cpu a v h in
          (smp', fiber_body-lem w a cpu false m o smp (ap (λ k. process k o) e) ow c ∙ rw e', v', q)

      -- A call of `run_at` from a fiber on a valid cpu to a valid cpu comes back with the outcome
      -- of its function, value or exception. The reactors' worlds at the three moments of the call
      -- are `w`, `w₂` and `w₃`, where only the message at the address `a` has to be the one that
      -- was left there. `run_at` puts the message behind what waits for the target; the target
      -- starts a fiber for it, which puts the processed message behind what waits for the calling
      -- reactor; that one resumes the calling fiber, once, and the message's result is the outcome.
      pub remote_call :
          (w w₂ w₃ : World R) (smp smp₂ : Smp d) (a cpu target context n : ℕ) (o : Outcome R)
          → context ≢ 0
          → cpu < n
          → target < n
          → IsValid d smp n
          → IsValid d smp₂ n
          → w₂.store a ≡ make_fiber_lambda_message cpu context
          → w₃.store a ≡ process (make_fiber_lambda_message cpu context) o
          → ((smp₁ : Smp d) × (run_at d cpu target context a w smp
                ≡ some (put w a (make_fiber_lambda_message cpu context), smp₁))
              × Behind d f smp smp₁ target a)
            × (process_fn a w₂ ≡ some (add_acts w₂ (spawns a ∷ [])))
            × ((smp₃ : Smp d) × (fiber_body d a o w₂ smp₂
                  ≡ some (put w₂ a (process (make_fiber_lambda_message cpu context) o), smp₃))
                × Behind d f smp₂ smp₃ cpu a)
            × ((w₄ : World R) × (process_fn a w₃ ≡ some w₄)
                × (w₄.acts ≡ w₃.acts ++ does a (resume context) ∷ [])
                × (result_of (w₄.store a) ≡ some o))
      unfolding run_at
      remote_call w w₂ w₃ smp smp₂ a cpu target context n o z hc ht v v₂ e₂ e₃ =
          let m = process (make_fiber_lambda_message cpu context) o in
          let (fin, r, ow, c, res) = answered_call cpu context o z in
          let (smp₁, s₁, v₁, q₁) = submit_to_lem d f smp n target a v ht in
          let (smp₃, s₃, v₃, q₃) = fiber_body-answer w₂ a cpu context n o smp₂ e₂ z v₂ hc in
          (
            (smp₁, rw (ne→== context 0 z, s₁), q₁),
            process_fn-spawns w₂ a (ap (λ k. k.returned) e₂ ∙ fresh_call R cpu context),
            (smp₃, s₃, q₃),
            (
              finished_with w₃ a m (does a (resume context) ∷ []),
              process_fn-answer w₃ a cpu context o z e₃,
              refl,
              ap result_of (store-put w₃ a m) ∙ res,
            ),
          )

      -- A message that `run_at_async` sent from a fiber to a valid cpu is never answered: the
      -- target starts a fiber for it that submits nothing, deletes the message, and ends the
      -- program if and only if the function threw an exception.
      pub one_way_call :
          (w w₂ : World R) (smp smp₂ : Smp d) (a cpu target context n : ℕ) (o : Outcome R)
          → context ≢ 0
          → target < n
          → IsValid d smp n
          → w₂.store a ≡ make_one_way_lambda_message cpu
          → ((smp₁ : Smp d) × (run_at_async d cpu target context a w smp
                ≡ some (put w a (make_one_way_lambda_message cpu), smp₁))
              × Behind d f smp smp₁ target a)
            × (process_fn a w₂ ≡ some (add_acts w₂ (spawns a ∷ [])))
            × ((w₃ : World R) × (fiber_body d a o w₂ smp₂ ≡ some (w₃, smp₂))
                × (w₃.acts ≡ w₂.acts ++ effects_of a (delete ∷ thrown_by o))
                × (w₃.ended ≡ (w₂.ended || threw o)))
      unfolding run_at_async
      one_way_call w w₂ smp smp₂ a cpu target context n o z ht v e₂ =
          let (fresh, c, ow) = fresh_one_way R cpu in
          let (smp₁, s₁, v₁, q₁) = submit_to_lem d f smp n target a v ht in
          (
            (smp₁, rw (ne→== context 0 z, s₁), q₁),
            process_fn-spawns w₂ a (ap (λ k. k.returned) e₂ ∙ fresh),
            fiber_body-one_way w₂ a cpu o smp₂ e₂,
          )
