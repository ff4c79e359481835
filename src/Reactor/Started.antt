-- ===== src/Reactor/Started.antt =====
-- The fibers that `process_fn` of reactor.cpp starts, and the messages that it finishes.
use mathlib.Core.List.{append-nil}
use dumbo.Base.{
  ℕ, ◌+◌, ◌≡◌, refl, sym, ap, ◌∙◌, inl, inr, List, [], ◌∷◌, ◌++◌, some, true, false, Bool,
  Bool-cases, Option-cases, if◌then◌else◌, arith,
}
use dumbo.Base.Faults.{nothing_done, done_same}
use dumbo.Base.Members.{count, count-append, occurs}
use dumbo.Message.{Effect, finish}
use dumbo.Mpsc.Fifo.{visit}
use dumbo.Reactor.{
  Act, does, spawns, World, effects_of, finish_at, leave, throws_out, process_branch, process_fn,
  consume,
}
use dumbo.Reactor.Drain.{process_all-none}
use dumbo.Reactor.System.{spawned_in}

pub spawned_in-append : (us vs : List Act) → spawned_in (us ++ vs) ≡ spawned_in us ++ spawned_in vs
unfolding spawned_in
spawned_in-append [] vs = refl
spawned_in-append (spawns a ∷ us) vs = ap (◌∷◌ a) (spawned_in-append us vs)
spawned_in-append (does a e ∷ us) vs = spawned_in-append us vs

spawned_in-effects_of : (a : ℕ) (es : List Effect) → spawned_in (effects_of a es) ≡ []
unfolding spawned_in effects_of
spawned_in-effects_of a [] = refl
spawned_in-effects_of a (e ∷ es) = spawned_in-effects_of a es

module _ {R : Type 0} where
  -- The fibers that a world's acts have started.
  abbrev pub spawned : World R → List ℕ
  spawned w = spawned_in w.acts

  -- What `finish` leaves: it starts no fiber, and the message is one more that is finished.
  pub finish_at-Started :
      (w w' : World R) (a : ℕ) (es : List Effect)
      → finish_at w a ≡ some (w', es)
      → (spawned w' ≡ spawned w ++ []) × (w'.finished ≡ w.finished ++ a ∷ [])
  unfolding finish_at
  finish_at-Started w w' a es e = elim (Option-cases (finish (w.store a))) [
    | inl n ↦ absurd (nothing_done (w', es) (rw n at e))
    | inr ((m, fs), h) ↦
        let same = done_same _ (w', es) (rw h at e) in
        (
          ap (λ r. spawned r.0) (sym same)
              ∙ spawned_in-append w.acts (effects_of a fs)
              ∙ ap (λ xs. spawned w ++ xs) (spawned_in-effects_of a fs),
          ap (λ r. r.0.finished) (sym same),
        )
  ]

  -- An answered message is finished, and any other one starts a fiber.
  abbrev pub Started : Bool → ℕ → World R → World R → Type 0
  Started returned a w w' =
      (spawned w' ≡ spawned w ++ (if returned then [] else a ∷ []))
      × (w'.finished ≡ w.finished ++ (if returned then a ∷ [] else []))

  branch-Started :
      (returned : Bool) (a : ℕ) (w w' : World R)
      → process_branch returned a w ≡ some w'
      → Started returned a w w'
  unfolding process_branch leave spawned_in
  branch-Started false a w w' e =
      let same = done_same _ w' e in
      (
        ap (λ v. spawned v) (sym same) ∙ spawned_in-append w.acts (spawns a ∷ []),
        ap (λ v. v.finished) (sym same) ∙ sym (append-nil w.finished),
      )
  branch-Started true a w w' e = elim (Option-cases (finish_at w a)) [
    | inl n ↦ absurd (nothing_done w' (rw n at e))
    | inr ((v, es), h) ↦ elim (Bool-cases (throws_out es)) [
      | inl t ↦ absurd (nothing_done w' (rw t at (rw h at e)))
      | inr t ↦
          let same = done_same v w' (rw t at (rw h at e)) in
          let (fibers, done) = finish_at-Started w v a es h in
          (ap (λ u. spawned u) (sym same) ∙ fibers, ap (λ u. u.finished) (sym same) ∙ done)
    ]
  ]

  pub process_fn-Started :
      (a : ℕ) (w w' : World R) → process_fn a w ≡ some w' → Started (w.store a).returned a w w'
  unfolding process_fn
  process_fn-Started a w w' e = branch-Started (w.store a).returned a w w' e

  Started-count :
      (returned : Bool) (a b : ℕ) (w w' : World R)
      → Started returned a w w'
      → count b (spawned w') + count b w'.finished
        ≡ count b (spawned w) + count b w.finished + occurs b a
  Started-count true a b w w' (fibers, done) = omega (
    arith,
    ap (count b) fibers,
    ap (count b) done,
    count-append b (spawned w) [],
    count-append b w.finished (a ∷ []),
  )
  Started-count false a b w w' (fibers, done) = omega (
    arith,
    ap (count b) fibers,
    ap (count b) done,
    count-append b (spawned w) (a ∷ []),
    count-append b w.finished [],
  )

  -- Each message that is visited starts a fiber or is finished.
  pub count-visited :
      (b : ℕ) (xs : List ℕ) (w w' : World R)
      → visit consume xs (some w) ≡ some w'
      → count b (spawned w') + count b w'.finished
        ≡ count b (spawned w) + count b w.finished + count b xs
  count-visited b [] w w' e =
      let same = done_same w w' e in
      omega (arith, ap (λ v. count b (spawned v)) same, ap (λ v. count b v.finished) same)
  count-visited b (x ∷ xs) w w' e = elim (Option-cases (process_fn x w)) [
    | inl n ↦ absurd (nothing_done w' (sym (process_all-none xs) ∙ (rw n at e)))
    | inr (v, h) ↦ omega (
      arith,
      Started-count (w.store x).returned x b w v (process_fn-Started x w v h),
      count-visited b xs v w' (rw h at e),
    )
  ]
