-- ===== src/Application/Shutdown.antt =====
-- Whom the shutdown of application.hpp reaches.
use dumbo.Base.{
  ℕ, zero, suc, ◌+◌, ◌≤◌, ◌<◌, ◌≡◌, refl, sym, ap, ◌∙◌, [], ◌∷◌, ◌++◌, some, true, arith, ◌==◌,
  ==_refl, ne→==, if◌then◌else◌,
}
use dumbo.Base.Faults.{◌>>=◌}
use dumbo.Message.{make_one_way_function_message}
use dumbo.Mpsc.{Disruptor}
use dumbo.Mpsc.Fifo.{Fifo}
use dumbo.Smp.{Smp}
use dumbo.Smp.Routing.{IsValid, queued, submit_to_lem}
use dumbo.Reactor.{World, put}
use dumbo.Application.{Application, make_reactors, shutdown_each, shutdown}

==_of : (a b : ℕ) → a ≡ b → (a == b) ≡ true
==_of a b e = ap (λ (c : ℕ). a == c) (sym e) ∙ ==_refl a

module _ (d : Disruptor ℕ) (f : Fifo d) (R : Type 0) where
  -- The messages of a shutdown of `left` reactors from the cpu `c` on, at the addresses from `next`
  -- on, and nothing else.
  pub record Reached (c left next : ℕ) (w w' : World R) (smp smp' : Smp d) : Type 0 where
    pub before : (e : ℕ) → e < c → queued d f smp' e ≡ queued d f smp e
    pub each :
        (i : ℕ) → i < left → queued d f smp' (c + i) ≡ queued d f smp (c + i) ++ (next + i) ∷ []
    pub old : (a : ℕ) → a < next → w'.store a ≡ w.store a
    pub made : (i : ℕ) → i < left → w'.store (next + i) ≡ make_one_way_function_message (c + i)

  shutdown_each_lem :
      (left c next n : ℕ) (w : World R) (smp : Smp d)
      → IsValid d smp n
      → c + left ≤ n
      → (w' : World R) × (smp' : Smp d) × (shutdown_each d (make_reactors c left) next w smp
          ≡ some (w', smp'))
        × Reached c left next w w' smp smp'
  unfolding make_reactors shutdown_each
  shutdown_each_lem zero c next n w smp v h = (
    w,
    smp,
    refl,
    record {
      before = λ e p. refl;
      each = λ i p. absurd (omega arith);
      old = λ a p. refl;
      made = λ i p. absurd (omega arith);
    },
  )
  shutdown_each_lem (suc left) c next n w smp v h =
      let (smp₁, e₁, v₁, q₁) = submit_to_lem d f smp n c next v (omega arith) in
      let w₁ = put w next (make_one_way_function_message c) in
      let (w', smp', e', t) =
        shutdown_each_lem left (c + 1) (next + 1) n w₁ smp₁ v₁ (omega arith) in
      (w', smp', rw e₁ e', extend w' smp' smp₁ q₁ t)
    where
      extend :
          (w' : World R) (smp' smp₁ : Smp d)
          → ((e : ℕ)
              → queued d f smp₁ e
                ≡ (if c == e then queued d f smp e ++ next ∷ [] else queued d f smp e))
          → Reached
              (c + 1)
              left
              (next + 1)
              (put w next (make_one_way_function_message c))
              w'
              smp₁
              smp'
          → Reached c (suc left) next w w' smp smp'
      extend w' smp' smp₁ q t = record {
        before = λ e p. t.before e (omega arith) ∙ q e ∙ rw (ne→== c e (omega arith));
        each = λ i p. reached i (c + i) (next + i) refl refl p;
        old = λ a p. t.old a (omega arith) ∙ rw (ne→== next a (omega arith));
        made = λ i p. stored i (c + i) (next + i) refl refl p;
      }
        where
          reached :
              (i e a : ℕ)
              → e ≡ c + i
              → a ≡ next + i
              → i < suc left
              → queued d f smp' e ≡ queued d f smp e ++ a ∷ []
          reached zero e a x y p =
              t.before e (omega arith)
              ∙ q e
              ∙ rw (==_of c e (omega arith))
                  (ap (λ (m : ℕ). queued d f smp e ++ m ∷ []) {x = next} {y = a} (omega arith))
          reached (suc i) e a x y p =
              ap (queued d f smp') {x = e} {y = c + 1 + i} (omega arith)
              ∙ t.each i (omega arith)
              ∙ ap (λ ms. ms ++ (next + 1 + i) ∷ [])
                  (ap (queued d f smp₁) {x = c + 1 + i} {y = e} (omega arith)
                    ∙ q e
                    ∙ rw (ne→== c e (omega arith)))
              ∙ ap (λ (m : ℕ). queued d f smp e ++ m ∷ []) {x = next + 1 + i} {y = a} (omega arith)

          stored :
              (i e a : ℕ)
              → e ≡ c + i
              → a ≡ next + i
              → i < suc left
              → w'.store a ≡ make_one_way_function_message e
          stored zero e a x y p =
              t.old a (omega arith)
              ∙ rw (==_of next a (omega arith))
                  (ap (make_one_way_function_message {R = R}) {x = c} {y = e} (omega arith))
          stored (suc i) e a x y p =
              ap w'.store {x = a} {y = next + 1 + i} (omega arith)
              ∙ t.made i (omega arith)
              ∙ ap (make_one_way_function_message {R = R}) {x = c + 1 + i} {y = e} (omega arith)

  -- The shutdown of an application with the `n` reactors of its constructor and an inbox for each,
  -- whatever the inboxes hold by then, puts one message behind the others for each reactor, which
  -- is a function message for its cpu, and changes no message that was there.
  pub shutdown_lem :
      (n next : ℕ) (w : World R) (app : Application d)
      → app.reactors ≡ make_reactors 0 n
      → IsValid d app.smp n
      → (w' : World R) × (app' : Application d) × (shutdown d app next w ≡ some (w', app'))
        × ((i : ℕ) → i < n → queued d f app'.smp i ≡ queued d f app.smp i ++ (next + i) ∷ [])
        × ((i : ℕ) → i < n → w'.store (next + i) ≡ make_one_way_function_message i)
        × ((a : ℕ) → a < next → w'.store a ≡ w.store a)
  unfolding shutdown
  shutdown_lem n next w app e v =
      let (w', smp', s, t) = shutdown_each_lem n 0 next n w app.smp v (omega arith) in
      (
        w',
        record app { smp = smp' },
        ap (λ rs. shutdown_each d rs next w app.smp >>= λ r. some (r.0, record app { smp = r.1 })) e
            ∙ ap (λ r. r >>= λ p. some (p.0, record app { smp = p.1 })) s,
        λ i p.
            ap (queued d f smp') {x = i} {y = 0 + i} (omega arith)
            ∙ t.each i p
            ∙ ap (λ (m : ℕ). queued d f app.smp m ++ (next + i) ∷ []) (omega arith),
        λ i p.
            t.made i p
            ∙ ap (make_one_way_function_message {R = R}) {x = 0 + i} {y = i} (omega arith),
        t.old,
      )
