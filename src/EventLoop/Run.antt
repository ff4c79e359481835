-- ===== src/EventLoop/Run.antt =====
-- When the event loop of reactor.cpp ends.
use dumbo.Base.{
  ℕ, zero, suc, ◌+◌, ◌≤◌, ◌<◌, ◌≡◌, ◌≢◌, refl, ap, ◌∙◌, inl, inr, none, some, true, false,
  Bool-cases, arith, le→ltb,
}
use dumbo.Base.Results.{Result, ok, err, ◌>>=◌}
use dumbo.Mpsc.{Disruptor}
use dumbo.Pool.{Pool, stop_workers}
use dumbo.Poller.{Kernel, IoEvent}
use dumbo.Reactor.{World}
use dumbo.EventLoop.{EventLoop, default_contexts, turn, going, stop, loop, event_loop}

bind-ok {ℓ κ} :
    {A : Type ℓ} {B : Type κ} (m : Result A) (f : A → Result B) (b : B)
    → (m >>= f) ≡ ok b
    → (a : A) × (m ≡ ok a) × (f a ≡ ok b)
bind-ok (ok a) f b e = (a, refl, e)
bind-ok (err s) f b e = absurd (ground (arith, e))

-- `none` is no result of a loop that ended.
ended-ok {ℓ} :
    {A : Type ℓ} (m : Result A) (t : A) → (m >>= λ a. ok (some a)) ≡ ok (some t) → m ≡ ok t
ended-ok (ok a) t e = ground (arith, e)
ended-ok (err s) t e = absurd (ground (arith, e))

going_on {ℓ} : {A : Type ℓ} (t : A) → ok none ≢ ok (some t)
going_on t e = ground (arith, e)

module _ {R : Type 0} (k : Kernel) (complete : IoEvent → World R → World R) (d : Disruptor ℕ)
    (yield : EventLoop k complete d → Result (EventLoop k complete d)) where
  abbrev pub Loop : Type 0
  Loop = EventLoop k complete d

  -- `n` turns, each of which the condition of the loop lets in, and the fibers' steps after them.
  pub data Turns : ℕ → Loop → Loop → Type 0 where
    rest : (l : Loop) → Turns 0 l l
    next :
        {n : ℕ} (l l₁ l₂ l₃ : Loop)
        → going k complete d l ≡ true
        → turn k complete d l ≡ ok l₁
        → yield l₁ ≡ ok l₂
        → Turns n l₂ l₃
        → Turns (suc n) l l₃

  -- `loop` on a known condition.
  loop_ends :
      (fuel : ℕ) (l : Loop)
      → going k complete d l ≡ false
      → loop k complete d yield fuel l ≡ (stop k complete d yield l >>= λ l'. ok (some l'))
  unfolding loop
  loop_ends zero l g = rw g
  loop_ends (suc fuel) l g = rw g

  loop_goes :
      (fuel : ℕ) (l l₁ l₂ : Loop)
      → going k complete d l ≡ true
      → turn k complete d l ≡ ok l₁
      → yield l₁ ≡ ok l₂
      → loop k complete d yield (suc fuel) l ≡ loop k complete d yield fuel l₂
  unfolding loop
  loop_goes fuel l l₁ l₂ g e₁ e₂ = rw (g, e₁, e₂)

  loop-Turns :
      (n m : ℕ) (l l' : Loop)
      → Turns n l l'
      → loop k complete d yield (n + m) l ≡ loop k complete d yield m l'
  loop-Turns n m l l' (rest l₀) = ap (λ (f : ℕ). loop k complete d yield f l₀) (omega arith)
  loop-Turns n m l l' (next {n = n'} l₀ l₁ l₂ l₃ g e₁ e₂ t) =
      ap (λ (f : ℕ). loop k complete d yield f l₀) {y = suc (n' + m)} (omega arith)
      ∙ loop_goes (n' + m) l₀ l₁ l₂ g e₁ e₂
      ∙ loop-Turns n' m l₂ l₃ t

  -- The condition of the loop no longer holds.
  abbrev pub Over : Loop → Type 0
  Over l = (l.running ≡ false) × (l.contexts ≤ 2)

  Over-going : (l : Loop) → Over l → going k complete d l ≡ false
  unfolding going
  Over-going l (e, h) = rw (e, le→ltb default_contexts l.contexts h)

  going-Over : (l : Loop) → going k complete d l ≡ false → Over l
  unfolding going
  going-Over l e = ground arith

  pub running-going : (l : Loop) → l.running ≡ true → going k complete d l ≡ true
  unfolding going
  running-going l e = rw e

  stop_ok :
      (l : Loop) (pool : Pool)
      → stop_workers l.pool ≡ some pool
      → stop k complete d yield l ≡ ok (record l { pool = pool })
  unfolding stop
  stop_ok l pool e = rw e

  -- If after `n` turns the reactor was told to stop and no fiber is left, and the free workers can
  -- be stopped, then the loop ends after these turns and stops them.
  pub event_loop_ends :
      (n more : ℕ) (l l' : Loop) (pool : Pool)
      → Turns n (record l { running = true }) l'
      → Over l'
      → stop_workers l'.pool ≡ some pool
      → event_loop k complete d yield (n + more) l ≡ ok (some (record l' { pool = pool }))
  unfolding event_loop
  event_loop_ends n more l l' pool t o e =
      loop-Turns n more (record l { running = true }) l' t
      ∙ loop_ends more l' (Over-going l' o)
      ∙ ap (λ a. a >>= λ l₁. ok (some l₁)) (stop_ok l' pool e)

  at_least_one : (n : ℕ) (l l' : Loop) → Turns n l l' → l.running ≡ true → Over l' → 0 < n
  at_least_one n l l' (rest l₀) r (o, h) = ground arith
  at_least_one n l l' (next l₀ l₁ l₂ l₃ g e₁ e₂ t) r o = omega arith

  loop-ok :
      (fuel : ℕ) (l t : Loop)
      → loop k complete d yield fuel l ≡ ok (some t)
      → (n : ℕ) × (l' : Loop) × (n ≤ fuel)
        × Turns n l l'
        × (going k complete d l' ≡ false)
        × (stop k complete d yield l' ≡ ok t)
  unfolding loop
  loop-ok zero l t e = elim (Bool-cases (going k complete d l)) [
    | inl g ↦ absurd (going_on t (rw g at e))
    | inr g ↦ (0, l, omega arith, rest l, g, ended-ok (stop k complete d yield l) t (rw g at e))
  ]
  loop-ok (suc fuel) l t e = elim (Bool-cases (going k complete d l)) [
    | inl g ↦
        let (l₂, e₁₂, e₃) =
          bind-ok (turn k complete d l >>= yield) (loop k complete d yield fuel) (some t)
            (rw g at e) in
        let (l₁, e₁, e₂) = bind-ok (turn k complete d l) yield l₂ e₁₂ in
        let (n, l', h, ts, o, s) = loop-ok fuel l₂ t e₃ in
        (suc n, l', omega arith, next l l₁ l₂ l' g e₁ e₂ ts, o, s)
    | inr g ↦ (0, l, omega arith, rest l, g, ended-ok (stop k complete d yield l) t (rw g at e))
  ]

  -- The loop has only these ends: when it returned, at least one turn was taken, after the last one
  -- the reactor was told to stop and no fiber was left, and the free workers were stopped then.
  pub event_loop_only :
      (fuel : ℕ) (l t : Loop)
      → event_loop k complete d yield fuel l ≡ ok (some t)
      → (n : ℕ) × (l' : Loop) × (0 < n)
        × (n ≤ fuel)
        × Turns n (record l { running = true }) l'
        × Over l'
        × (stop k complete d yield l' ≡ ok t)
  unfolding event_loop going
  event_loop_only fuel l t e =
      let (n, l', h, ts, g, s) = loop-ok fuel (record l { running = true }) t e in
      (
        n,
        l',
        at_least_one n (record l { running = true }) l' ts refl (going-Over l' g),
        h,
        ts,
        going-Over l' g,
        s,
      )
