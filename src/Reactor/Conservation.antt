-- ===== src/Reactor/Conservation.antt =====
-- That the reactors of reactor.cpp together neither lose nor double a message.
use dumbo.Base.{
  ℕ, ◌+◌, ◌≡◌, sym, ap, ◌∙◌, inl, inr, [], ◌∷◌, Option, some, true, false, Bool, Bool-cases,
  Option-cases, ◌==◌, take, pos, arith,
}
use dumbo.Base.Faults.{nothing_done, done_same, ◌>>=◌}
use dumbo.Base.Members.{count, count-append, count-erase, count-weigh, occurs}
use dumbo.Message.{process}
use dumbo.Mpsc.{Disruptor}
use dumbo.Mpsc.Fifo.{Fifo}
use dumbo.Smp.{Smp, submit_to}
use dumbo.Smp.Routing.{queued}
use dumbo.Smp.Totals.{total, total-submit_to, total-receive_all}
use dumbo.Reactor.{World, put, consume, finish_at, settle, fiber_body, run_at, run_at_async}
use dumbo.Reactor.Started.{spawned_in-append, finish_at-Started, count-visited}
use dumbo.Reactor.System.{
  spawned_in, System, Step, calls, calls_async, receives, runs, Steps, rest, next,
}

module _ {R : Type 0} (d : Disruptor ℕ) (f : Fifo d) where
  abbrev sent_with : World R → Bool × Smp d → Option (World R × Smp d)
  sent_with w r = some (w, r.1)

  sent_once :
      (smp smp' : Smp d) (cpu a : ℕ) (w w' : World R)
      → (submit_to d smp (pos cpu) a >>= sent_with w) ≡ some (w', smp')
      → (w' ≡ w)
        × ((b : ℕ)
            → total d f (occurs b) smp'.inboxes ≡ total d f (occurs b) smp.inboxes + occurs b a)
  sent_once smp smp' cpu a w w' e = elim (Option-cases (submit_to d smp (pos cpu) a)) [
    | inl n ↦ absurd (nothing_done (w', smp') (rw n at e))
    | inr ((sent, smp₁), h) ↦
        let same = sym (done_same (w, smp₁) (w', smp') (rw h at e)) in
        (
          ap (λ r. r.0) same,
          λ b.
              ap (λ r. total d f (occurs b) r.1.inboxes) same
              ∙ total-submit_to d f smp smp₁ (pos cpu) a sent h (occurs b),
        )
  ]

  -- A call submits its message once.
  total-run_at :
      (smp smp' : Smp d) (cpu target context a : ℕ) (w w' : World R)
      → run_at d cpu target context a w smp ≡ some (w', smp')
      → (w'.finished ≡ w.finished)
        × ((b : ℕ)
            → total d f (occurs b) smp'.inboxes ≡ total d f (occurs b) smp.inboxes + occurs b a)
  unfolding run_at
  total-run_at smp smp' cpu target context a w w' e = elim (Bool-cases (context == 0)) [
    | inl z ↦ absurd (nothing_done (w', smp') (rw z at e))
    | inr z ↦
        let (same, sums) = sent_once smp smp' target a _ w' (rw z at e) in
        (ap (λ v. v.finished) same, sums)
  ]

  total-run_at_async :
      (smp smp' : Smp d) (cpu target context a : ℕ) (w w' : World R)
      → run_at_async d cpu target context a w smp ≡ some (w', smp')
      → (w'.finished ≡ w.finished)
        × ((b : ℕ)
            → total d f (occurs b) smp'.inboxes ≡ total d f (occurs b) smp.inboxes + occurs b a)
  unfolding run_at_async
  total-run_at_async smp smp' cpu target context a w w' e = elim (Bool-cases (context == 0)) [
    | inl z ↦ absurd (nothing_done (w', smp') (rw z at e))
    | inr z ↦
        let (same, sums) = sent_once smp smp' target a _ w' (rw z at e) in
        (ap (λ v. v.finished) same, sums)
  ]

  -- A fiber that ran has sent its message back, or has finished it if it is one-way.
  total-settle :
      (one_way : Bool) (cpu a : ℕ) (w w' : World R) (smp smp' : Smp d)
      → settle d one_way cpu a w smp ≡ some (w', smp')
      → (b : ℕ)
      → total d f (occurs b) smp'.inboxes + count b w'.finished
        ≡ total d f (occurs b) smp.inboxes + count b w.finished + occurs b a
  unfolding settle
  total-settle false cpu a w w' smp smp' e b =
      let (same, sums) = sent_once smp smp' cpu a w w' e in
      omega (arith, sums b, ap (λ v. count b v.finished) same)
  total-settle true cpu a w w' smp smp' e b = elim (Option-cases (finish_at w a)) [
    | inl n ↦ absurd (nothing_done (w', smp') (rw n at e))
    | inr ((v, es), h) ↦
        let same = done_same _ (w', smp') (rw h at e) in
        omega (
          arith,
          count-append b w.finished (a ∷ []),
          ap (count b) (finish_at-Started w v a es h).1,
          ap (λ t. count b t.0.finished) same,
          ap (λ t. total d f (occurs b) t.1.inboxes) same,
        )
  ]

  -- In the inboxes, in fibers and finished a message stands as often as it was made.
  abbrev pub Conserved : System R d f → Type 0
  Conserved s =
      (a : ℕ)
      → total d f (occurs a) s.smp.inboxes + count a s.pending + count a s.world.finished
        ≡ count a s.made

  Step-Conserved : (s t : System R d f) → Step R d f s t → Conserved s → Conserved t
  unfolding fiber_body
  Step-Conserved s t (calls s₀ cpu target context a w smp e) c b =
      let (same, sums) = total-run_at s₀.smp smp cpu target context a s₀.world w e in
      omega (arith, c b, sums b, ap (count b) same)
  Step-Conserved s t (calls_async s₀ cpu target context a w smp e) c b =
      let (same, sums) = total-run_at_async s₀.smp smp cpu target context a s₀.world w e in
      omega (arith, c b, sums b, ap (count b) same)
  Step-Conserved s t (receives s₀ cpu k w smp as' e new) c b =
      let taken = take k (queued d f s₀.smp cpu) in
      let (visited, left) =
        total-receive_all d f s₀.smp smp cpu consume (some s₀.world) (some w) k e in
      omega (
        arith,
        c b,
        left (occurs b),
        count-weigh b taken,
        count-visited b taken s₀.world w (sym visited),
        ap (λ ts. count b (spawned_in ts)) new,
        ap (count b) (spawned_in-append s₀.world.acts as'),
        count-append b (spawned_in s₀.world.acts) (spawned_in as'),
        count-append b s₀.pending (spawned_in as'),
      )
  Step-Conserved s t (runs s₀ a o w smp h e) c b =
      let m = process (s₀.world.store a) o in
      omega (
        arith,
        c b,
        total-settle m.one_way m.cpu a (put s₀.world a m) w s₀.smp smp e b,
        count-erase a b s₀.pending h,
      )

  -- From a state in which it holds, and so from one without messages, whatever the reactors do in
  -- whatever order: each message stands in the inboxes, among the fibers that have not run, and
  -- among the finished messages together exactly as often as it was made.
  pub Steps-Conserved : (s t : System R d f) → Steps R d f s t → Conserved s → Conserved t
  Steps-Conserved s t (rest s₀) c = c
  Steps-Conserved s t (next s₀ t₀ u₀ one more) c =
      Steps-Conserved t₀ u₀ more (Step-Conserved s₀ t₀ one c)
