-- ===== src/EventLoop/Turn.antt =====
-- What one turn of the event loop of reactor.cpp handles.
use dumbo.Base.{ℕ, ◌<◌, ◌≡◌, ◌≢◌, sym, ap, ◌∙◌, List, [], ◌++◌, Option, none, some, pos, take, drop}
use dumbo.Base.Results.{ok, ◌>>=◌, checked}
use dumbo.Ring.{Ring}
use dumbo.Ring.Refine.{Holds, available_lem}
use dumbo.Mpsc.{Disruptor}
use dumbo.Mpsc.Fifo.{Fifo, visit}
use dumbo.Smp.{Smp, receive_all}
use dumbo.Smp.Routing.{IsValid, queued, receive_all_lem}
use dumbo.Poller.{Kernel, IoEvent, Poller, poll}
use dumbo.Reactor.{World, drain_ring, consume}
use dumbo.Reactor.Drain.{process_all, process_all-append, process_all-none, drained, drain_ring_lem}
use dumbo.EventLoop.{EventLoop, take_inbox, handle, turn}

module _ {R : Type 0} (k : Kernel) (complete : IoEvent → World R → World R) (d : Disruptor ℕ)
    (f : Fifo d) where
  -- The loop after a turn that left `r`, `smp` and `w`.
  abbrev pub after_turn :
      EventLoop k complete d → Poller k complete → Ring ℕ → Smp d → World R → EventLoop k complete d
  after_turn l p r smp w = record l { poller = record p { ring = r; store = w }; smp = smp }

  inbox_lem :
      (l : EventLoop k complete d) (p : Poller k complete) (r : Ring ℕ) (smp : Smp d) (c : ℕ)
      → (xs : List ℕ) (o : Option (World R))
      → receive_all d l.smp (pos l.cpu) consume o ≡ some (c, smp, visit consume xs o)
      → (checked (drained o r) >>= λ x. take_inbox k complete d l p x.0 x.1)
        ≡ (checked (visit consume xs o) >>= λ w. ok (after_turn l p r smp w))
  unfolding take_inbox
  inbox_lem l p r smp c xs none e = rw (process_all-none {R = R} xs)
  inbox_lem l p r smp c xs (some w) e =
      ap (λ a. checked a >>= λ b. checked b.2 >>= λ w'. ok (after_turn l p r b.1 w')) e

  pub turn_lem :
      (l : EventLoop k complete d) (p : Poller k complete) (n cpus : ℕ) (xs : List ℕ)
      → poll k complete l.poller ≡ ok p
      → Holds n p.ring xs
      → IsValid d l.smp cpus
      → l.cpu < cpus
      → (c : ℕ) × (r : Ring ℕ) × (smp : Smp d) × (turn k complete d l ≡ (
          checked (process_all (xs ++ take c (queued d f l.smp l.cpu)) p.store) >>= λ w.
          ok (after_turn l p r smp w)))
        × Holds n r []
        × (queued d f smp l.cpu ≡ drop c (queued d f l.smp l.cpu))
        × ((e : ℕ) → l.cpu ≢ e → queued d f smp e ≡ queued d f l.smp e)
        × (c ≡ 0 → queued d f l.smp l.cpu ≡ [])
  unfolding turn handle
  turn_lem l p n cpus xs e h v inside =
      let (r, e₁, h₁) = drain_ring_lem n xs p.ring p.store h in
      let o = process_all xs p.store in
      let (c, smp, e₂, rest, others, none_left) =
        receive_all_lem d f l.smp cpus l.cpu consume o v inside in
      let q = queued d f l.smp l.cpu in
      (
        c,
        r,
        smp,
        ap (λ a. a >>= handle k complete d l) e
            ∙ ap (λ a. checked a >>= λ x. take_inbox k complete d l p x.0 x.1)
                (ap (λ m. drain_ring m p.ring p.store) (available_lem n p.ring h) ∙ e₁)
            ∙ inbox_lem l p r smp c (take c q) o e₂
            ∙ ap (λ a. checked a >>= λ w. ok (after_turn l p r smp w))
                (sym (process_all-append xs (take c q) (some p.store))),
        h₁,
        rest,
        others,
        none_left,
      )
