-- ===== src/Reactor/Drain.antt =====
-- The loop over the ring in the event loop of reactor.cpp.
use dumbo.Base.{
  ℕ, suc, ◌≡◌, refl, sym, ap, List, [], ◌∷◌, ◌++◌, Option, none, some, arith, ne→==, length,
}
use dumbo.Base.Faults.{◌>>=◌}
use dumbo.Ring.{Ring}
use dumbo.Ring.Refine.{Holds, available_lem, pop_back_value}
use dumbo.Mpsc.Fifo.{visit}
use dumbo.Reactor.{World, process_fn, consume, drain_ring}

emptied : (k : ℕ) (xs : List ℕ) (r : Ring ℕ) → Holds k r xs → (r' : Ring ℕ) × Holds k r' []
emptied k [] r h = (r, h)
emptied k (x ∷ xs) r h = let (r₁, e, h₁) = pop_back_value k r x xs h in emptied k xs r₁ h₁

module _ {R : Type 0} where
  -- `process_fn` on the messages of a list, in order.
  abbrev pub process_all : List ℕ → World R → Option (World R)
  process_all xs w = visit consume xs (some w)

  pub process_all-none : (xs : List ℕ) → visit (consume {R = R}) xs none ≡ none
  process_all-none [] = refl
  process_all-none (x ∷ xs) = process_all-none xs

  pub process_all-append :
      (xs ys : List ℕ) (w : Option (World R))
      → visit consume (xs ++ ys) w ≡ visit consume ys (visit consume xs w)
  process_all-append [] ys w = refl
  process_all-append (x ∷ xs) ys w = process_all-append xs ys (consume x w)

  -- A step of `drain_ring` after `process_fn`.
  abbrev pub drained : Option (World R) → Ring ℕ → Option (Ring ℕ × World R)
  drained w r = w >>= λ w'. some (r, w')

  drain_from : ℕ → Option (World R) → Ring ℕ → Option (Ring ℕ × World R)
  drain_from fuel w r = w >>= λ w'. drain_ring fuel r w'

  drain_from_lem :
      (k : ℕ) (xs : List ℕ) (r : Ring ℕ) (w : Option (World R))
      → Holds k r xs
      → (r' : Ring ℕ) × (drain_from (length xs) w r ≡ drained (visit consume xs w) r')
        × Holds k r' []
  unfolding drain_ring drain_from
  drain_from_lem k xs r none h =
      let (r', h') = emptied k xs r h in
      (r', ap (λ w. drained w r') (sym (process_all-none xs)), h')
  drain_from_lem k [] r (some w) h = (r, refl, h)
  drain_from_lem k (x ∷ xs) r (some w) h =
      let (r₁, e, h₁) = pop_back_value k r x xs h in
      let (r', e', h') = drain_from_lem k xs r₁ (process_fn x w) h₁ in
      (r', rw (available_lem k r h, e, ne→== (suc (length xs)) 0 (omega arith)) e', h')

  -- The ring's messages are processed in order, and the ring is left empty.
  pub drain_ring_lem :
      (k : ℕ) (xs : List ℕ) (r : Ring ℕ) (w : World R)
      → Holds k r xs
      → (r' : Ring ℕ) × (drain_ring (length xs) r w ≡ drained (process_all xs w) r') × Holds k r' []
  unfolding drain_from
  drain_ring_lem k xs r w h = drain_from_lem k xs r (some w) h
