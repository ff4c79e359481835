-- ===== src/Ring/Trace.antt =====
-- Sequences of calls of the ring of ring_buffer.hpp, against a bounded queue.
use dumbo.Base.{
  ℕ, ◌+◌, ◌^◌, ◌<◌, ◌≡◌, refl, ap, List, [], ◌∷◌, ◌++◌, Option, none, some, arith, ltb, lt→ltb,
  le→ltb, if◌then◌else◌, length, length-append, dec_lt,
}
use dumbo.Base.Faults.{◌>>=◌}
use dumbo.Ring.{Ring, pop_back, push_front}
use dumbo.Ring.Refine.{
  Holds, push_front_room, push_front_full, pop_back_value, pop_back_empty, head-push_front,
  head-pop_back,
}

-- The calls of a client of the ring, in order.
pub data Op {ℓ} (A : Type ℓ) : Type ℓ where
  push : A → Op A
  pop : Op A

module _ {ℓ} {A : Type ℓ} where
  -- The values that the calls take out, and the ring after them.
  unfoldable pub run_ring : Ring A → List (Op A) → Option (List A × Ring A)
  run_ring r [] = some ([], r)
  run_ring r (push x ∷ ops) = push_front r x >>= λ r'. run_ring r' ops
  run_ring r (pop ∷ ops) = do (x, r') ← pop_back r; (ys, s) ← run_ring r' ops; some (x ∷ ys, s)

  -- The queue of at most `n` values that the ring stands for.
  unfoldable pub run_queue : ℕ → List A → List (Op A) → Option (List A × List A)
  run_queue n xs [] = some ([], xs)
  run_queue n xs (push x ∷ ops) =
      let rest = run_queue n (xs ++ x ∷ []) ops in if ltb (length xs) n then rest else none
  run_queue n [] (pop ∷ ops) = none
  run_queue n (x ∷ xs) (pop ∷ ops) = do (ys, s) ← run_queue n xs ops; some (x ∷ ys, s)

  abbrev pub SameRun : ℕ → Option (List A × Ring A) → Option (List A × List A) → Type ℓ
  SameRun k none none = Unit
  SameRun k (some (ys, r)) (some (zs, xs)) = (ys ≡ zs) × Holds k r xs
  SameRun k _ _ = Unit {ℓ} → ⊥

  SameRun-pop :
      (k : ℕ) (x : A) (a : Option (List A × Ring A)) (b : Option (List A × List A))
      → SameRun k a b
      → SameRun k (a >>= λ p. some (x ∷ p.0, p.1)) (b >>= λ p. some (x ∷ p.0, p.1))
  SameRun-pop k x none none h = tt
  SameRun-pop k x (some (ys, r)) (some (zs, xs)) h = (ap (◌∷◌ x) h.0, h.1)
  SameRun-pop k x none (some b) h = h
  SameRun-pop k x (some a) none h = h

  -- No sequence of calls tells a ring of 2 ^ k cells from the bounded queue of the values that it
  -- holds: they take out the same values in the same order, and the assertions fail at the same
  -- calls, if the positions of the ring stay below 2 ^ 63.
  pub run_ring_refines :
      (k : ℕ) (ops : List (Op A)) (r : Ring A) (xs : List A)
      → Holds k r xs
      → r.head + length ops < 2 ^ 63
      → SameRun k (run_ring r ops) (run_queue (2 ^ k) xs ops)
  unfolding run_ring run_queue
  run_ring_refines k [] r xs h p = (refl, h)
  run_ring_refines k (push x ∷ ops) r xs h p = elim (dec_lt (length xs) (2 ^ k)) [
    | yes room ↦
        let (r', e, h') = push_front_room k r x xs h room (omega arith) in
        rw (e, lt→ltb _ _ room)
          (run_ring_refines k ops r' (xs ++ x ∷ []) h'
            (omega (arith, h.span, h'.span, length-append xs (x ∷ []), head-push_front r x e)))
    | no full ↦
        rw
          (
            push_front_full k r x xs h (omega (arith, h.fits)),
            le→ltb (length xs) (2 ^ k) (omega arith),
          )
          tt
  ]
  run_ring_refines k (pop ∷ ops) r [] h p = rw (pop_back_empty k r h) tt
  run_ring_refines k (pop ∷ ops) r (x ∷ xs) h p =
      let (r', e, h') = pop_back_value k r x xs h in
      rw e (
        SameRun-pop k x (run_ring r' ops) (run_queue (2 ^ k) xs ops)
          (run_ring_refines k ops r' xs h' (omega (arith, head-pop_back r x e))))
