-- ===== src/Mpsc/History.antt =====
-- Sequences of calls of mpsc_queue.hpp: nothing is lost, made up or reordered.
use mathlib.Core.List.{append-nil, append_assoc}
use dumbo.Base.{
  ℕ, zero, suc, ◌≤◌, ◌≡◌, sym, ap, ◌∙◌, List, [], ◌∷◌, ◌++◌, arith, length, drop, take-append-drop,
  length-drop, length-eq-zero,
}
use dumbo.Mpsc.{Disruptor, send, get, get_all}
use dumbo.Mpsc.Fifo.{Fifo, visit, Took, send_lem, get_lem, get_all_lem}

pub data Call (A : Type 0) : Type 0 where
  sends : A → Call A
  receives : ℕ → Call A
  receives_all : Call A

abbrev pub sent : {A : Type 0} → List (Call A) → List A
sent [] = []
sent (sends x ∷ cs) = x ∷ sent cs
sent (receives n ∷ cs) = sent cs
sent (receives_all ∷ cs) = sent cs

-- A consumer that keeps what it gets.
abbrev pub keep : {A : Type 0} → A → List A → List A
keep x xs = xs ++ x ∷ []

visit-keep : {A : Type 0} (xs ys : List A) → visit keep xs ys ≡ ys ++ xs
visit-keep [] ys = sym (append-nil ys)
visit-keep (x ∷ xs) ys = visit-keep xs (ys ++ x ∷ []) ∙ append_assoc ys (x ∷ []) xs

shorter :
    {A : Type 0} (n k : ℕ) (xs : List A)
    → length xs ≤ suc n
    → (k ≡ 0 → length xs ≡ 0)
    → length (drop k xs) ≤ n
shorter n k xs h seen = grind (arith, length-drop k xs)

module _ {A : Type 0} (d : Disruptor A) where
  -- What the consumer has got, and the queue, after the calls.
  unfoldable pub run : d.State → List A → List (Call A) → List A × d.State
  run s got [] = (got, s)
  run s got (sends x ∷ cs) = run (send d s x).1 got cs
  run s got (receives n ∷ cs) = let r = get d n keep s got in run r.1 r.2 cs
  run s got (receives_all ∷ cs) = let r = get_all d keep s got in run r.1 r.2 cs

  -- `n` calls of `get_all` in a row.
  unfoldable pub drain : ℕ → d.State → List A → List A × d.State
  drain zero s got = (got, s)
  drain (suc n) s got = let r = get_all d keep s got in drain n r.1 r.2

  module _ (f : Fifo d) where
    open f use {contents}

    Took-kept :
        (s : d.State) (got : List A) (r : ℕ × d.State × List A)
        → Took d f keep s got r
        → r.2 ++ contents r.1 ≡ got ++ contents s
    Took-kept s got r t =
        rw (t.rest, t.visited, visit-keep)
          (append_assoc got _ _ ∙ ap (◌++◌ got) (take-append-drop r.0 (contents s)))

    -- Over a disruptor that is first in, first out: after any calls of `send`, `get` and `get_all`,
    -- what was received before and in these calls, followed by what is still queued, is what was
    -- received before, followed by what was queued at first and then what was sent, in that order.
    pub run_conserves :
        (cs : List (Call A)) (s : d.State) (got : List A)
        → (run s got cs).0 ++ contents (run s got cs).1 ≡ got ++ contents s ++ sent cs
    unfolding run
    run_conserves [] s got = sym (append-nil (got ++ contents s))
    run_conserves (sends x ∷ cs) s got =
        run_conserves cs (send d s x).1 got ∙ rw (send_lem d f s x) (simp append_assoc)
    run_conserves (receives n ∷ cs) s got =
        let r = get d n keep s got in
        run_conserves cs r.1 r.2
        ∙ ap (λ xs. xs ++ sent cs) (Took-kept s got r (get_lem d f n keep s got).0)
    run_conserves (receives_all ∷ cs) s got =
        let r = get_all d keep s got in
        run_conserves cs r.1 r.2
        ∙ ap (λ xs. xs ++ sent cs) (Took-kept s got r (get_all_lem d f keep s got).0)

    -- At least as many calls of `get_all` as there are events in the queue hand all of them over,
    -- in order, over a disruptor that is first in, first out.
    pub drain_lem :
        (n : ℕ) (s : d.State) (got : List A)
        → length (contents s) ≤ n
        → (drain n s got).0 ≡ got ++ contents s
    unfolding drain
    drain_lem zero s got h =
        sym (append-nil got) ∙ ap (◌++◌ got) (sym (length-eq-zero (contents s) (omega arith)))
    drain_lem (suc n) s got h =
        let r = get_all d keep s got in
        let (took, seen) = get_all_lem d f keep s got in
        drain_lem n r.1 r.2 (
          omega
            (arith, shorter n r.0 (contents s) h (λ e. ap length (seen e)), ap length took.rest))
        ∙ Took-kept s got r took
