-- ===== src/Tools/Latch/Waiting.antt =====
-- Who wakes the threads that wait for a latch of latch.hpp.
use mathlib.Core.List.{append-nil, append_assoc}
use dumbo.Base.{ℕ, ◌≡◌, refl, sym, ap, ◌∙◌, inl, inr, List, [], ◌∷◌, ◌++◌, Bool, Bool-cases}
use dumbo.Tools.Latch.{CountDownLatch, inc, dec, wait}

-- The calls of other threads.
pub data Op (T : Type 0) : Type 0 where
  incs decs : Op T
  waits : ℕ → T → Op T

module _ {T : Type 0} (increment decrement : T → T) (equals : T → T → Bool) where
  abbrev pub apply : Op T → CountDownLatch T → CountDownLatch T
  apply incs l = inc increment decrement equals l
  apply decs l = dec increment decrement equals l
  apply (waits thread value) l = (wait increment decrement equals thread value l).0

  abbrev pub apply_all : List (Op T) → CountDownLatch T → CountDownLatch T
  apply_all [] l = l
  apply_all (o ∷ os) l = apply_all os (apply o l)

  apply-waiting :
      (o : Op T) (l : CountDownLatch T)
      → (more : List (ℕ × T)) × ((apply o l).waiting ≡ l.waiting ++ more)
  unfolding inc dec wait
  apply-waiting incs l = ([], sym (append-nil l.waiting))
  apply-waiting decs l = ([], sym (append-nil l.waiting))
  apply-waiting (waits thread value) l = elim (Bool-cases (equals l.value value)) [
    | inl e ↦ ([], rw (apply, e) (sym (append-nil l.waiting)))
    | inr e ↦ ((thread, value) ∷ [], rw (apply, e) refl)
  ]

  -- The calls of other threads, `inc` and `dec` among them, wake no thread that waits, even when
  -- they make the value the one that it waits for: all that waited still do, in the same order.
  pub never_woken :
      (os : List (Op T)) (l : CountDownLatch T)
      → (more : List (ℕ × T)) × ((apply_all os l).waiting ≡ l.waiting ++ more)
  never_woken [] l = ([], sym (append-nil l.waiting))
  never_woken (o ∷ os) l =
      let (more₁, e₁) = apply-waiting o l in
      let (more₂, e₂) = never_woken os (apply o l) in
      (more₁ ++ more₂, e₂ ∙ ap (λ ws. ws ++ more₂) e₁ ∙ append_assoc l.waiting more₁ more₂)
