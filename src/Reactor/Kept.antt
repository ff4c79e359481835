-- ===== src/Reactor/Kept.antt =====
-- What the steps of reactor.cpp leave of the messages that are there.
use dumbo.Base.{
  ℕ, ◌≡◌, sym, subst, ◌∙◌, inl, inr, List, [], ◌∷◌, some, true, false, Bool, Bool-cases,
  Option-cases, ◌==◌, ==_iff,
}
use dumbo.Base.Faults.{nothing_done, done_same}
use dumbo.Message.{Message, Effect, finish}
use dumbo.Message.Kept.{Keeps, Keeps-refl, Keeps-trans, finish-Keeps}
use dumbo.Mpsc.Fifo.{visit}
use dumbo.Reactor.{World, put, process_fn, process_branch, consume, finish_at, leave, throws_out}
use dumbo.Reactor.Drain.{process_all-none}

module _ {R : Type 0} where
  abbrev pub KeepsAll : World R → World R → Type 0
  KeepsAll w w' = (a : ℕ) → Keeps (w.store a) (w'.store a)

  pub KeepsAll-trans : (u v w : World R) → KeepsAll u v → KeepsAll v w → KeepsAll u w
  KeepsAll-trans u v w h k a = Keeps-trans (u.store a) (v.store a) (w.store a) (h a) (k a)

  pub put-KeepsAll :
      (w : World R) (a : ℕ) (m : Message R) → Keeps (w.store a) m → KeepsAll w (put w a m)
  put-KeepsAll w a m h b = elim (Bool-cases (a == b)) [
    | inl e ↦ rw e (subst (λ c. Keeps (w.store c) m) ((==_iff a b).0 e) h)
    | inr e ↦ rw e (Keeps-refl (w.store b))
  ]

  pub finish_at-KeepsAll :
      (w w' : World R) (a : ℕ) (es : List Effect) → finish_at w a ≡ some (w', es) → KeepsAll w w'
  unfolding finish_at
  finish_at-KeepsAll w w' a es e b = elim (Option-cases (finish (w.store a))) [
    | inl n ↦ absurd (nothing_done (w', es) (rw n at e))
    | inr ((m, fs), h) ↦
        subst (λ r. Keeps (w.store b) (r.0.store b)) (done_same _ (w', es) (rw h at e))
          (put-KeepsAll w a m (finish-Keeps (w.store a) m fs h) b)
  ]

  process_branch-KeepsAll :
      (returned : Bool) (w w' : World R) (a : ℕ)
      → process_branch returned a w ≡ some w'
      → KeepsAll w w'
  unfolding process_branch leave
  process_branch-KeepsAll false w w' a e b =
      subst (λ v. Keeps (w.store b) (v.store b)) (done_same _ w' e) (Keeps-refl (w.store b))
  process_branch-KeepsAll true w w' a e b = elim (Option-cases (finish_at w a)) [
    | inl n ↦ absurd (nothing_done w' (rw n at e))
    | inr ((v, es), h) ↦ elim (Bool-cases (throws_out es)) [
      | inl t ↦ absurd (nothing_done w' (rw t at (rw h at e)))
      | inr t ↦
          subst (λ u. Keeps (w.store b) (u.store b)) (done_same v w' (rw t at (rw h at e)))
            (finish_at-KeepsAll w v a es h b)
    ]
  ]

  pub process_fn-KeepsAll : (w w' : World R) (a : ℕ) → process_fn a w ≡ some w' → KeepsAll w w'
  unfolding process_fn
  process_fn-KeepsAll w w' a e = process_branch-KeepsAll (w.store a).returned w w' a e

  pub visit-KeepsAll :
      (xs : List ℕ) (w w' : World R) → visit consume xs (some w) ≡ some w' → KeepsAll w w'
  visit-KeepsAll [] w w' e b =
      subst (λ v. Keeps (w.store b) (v.store b)) (done_same w w' e) (Keeps-refl (w.store b))
  visit-KeepsAll (x ∷ xs) w w' e b = elim (Option-cases (process_fn x w)) [
    | inl n ↦ absurd (nothing_done w' (sym (process_all-none xs) ∙ (rw n at e)))
    | inr (v, h) ↦
        KeepsAll-trans w v w' (process_fn-KeepsAll w v x h) (visit-KeepsAll xs v w' (rw h at e)) b
  ]
