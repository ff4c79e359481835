-- ===== src/Windows/Transfer.antt =====
-- What the loop that transfers bytes comes to.
use mathlib.Core.List.{append_assoc}
use dumbo.Base.{ℕ, ◌≡◌, refl, ap, ◌∙◌, List, [], ◌∷◌, ◌++◌, Bool-cases, inl, inr, true, false, ℤ}
use dumbo.Base.Results.{Stop, Result, ok, err, thrown, blocked}
use dumbo.Windows.{
  Call, wait_for, Win, Os, sys, is_started, is_starved, finished, started, transfer,
}

module _ (win : Win) where
  -- The answer of a call that does not start because resources lack.
  abbrev pub Starving : ℤ × Os win → Type 0
  Starving (r, o) = (is_started win r o ≡ false) × (is_starved (win.last_error o.kernel) ≡ true)

  -- What becomes of an answer: the wait, then the size or an exception with the code of the
  -- completed operation; a wait without end if resources lack; or else the stop that an error stands
  -- for.
  pub data Ended (on_error : ℕ → Stop) (message operation : ℕ)
      : ℤ × Os win → Os win × Result ℕ → Type 0 where
    bytes :
        (r : ℤ) (o : Os win)
        → is_started win r o ≡ true
        → (win.completion (sys win o (wait_for message)).1.kernel operation).status ≡ true
        → Ended on_error message operation
            (r, o)
            (
              (sys win o (wait_for message)).1,
              ok (win.completion (sys win o (wait_for message)).1.kernel operation).size,
            )
    failed :
        (r : ℤ) (o : Os win)
        → is_started win r o ≡ true
        → (win.completion (sys win o (wait_for message)).1.kernel operation).status ≡ false
        → Ended on_error message operation
            (r, o)
            (
              (sys win o (wait_for message)).1,
              err (
                  thrown
                    (win.completion (sys win o (wait_for message)).1.kernel operation).error_code),
            )
    starved :
        (r : ℤ) (o : Os win)
        → Starving (r, o)
        → Ended on_error message operation (r, o) ((sys win o (wait_for message)).1, err blocked)
    refused :
        (r : ℤ) (o : Os win)
        → is_started win r o ≡ false
        → is_starved (win.last_error o.kernel) ≡ false
        → Ended on_error message operation (r, o) (o, err (on_error (win.last_error o.kernel)))

  started-Ended :
      (on_error : ℕ → Stop) (message operation : ℕ) (a : ℤ × Os win) (r : Os win × Result ℕ)
      → Ended on_error message operation a r
      → started win on_error message operation a ≡ r
  unfolding started finished
  started-Ended on_error message operation a r (bytes x o e s) = rw (e, s)
  started-Ended on_error message operation a r (failed x o e s) = rw (e, s)
  started-Ended on_error message operation a r (starved x o (e, s)) = rw (e, s)
  started-Ended on_error message operation a r (refused x o e s) = rw (e, s)

  pub transfer-Ended :
      (on_error : ℕ → Stop) (c : Call) (message operation : ℕ) (o : Os win)
      → (r : Os win × Result ℕ) → Ended on_error message operation (sys win o c) r
      → transfer win on_error c message operation o ≡ r
  unfolding transfer
  transfer-Ended on_error c message operation o r e =
      started-Ended on_error message operation (sys win o c) r e

  finished-calls : (operation : ℕ) (o : Os win) → (finished win operation o).0.calls ≡ o.calls
  unfolding finished
  finished-calls operation o = elim (Bool-cases (win.completion o.kernel operation).status) [
    | inl e ↦ rw e
    | inr e ↦ rw e
  ]

  started-calls :
      (on_error : ℕ → Stop) (c : Call) (message operation : ℕ) (a : ℤ × Os win)
      → (before : List Call) → a.1.calls ≡ before ++ c ∷ []
      → (rest : List Call) × ((started win on_error message operation a).0.calls
          ≡ before ++ c ∷ rest)
  unfolding started sys
  started-calls on_error c message operation (r, o) before e =
      let waited : o.calls ++ wait_for message ∷ [] ≡ before ++ c ∷ wait_for message ∷ [] =
        ap (λ cs. cs ++ wait_for message ∷ []) e
        ∙ append_assoc before (c ∷ []) (wait_for message ∷ []) in
      elim (Bool-cases (is_started win r o)) [
        | inl q ↦ (
          wait_for message ∷ [],
          rw q (finished-calls operation (sys win o (wait_for message)).1) ∙ waited,
        )
        | inr q ↦ elim (Bool-cases (is_starved (win.last_error o.kernel))) [
          | inl t ↦ (wait_for message ∷ [], rw (q, t) waited)
          | inr t ↦ ([], rw (q, t) e)
        ]
      ]

  -- The call of a transfer is made first.
  pub transfer-calls :
      (on_error : ℕ → Stop) (c : Call) (message operation : ℕ) (o : Os win)
      → (rest : List Call) × ((transfer win on_error c message operation o).0.calls
          ≡ o.calls ++ c ∷ rest)
  unfolding transfer sys
  transfer-calls on_error c message operation o =
      started-calls on_error c message operation (sys win o c) o.calls refl
