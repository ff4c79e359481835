-- ===== src/Scheduler/Resumed.antt =====
-- Several fibers resumed one after another by scheduler.hpp.
use mathlib.Core.List.{append-nil, append_assoc}
use dumbo.Base.{
  ℕ, ◌≡◌, refl, sym, ap, ◌∙◌, List, [], ◌∷◌, ◌++◌, Option, none, some, Option-cases, inl, inr,
  arith, true, false, ◌==◌, Bool, not, ◌&&◌, ◌||◌, ne→==, ==_refl, ℕ_discrete,
}
use dumbo.Base.Members.{is_in, erase, Distinct, is_in-erase_ne, is_in-erase}
use dumbo.Base.Faults.{◌>>=◌}
use dumbo.Scheduler.{Scheduler, resume}
use dumbo.Scheduler.Queues.{IsValid, SetsReady}
use dumbo.Scheduler.Fairness.{resume_lem, resumed-IsValid}

-- The addresses `cs` all stand in `xs`.
abbrev pub AllIn : List ℕ → List ℕ → Type 0
AllIn [] xs = Unit
AllIn (c ∷ cs) xs = (is_in c xs ≡ true) × AllIn cs xs

pub AllIn-prefix : (cs es xs : List ℕ) → AllIn (cs ++ es) xs → AllIn cs xs
AllIn-prefix [] es xs a = tt
AllIn-prefix (c ∷ cs) es xs a = (a.0, AllIn-prefix cs es xs a.1)

AllIn-erase : (c : ℕ) (cs xs : List ℕ) → is_in c cs ≡ false → AllIn cs xs → AllIn cs (erase c xs)
AllIn-erase c [] xs h a = tt
AllIn-erase c (e ∷ cs) xs h a = (
  is_in-erase_ne c e xs (λ same. ground (arith, h, same)) ∙ a.0,
  AllIn-erase c cs xs (ground (arith, h)) a.1,
)

-- No null pointer is among fibers that wait.
pub AllIn-non_null : (cs xs : List ℕ) → AllIn cs xs → is_in 0 xs ≡ false → is_in 0 cs ≡ false
AllIn-non_null [] xs a h = refl
AllIn-non_null (c ∷ cs) xs a h = ground (
  arith,
  a.0,
  AllIn-non_null cs xs a.1 h,
  ne→== c 0 (λ z. ground (arith, h, a.0, ap (λ x. is_in x xs) z)),
)

left_waiting :
    (c b : ℕ) (xs : List ℕ) (later : Bool)
    → Distinct xs
    → (is_in b (erase c xs) && not later) ≡ (is_in b xs && not (c == b || later))
left_waiting c b xs later d = elim (ℕ_discrete c b) [
  | yes same ↦
      rw (← same) (ap (λ x. x && not later) (is_in-erase c xs d) ∙ rw (==_refl c) (ground arith))
  | no other ↦ rw (is_in-erase_ne c b xs other, ne→== c b other) refl
]

-- `resume` of each, in order.
unfoldable pub resume_each :
    (Scheduler → ℕ → Option Scheduler) → Scheduler → List ℕ → Option Scheduler
resume_each set_ready s [] = some s
resume_each set_ready s (c ∷ cs) = resume set_ready s c >>= λ t. resume_each set_ready t cs

module _ (set_ready : Scheduler → ℕ → Option Scheduler) (law : SetsReady set_ready) where
  -- Fibers that wait, none twice, are all resumed: they go behind the ready ones in order, and no
  -- other fiber stops waiting.
  pub resume_each_lem :
      (cs : List ℕ) (s : Scheduler)
      → IsValid s
      → Distinct cs
      → AllIn cs s.wait_queue
      → (t : Scheduler) × (resume_each set_ready s cs ≡ some t)
        × IsValid t
        × (t.ready_queue ≡ s.ready_queue ++ cs)
        × ((c : ℕ) → is_in c t.wait_queue ≡ (is_in c s.wait_queue && not (is_in c cs)))
  unfolding resume_each
  resume_each_lem [] s v d a = (s, refl, v, sym (append-nil s.ready_queue), λ c. ground arith)
  resume_each_lem (c ∷ cs) s v d a =
      let s₁ : Scheduler = record {
        ready_queue = s.ready_queue ++ c ∷ [];
        wait_queue = erase c s.wait_queue;
      } in
      let (t, e, v', ready, waits) =
        resume_each_lem cs s₁ (resumed-IsValid s c v a.0) d.1
          (AllIn-erase c cs s.wait_queue d.0 a.1) in
      (
        t,
        rw (resume_lem set_ready s c law v, a.0) e,
        v',
        ready ∙ append_assoc s.ready_queue (c ∷ []) cs,
        λ b. waits b ∙ left_waiting c b s.wait_queue (is_in b cs) v.wait,
      )

  resume_each-append :
      (us vs : List ℕ) (s : Scheduler)
      → resume_each set_ready s (us ++ vs)
        ≡ (resume_each set_ready s us >>= λ t. resume_each set_ready t vs)
  unfolding resume_each
  resume_each-append [] vs s = refl
  resume_each-append (c ∷ us) vs s = elim (Option-cases (resume set_ready s c)) [
    | inl gone ↦ rw gone refl
    | inr (t, e) ↦ rw e (resume_each-append us vs t)
  ]

  -- A fiber that does not wait, behind fibers that do, none twice: its `resume` fails.
  pub resume_each_fails :
      (us vs : List ℕ) (c : ℕ) (s : Scheduler)
      → IsValid s
      → Distinct us
      → AllIn us s.wait_queue
      → (is_in c s.wait_queue && not (is_in c us)) ≡ false
      → resume_each set_ready s (us ++ c ∷ vs) ≡ none
  unfolding resume_each
  resume_each_fails us vs c s v d a h =
      let (t, e, vt, ready, waits) = resume_each_lem us s v d a in
      resume_each-append us (c ∷ vs) s
      ∙ ap (λ o. o >>= λ t'. resume_each set_ready t' (c ∷ vs)) e
      ∙ rw (resume_lem set_ready t c law vt, waits c ∙ h) refl
