-- ===== src/File/Batch.antt =====
-- What the completions leave in the blocks of a batch of file_impl.cpp.
use dumbo.Base.{
  ℕ, zero, suc, ◌^◌, ◌<◌, ◌≡◌, ◌≢◌, refl, ◌⊎◌, sym, ap, ◌∙◌, List, [], ◌∷◌, Option, none, some,
  arith, Bool, true, false, ◌==◌, ne→==, ◌||◌, length, ℤ, sub64, ℕ_discrete, inl, inr,
}
use dumbo.Poller.{IoEvent}
use dumbo.File.{Block, FileIoBatch, nblocks, report, report_at, wait_for}

-- The result of a block, once there is one.
abbrev pub outcome : List Block → ℕ → Option (ℤ × ℕ)
outcome [] i = none
outcome (c ∷ cs) zero = some (c.processed, c.status)
outcome (c ∷ cs) (suc i) = outcome cs i

-- Each event has the result `o` of its block.
abbrev pub Tells : (ℕ → ℤ × ℕ) → List IoEvent → Type 0
Tells o [] = Unit
Tells o (e ∷ es) = ((e.res, e.res2) ≡ o e.obj) × Tells o es

abbrev pub names : ℕ → List IoEvent → Bool
names i [] = false
names i (e ∷ es) = e.obj == i || names i es

length-report_at : (i : ℕ) (e : IoEvent) (cs : List Block) → length (report_at i e cs) ≡ length cs
unfolding report_at
length-report_at i e [] = refl
length-report_at zero e (c ∷ cs) = refl
length-report_at (suc i) e (c ∷ cs) = ap suc (length-report_at i e cs)

outcome-report_at_self :
    (i : ℕ) (e : IoEvent) (cs : List Block)
    → i < length cs
    → outcome (report_at i e cs) i ≡ some (e.res, e.res2)
unfolding report_at
outcome-report_at_self i e [] h = elim h [ ]
outcome-report_at_self zero e (c ∷ cs) h = refl
outcome-report_at_self (suc i) e (c ∷ cs) h = outcome-report_at_self i e cs (omega arith)

outcome-report_at_ne :
    (i j : ℕ) (e : IoEvent) (cs : List Block) → i ≢ j → outcome (report_at i e cs) j ≡ outcome cs j
unfolding report_at
outcome-report_at_ne i j e [] h = refl
outcome-report_at_ne zero zero e (c ∷ cs) h = absurd (h refl)
outcome-report_at_ne zero (suc j) e (c ∷ cs) h = refl
outcome-report_at_ne (suc i) zero e (c ∷ cs) h = refl
outcome-report_at_ne (suc i) (suc j) e (c ∷ cs) h =
    outcome-report_at_ne i j e cs (λ same. h (ap suc same))

-- The blocks after every event was reported.
abbrev pub report_all : List IoEvent → FileIoBatch → FileIoBatch
report_all [] b = b
report_all (e ∷ es) b = report_all es (report b e)

pub report_all-keeps :
    (es : List IoEvent) (b : FileIoBatch)
    → (nblocks (report_all es b) ≡ nblocks b) × ((report_all es b).submited ≡ b.submited)
unfolding report nblocks
report_all-keeps [] b = (refl, refl)
report_all-keeps (e ∷ es) b =
    let (n, s) = report_all-keeps es (report b e) in (n ∙ length-report_at e.obj e b.blocks_, s)

-- A block that has its result keeps it, and a block that an event names gets it.
pub report_all-outcome :
    (o : ℕ → ℤ × ℕ) (es : List IoEvent) (b : FileIoBatch) (i : ℕ)
    → Tells o es
    → i < nblocks b
    → (names i es ≡ true) ⊎ (outcome b.blocks_ i ≡ some (o i))
    → outcome (report_all es b).blocks_ i ≡ some (o i)
unfolding report nblocks
report_all-outcome o [] b i t h (inl n) = cc
report_all-outcome o [] b i t h (inr r) = r
report_all-outcome o (e ∷ es) b i t h n = elim (ℕ_discrete e.obj i) [
  | yes same ↦
      report_all-outcome o es (report b e) i t.1 (omega (arith, length-report_at e.obj e b.blocks_))
        (inr (told same))
  | no other ↦
      report_all-outcome o es (report b e) i t.1 (omega (arith, length-report_at e.obj e b.blocks_))
        (elim n [
          | inl m ↦ inl (rw (ne→== e.obj i other) at m)
          | inr r ↦ inr (outcome-report_at_ne e.obj i e b.blocks_ other ∙ r)
        ])
]
  where
    told : e.obj ≡ i → outcome (report_at e.obj e b.blocks_) i ≡ some (o i)
    told same =
        ap (outcome (report_at e.obj e b.blocks_)) (sym same)
        ∙ outcome-report_at_self e.obj e b.blocks_ (omega (arith, h, same))
        ∙ ap some (t.0 ∙ ap o same)

-- As many events as the message waits for: the fiber is resumed after the last.
pub wait_for_lem :
    (es : List IoEvent) (e : IoEvent) (b : FileIoBatch) (remaining : ℕ)
    → remaining ≡ length (e ∷ es)
    → remaining < 2 ^ 64
    → wait_for b remaining (e ∷ es) ≡ some (report_all (e ∷ es) b)
unfolding wait_for
wait_for_lem [] e b r q h = let z : sub64 r 1 ≡ 0 = omega arith in rw z
wait_for_lem (e' ∷ es) e b r q h =
    rw (ne→== (sub64 r 1) 0 (omega arith))
      (wait_for_lem es e' (report b e) (sub64 r 1) (omega arith) (omega arith))

pub wait_for_all :
    (es : List IoEvent) (b : FileIoBatch) (remaining : ℕ)
    → length es ≡ remaining
    → 0 < remaining
    → remaining < 2 ^ 64
    → wait_for b remaining es ≡ some (report_all es b)
wait_for_all [] b r q z h = absurd (omega arith)
wait_for_all (e ∷ es) b r q z h = wait_for_lem es e b r (sym q) h
