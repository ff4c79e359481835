-- ===== src/File/Whole.antt =====
-- What `process_batch` of file_impl.cpp promises.
use dumbo.Base.{
  ℕ, zero, suc, ◌+◌, ◌-◌, ◌^◌, ◌%◌, ◌≤◌, ◌<◌, ◌≡◌, ap, ◌∙◌, inl, inr, List, length-map, some, arith,
  Bool, true, length, ℤ, pos, sub64, to_int32, to_int32_lem, lt→ltb, le→ltb, dec_lt,
}
use dumbo.Base.Results.{Result, ok, ◌>>=◌, checked}
use dumbo.File.{
  Block, FileIoBatch, nblocks, blocks, configure, configure_block, Aio, round, submit_from,
  process_batch,
}
use dumbo.File.Batch.{
  outcome, Tells, names, report_all, report_all-keeps, report_all-outcome, wait_for_all,
}

-- An answer that takes `n` blocks from the index `from` on, whose completions have the results `o`.
pub record Takes (k : Aio) (o : ℕ → ℤ × ℕ) (from n : ℕ) (a : ℤ × k.State) : Type 0 where
  pub accepted : a.0 ≡ pos n
  pub some_block : 0 < n
  pub completed : length (k.completions a.1).0 ≡ n
  pub results : Tells o (k.completions a.1).0
  pub each : (i : ℕ) → from ≤ i → i < from + n → names i (k.completions a.1).0 ≡ true

-- The kernel takes at least one block of each submission, and completes each that it took, in any
-- order, with the result `o`.
pub record Accepts (k : Aio) (o : ℕ → ℤ × ℕ) : Type 0 where
  pub takes :
      (s : k.State) (from : ℕ) (cs : List Block) (n : ℕ)
      → 0 < n
      → (r : ℕ) × (r ≤ n) × Takes k o from r (k.io_submit s from cs (pos n))

-- The blocks before `done` have their results.
abbrev pub DoneBelow : (ℕ → ℤ × ℕ) → ℕ → FileIoBatch → Type 0
DoneBelow o done b = (i : ℕ) → i < done → outcome b.blocks_ i ≡ some (o i)

module _ (k : Aio) (o : ℕ → ℤ × ℕ) where
  -- A round that the kernel answers by taking `n` blocks.
  pub round_lem :
      (again : FileIoBatch → ℕ → k.State → Result (ℕ × FileIoBatch × k.State))
      → (b : FileIoBatch) (done n : ℕ) (a : ℤ × k.State) → Takes k o done n a
      → DoneBelow o done b
      → done + n ≤ nblocks b
      → nblocks b < 2 ^ 31
      → b.submited + n < 2 ^ 64
      → (b' : FileIoBatch) × (round k again b done a ≡ again b' (done + n) (k.completions a.1).1)
        × (nblocks b' ≡ nblocks b)
        × (b'.submited ≡ b.submited + n)
        × DoneBelow o (done + n) b'
  unfolding round nblocks
  round_lem again b done zero a t h fits small room = absurd (omega (arith, t.some_block))
  round_lem again b done (suc n) (r, s) t h fits small room =
      let es = (k.completions s).0 in
      let s₁ = (k.completions s).1 in
      let b₁ : FileIoBatch = record b { submited = (b.submited + suc n) % 2 ^ 64 } in
      let (same_size, same_count) = report_all-keeps es b₁ in
      (
        report_all es b₁,
        ap (λ r'. round k again b done (r', s)) t.accepted
            ∙ ap (λ w. checked w >>= λ b₂. again b₂ (done + suc n) s₁)
                (wait_for_all es b₁ (suc n) t.completed t.some_block (omega arith)),
        same_size,
        same_count ∙ omega arith,
        λ i below. report_all-outcome o es b₁ i t.results (omega arith) (elim (dec_lt i done) [
          | yes p ↦ inr (h i p)
          | no p ↦ inl (t.each i (omega arith) below)
        ]),
      )

  pub to_submit_lem :
      (total done : ℕ)
      → done ≤ total
      → total < 2 ^ 31
      → to_int32 (sub64 total done) ≡ pos (total - done)
  to_submit_lem total done h small =
      ap to_int32 {y = total - done} (omega arith) ∙ to_int32_lem (total - done) (omega arith)

  submit_from_lem :
      (fuel total : ℕ) (b : FileIoBatch) (done : ℕ) (s : k.State)
      → Accepts k o
      → nblocks b ≡ total
      → total < 2 ^ 31
      → done ≤ total
      → total ≤ done + fuel
      → b.submited + (total - done) < 2 ^ 64
      → DoneBelow o done b
      → (b' : FileIoBatch) × (s' : k.State) × (submit_from k fuel total b done s
          ≡ ok (total, b', s'))
        × (nblocks b' ≡ total)
        × (b'.submited ≡ b.submited + (total - done))
        × DoneBelow o total b'
  unfolding submit_from
  submit_from_lem zero total b done s acc size small le enough room h =
      let q : done ≡ total = omega arith in
      (
        b,
        s,
        rw (le→ltb done total (omega arith)) (ap (λ d. ok (d, b, s)) q),
        size,
        omega arith,
        λ i p. h i (omega arith),
      )
  submit_from_lem (suc fuel) total b done s acc size small le enough room h =
      elim (dec_lt done total) [
        | no full ↦
            let q : done ≡ total = omega arith in
            (
              b,
              s,
              rw (le→ltb done total (omega arith)) (ap (λ d. ok (d, b, s)) q),
              size,
              omega arith,
              λ i p. h i (omega arith),
            )
        | yes more ↦
            let (r, fits, t) = acc.takes s done (blocks b done) (total - done) (omega arith) in
            let a = k.io_submit s done (blocks b done) (pos (total - done)) in
            let (b₁, e₁, size₁, count₁, done₁) =
              round_lem (submit_from k fuel total) b done r a t h (omega arith) (omega arith)
                (omega arith) in
            let (b', s', e', size', count', done') =
              submit_from_lem fuel total b₁ (done + r) (k.completions a.1).1 acc (size₁ ∙ size)
                small (omega arith) (omega (arith, t.some_block)) (omega arith) done₁ in
            (
              b',
              s',
              rw (lt→ltb done total more, to_submit_lem total done le small) (e₁ ∙ e'),
              size',
              omega arith,
              done',
            )
      ]

  pub configured-nblocks :
      (fd event_fd : ℤ) (message : ℕ) (b : FileIoBatch)
      → nblocks (configure b fd event_fd message) ≡ nblocks b
  unfolding nblocks configure
  configured-nblocks fd event_fd message b =
      length-map (configure_block fd event_fd message) b.blocks_

  -- If the kernel takes at least one block of each submission, and completes those that it took in
  -- any order, `process_batch` returns, for fewer than 2 ^ 31 blocks. It returns the number of the
  -- blocks, all of them have been submitted, and each has the kernel's result for it.
  pub process_batch_lem :
      (fd event_fd : ℤ) (message : ℕ) (b : FileIoBatch) (rise : Bool) (s : k.State)
      → Accepts k o
      → nblocks b < 2 ^ 31
      → b.submited + nblocks b < 2 ^ 64
      → (b' : FileIoBatch) × (s' : k.State) × (process_batch k fd event_fd message b rise s
          ≡ ok (nblocks b, b', s'))
        × (nblocks b' ≡ nblocks b)
        × (b'.submited ≡ b.submited + nblocks b)
        × ((i : ℕ) → i < nblocks b → outcome b'.blocks_ i ≡ some (o i))
  unfolding process_batch configure
  process_batch_lem fd event_fd message b rise s acc small room =
      let (b', s', e, size, count, done) =
        submit_from_lem (nblocks b) (nblocks b) (configure b fd event_fd message) 0 s acc
          (configured-nblocks fd event_fd message b) small (omega arith) (omega arith) (omega arith)
          (λ i p. absurd (omega arith)) in
      (b', s', e, size, count ∙ omega arith, done)
