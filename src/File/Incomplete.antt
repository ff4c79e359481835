-- ===== src/File/Incomplete.antt =====
-- What `process_batch` of file_impl.cpp does when the kernel stops to take blocks.
use dumbo.Base.{
  ℕ, suc, ◌+◌, ◌-◌, ◌^◌, ◌<◌, ◌≡◌, ap, subst, ◌∙◌, List, some, arith, Bool, ℤ, pos, lt→ltb,
}
use dumbo.Base.Results.{Result, ok}
use dumbo.File.{
  Block, FileIoBatch, nblocks, blocks, configure, Aio, round, submit_from, process_batch,
}
use dumbo.File.Batch.{outcome}
use dumbo.File.Whole.{Takes, DoneBelow, round_lem, to_submit_lem, configured-nblocks}

module _ (k : Aio) (o : ℕ → ℤ × ℕ) where
  round_stalls :
      (again : FileIoBatch → ℕ → k.State → Result (ℕ × FileIoBatch × k.State))
      → (b : FileIoBatch) (done : ℕ) (a : ℤ × k.State) → a.0 ≡ pos 0
      → round k again b done a ≡ ok (0, b, a.1)
  unfolding round
  round_stalls again b done (r, s) e = ap (λ r'. round k again b done (r', s)) e

  submit_from_stalls :
      (fuel total : ℕ) (b : FileIoBatch) (done : ℕ) (s : k.State)
      → done < total
      → total < 2 ^ 31
      → (k.io_submit s done (blocks b done) (pos (total - done))).0 ≡ pos 0
      → (s' : k.State) × (submit_from k (suc fuel) total b done s ≡ ok (0, b, s'))
  unfolding submit_from
  submit_from_stalls fuel total b done s more small e = (
    (k.io_submit s done (blocks b done) (pos (total - done))).1,
    rw (lt→ltb done total more, to_submit_lem k o total done (omega arith) small)
        (round_stalls (submit_from k fuel total) b done _ e),
  )

  incomplete_from :
      (fuel total n : ℕ) (b : FileIoBatch) (s : k.State)
      → nblocks b ≡ total
      → total < 2 ^ 31
      → b.submited + n < 2 ^ 64
      → n < total
      → Takes k o 0 n (k.io_submit s 0 (blocks b 0) (pos (total - 0)))
      → ((s₁ : k.State) (cs : List Block) → (k.io_submit s₁ n cs (pos (total - n))).0 ≡ pos 0)
      → (b' : FileIoBatch) × (s' : k.State) × (submit_from k (suc (suc fuel)) total b 0 s
          ≡ ok (0, b', s'))
        × (b'.submited ≡ b.submited + n)
        × DoneBelow o n b'
  unfolding submit_from
  incomplete_from fuel total n b s size small room part t stalls =
      let again = submit_from k (suc fuel) total in
      let a = k.io_submit s 0 (blocks b 0) (pos (total - 0)) in
      let s₁ = (k.completions a.1).1 in
      let (b', e₁, size₁, count₁, done₁) =
        round_lem k o again b 0 n a t (λ i p. absurd (omega arith)) (omega arith) (omega arith)
          room in
      let (s', e₂) = submit_from_stalls fuel total b' n s₁ part small (stalls s₁ (blocks b' n)) in
      (
        b',
        s',
        rw (lt→ltb 0 total (omega arith), to_submit_lem k o total 0 (omega arith) small)
            (e₁ ∙ ap (λ (d : ℕ). again b' d s₁) {y = n} (omega arith) ∙ e₂),
        count₁,
        λ i p. done₁ i (omega arith),
      )

  -- If the kernel takes some of the blocks, but not all, and answers the next submission with 0,
  -- `process_batch` returns 0, although these blocks have been submitted and have their results.
  -- `rise_ex_on_error` makes no difference.
  pub incomplete_batch :
      (fd event_fd : ℤ) (message n : ℕ) (b : FileIoBatch) (rise : Bool) (s : k.State)
      → nblocks b < 2 ^ 31
      → b.submited + n < 2 ^ 64
      → n < nblocks b
      → Takes k o 0 n (k.io_submit s 0 (configure b fd event_fd message).blocks_ (pos (nblocks b)))
      → ((s₁ : k.State) (cs : List Block) → (k.io_submit s₁ n cs (pos (nblocks b - n))).0 ≡ pos 0)
      → (b' : FileIoBatch) × (s' : k.State) × (process_batch k fd event_fd message b rise s
          ≡ ok (0, b', s'))
        × (b'.submited ≡ b.submited + n)
        × ((i : ℕ) → i < n → outcome b'.blocks_ i ≡ some (o i))
  unfolding process_batch blocks configure
  incomplete_batch fd event_fd message n b rise s small room part t stalls =
      let c = configure b fd event_fd message in
      let total = nblocks b in
      let (b', s', e, count, done) =
        incomplete_from (total - 2) total n c s (configured-nblocks k o fd event_fd message b) small
          room part
          (subst (λ (m : ℕ). Takes k o 0 n (k.io_submit s 0 c.blocks_ (pos m))) (omega arith) t)
          stalls in
      (
        b',
        s',
        ap (λ (f : ℕ). submit_from k f total c 0 s) {x = total} {y = suc (suc (total - 2))}
              (omega (arith, t.some_block))
            ∙ e,
        count,
        done,
      )
