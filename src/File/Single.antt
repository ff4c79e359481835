-- ===== src/File/Single.antt =====
-- One operation on a file of file_impl.cpp.
use dumbo.Base.{ℕ, suc, ◌+◌, ◌≡◌, refl, ap, ◌∙◌, List, [], ◌∷◌, arith, ℤ, pos, negsuc}
use dumbo.Base.Results.{Result, ok, err, thrown}
use dumbo.Poller.{IoEvent}
use dumbo.File.{
  Command, pread, pwrite, Block, make_block, Aio, single_round, single_result, submit_single,
  process_single_io, read, write,
}

-- The block that the kernel gets.
abbrev pub single_block : ℤ → ℤ → ℕ → ℕ → ℤ → ℤ → Command → Block
single_block fd event_fd message buffer offset size command = record {
  data_ = buffer;
  offset = offset;
  size = size;
  command = command;
  message = message;
  fd = fd;
  event_fd = event_fd;
  processed = pos 0;
  status = 0;
}

module _ (k : Aio) where
  -- The operation of a command.
  abbrev pub perform : Command → ℕ → ℤ → ℤ → ℕ → ℕ → ℤ → ℤ → k.State → Result (ℤ × k.State)
  perform pread = read k
  perform pwrite = write k

  -- io_submit answers 0 so many times.
  pub data Refuses (c : Block) : ℕ → k.State → k.State → Type 0 where
    now : (s : k.State) → Refuses c 0 s s
    later :
        {n : ℕ} (s s₁ s' : k.State)
        → k.io_submit s 0 (c ∷ []) (pos 1) ≡ (pos 0, s₁)
        → Refuses c n s₁ s'
        → Refuses c (suc n) s s'

  -- How an operation ends that io_submit does not answer with 0: its event has the number of bytes
  -- or an error, or there is an error at once.
  pub data Ends : ℤ × k.State → Result (ℤ × k.State) → Type 0 where
    bytes :
        (n size : ℕ) (s s' : k.State) (e : IoEvent) (es : List IoEvent)
        → k.completions s ≡ (e ∷ es, s')
        → e.res ≡ pos size
        → Ends (pos (suc n), s) (ok (pos size, s'))
    failed :
        (n c : ℕ) (s s' : k.State) (e : IoEvent) (es : List IoEvent)
        → k.completions s ≡ (e ∷ es, s')
        → e.res ≡ negsuc c
        → Ends (pos (suc n), s) (err (thrown (suc c)))
    rejected : (n : ℕ) (s : k.State) → Ends (negsuc n, s) (err (thrown (k.errno s)))

  single_round-Ends :
      (again : k.State → Result (ℤ × k.State)) (a : ℤ × k.State) (r : Result (ℤ × k.State))
      → Ends a r
      → single_round k again a ≡ r
  unfolding single_round single_result
  single_round-Ends again a r (bytes n size s s' e es c q) = rw (c, q)
  single_round-Ends again a r (failed n c s s' e es d q) = rw (d, q)
  single_round-Ends again a r (rejected n s) = refl

  submit_single-Ends :
      (c : Block) (n more : ℕ) (s s' : k.State) (r : Result (ℤ × k.State))
      → Refuses c n s s'
      → Ends (k.io_submit s' 0 (c ∷ []) (pos 1)) r
      → submit_single k (n + suc more) c s ≡ r
  unfolding submit_single single_round
  submit_single-Ends c n more s s' r (now s₀) e =
      ap (λ (f : ℕ). submit_single k f c s₀) {y = suc more} (omega arith)
      ∙ single_round-Ends (submit_single k more c) (k.io_submit s₀ 0 (c ∷ []) (pos 1)) r e
  submit_single-Ends c n more s s' r (later {n = m} s₀ s₁ s₂ q t) e =
      ap (λ (f : ℕ). submit_single k f c s₀) {y = suc (m + suc more)} (omega arith)
      ∙ ap (single_round k (submit_single k (m + suc more) c)) q
      ∙ submit_single-Ends c m more s₁ s₂ r t e

  -- `read` and `write` hand the kernel one block with their arguments, again while it answers 0.
  -- They return the number of bytes of its event, or throw the error of the event or of io_submit.
  pub single_lem :
      (command : Command) (fd event_fd : ℤ) (message buffer : ℕ) (offset size : ℤ)
      → (n more : ℕ) (s s' : k.State) (r : Result (ℤ × k.State))
      → Refuses (single_block fd event_fd message buffer offset size command) n s s'
      → Ends
          (k.io_submit s' 0
            (single_block fd event_fd message buffer offset size command ∷ [])
            (pos 1))
          r
      → perform command (n + suc more) fd event_fd message buffer offset size s ≡ r
  unfolding read write process_single_io make_block
  single_lem pread fd ef m b o z n more s s' r t e =
      submit_single-Ends (single_block fd ef m b o z pread) n more s s' r t e
  single_lem pwrite fd ef m b o z n more s s' r t e =
      submit_single-Ends (single_block fd ef m b o z pwrite) n more s s' r t e
