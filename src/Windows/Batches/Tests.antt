-- ===== src/Windows/Batches/Tests.antt =====
-- Batches over scripted calls.
use dumbo.Base.{ℕ, suc, ◌≡◌, arith, [], ◌∷◌, false, pos}
use dumbo.Base.Results.{Result}
use dumbo.Windows.{Os}
use dumbo.Windows.Scripted.{win, at_start}
use dumbo.Windows.Files.{File}
use dumbo.Windows.Batches.{
  FileIoBatch, empty_batch, add_block, add_read, add_write, configure, process_batch,
}
use dumbo.Windows.Batches.Submission.{Outcome, submission_lem}

abbrev two_blocks : FileIoBatch
unfolding add_read add_write empty_batch
two_blocks = add_write (add_read empty_batch 80 0 512) 90 512 512

abbrev five : File
five = record { fd = pos 5; path = [] }

-- The read is started at once; the write is refused with error 5.
abbrev denied : Os win
denied = at_start ((pos 1, 0) ∷ (pos 0, 5) ∷ [])

submission_lem_example :
    (r : (Os win × FileIoBatch) × Result ℕ) × Outcome win five false
      (configure two_blocks 70)
      70
      0
      (configure two_blocks 70).blocks
      denied
      r
    × (process_batch win (suc (suc 1)) five 70 two_blocks false denied ≡ r)
unfolding two_blocks add_read add_write add_block empty_batch
submission_lem_example = submission_lem win five 70 1 false two_blocks denied (omega arith)
