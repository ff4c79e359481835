-- ===== src/File/Tests.antt =====
-- Batches and kernels, and the theorems of file_impl.cpp over them.
use dumbo.Base.{
  ℕ, suc, ◌+◌, ◌≤◌, ◌<◌, ◌≡◌, refl, List, [], ◌∷◌, some, arith, true, false, ◌==◌, ◌||◌,
  if◌then◌else◌, ℤ, pos, negsuc,
}
use dumbo.Base.Results.{ok, err, thrown}
use dumbo.File.{Block, FileIoBatch, pread, pwrite, write, nblocks, Aio, process_batch}
use dumbo.File.Batch.{outcome}
use dumbo.File.Whole.{Takes, Accepts, process_batch_lem}
use dumbo.File.Single.{now, later, failed, single_lem}
use dumbo.File.Incomplete.{incomplete_batch}

abbrev one : ℤ → ℤ
one (pos n) = pos 1
one (negsuc n) = pos 0

-- One block of each submission is taken; the state is its index.
abbrev slow : Aio
slow = record {
  State = ℕ;
  io_submit = λ s from cs n. (one n, from);
  errno = λ s. 0;
  completions = λ s. (record { message = 0; obj = s; res = pos s; res2 = 0 } ∷ [], s);
}

abbrev result : ℕ → ℤ × ℕ
result i = (pos i, 0)

same_index : (i j : ℕ) → i ≤ j → j < i + 1 → (i == j || false) ≡ true
same_index i j p q = ground arith

slow-Accepts : Accepts slow result
slow-Accepts = record {
  takes = λ s from cs n h. (
    1,
    omega arith,
    record {
      accepted = refl;
      some_block = omega arith;
      completed = refl;
      results = (refl, tt);
      each = λ i p q. same_index from i p q;
    },
  );
}

abbrev block : ℕ → Block
block d = record {
  data_ = d;
  offset = pos 0;
  size = pos 512;
  command = pread;
  message = 0;
  fd = pos 0;
  event_fd = pos 0;
  processed = pos 0;
  status = 0;
}

abbrev two : FileIoBatch
two = record { blocks_ = block 100 ∷ block 200 ∷ []; submited = 0 }

process_batch_lem_example :
    (b : FileIoBatch) × (s : ℕ) × (process_batch slow (pos 3) (pos 4) 50 two true 0 ≡ ok (2, b, s))
    × (nblocks b ≡ 2)
    × (b.submited ≡ 0 + 2)
    × ((i : ℕ) → i < 2 → outcome b.blocks_ i ≡ some (result i))
unfolding nblocks
process_batch_lem_example =
    process_batch_lem slow result (pos 3) (pos 4) 50 two true 0 slow-Accepts (omega arith)
      (omega arith)

-- Only a submission from the first block on is taken.
abbrev stuck : Aio
stuck = record slow { io_submit = λ s from cs n. ((if from == 0 then pos 1 else pos 0), from) }

stuck-Takes : (cs : List Block) (n : ℕ) → Takes stuck result 0 1 (stuck.io_submit 0 0 cs (pos n))
stuck-Takes cs n = record {
  accepted = refl;
  some_block = omega arith;
  completed = refl;
  results = (refl, tt);
  each = λ i p q. same_index 0 i p (omega arith);
}

incomplete_batch_example :
    (b : FileIoBatch) × (s : ℕ) × (process_batch stuck (pos 3) (pos 4) 50 two true 0 ≡ ok (0, b, s))
    × (b.submited ≡ 0 + 1)
    × ((i : ℕ) → i < 1 → outcome b.blocks_ i ≡ some (result i))
unfolding nblocks
incomplete_batch_example =
    incomplete_batch stuck result (pos 3) (pos 4) 50 1 two true 0 (omega arith) (omega arith)
      (omega arith) (stuck-Takes [] 2) (λ s cs. refl)

-- The state counts the calls of io_submit; the second one is answered, with an error.
abbrev failing : Aio
failing = record {
  State = ℕ;
  io_submit = λ s from cs n. ((if s == 0 then pos 0 else pos 1), s + 1);
  errno = λ s. 0;
  completions = λ s. (record { message = 50; obj = 0; res = negsuc 4; res2 = 0 } ∷ [], s);
}

single_lem_example :
    write failing (1 + suc 2) (pos 3) (pos 4) 50 100 (pos 0) (pos 512) 0 ≡ err (thrown 5)
single_lem_example =
    single_lem failing pwrite (pos 3) (pos 4) 50 100 (pos 0) (pos 512) 1 2 0 1 (err (thrown 5))
      (later 0 1 1 refl (now 1))
      (failed 0 4 2 2 (record { message = 50; obj = 0; res = negsuc 4; res2 = 0 }) [] refl refl)
