-- ===== src/File.antt =====
-- src/reactor/linux/file_impl.cpp and include/dumbo/v1/reactor/linux/buffer_vec.hpp: asynchronous
-- operations on a file, one at a time or a batch. A block is its index in the batch, a buffer its
-- address. The kernel is a parameter. `thrown e` is the exception with the text of errno `e`.
pub mod Batch
pub mod Whole
pub mod Incomplete
pub mod Single
pub mod Handle
pub mod Messages
mod Tests
use dumbo.Base.{
  ℕ, zero, suc, ◌+◌, ◌-◌, ◌^◌, ◌%◌, List, [], ◌∷◌, ◌++◌, map, Option, none, some, Bool, true, false,
  ltb, ◌==◌, if◌then◌else◌, length, get_elem?, drop, ℤ, pos, negsuc, sub64, to_int32,
}
use dumbo.Base.Results.{Result, Stop, ok, err, thrown, asserted, ◌>>=◌, ◌>>◌, checked}
use dumbo.Poller.{IoEvent}

pub data Command : Type 0 where
  pread pwrite : Command

-- ExtendedIOCB; its `aio_reqprio` is 0 and its `aio_flags` IOCB_FLAG_RESFD.
pub record Block : Type 0 where
  pub data_ : ℕ
  pub offset : ℤ
  pub size : ℤ
  pub command : Command
  pub message : ℕ
  pub fd : ℤ
  pub event_fd : ℤ
  pub processed : ℤ
  pub status : ℕ

-- FileIOBatch. `pblocks_` has one pointer for each block, which `blocks` sets.
pub record FileIoBatch : Type 0 where
  pub blocks_ : List Block
  pub submited : ℕ

pub empty_batch : FileIoBatch
empty_batch = record { blocks_ = []; submited = 0 }

pub make_block : ℕ → ℤ → ℤ → Command → Block
make_block d offset size command = record {
  data_ = d;
  offset = offset;
  size = size;
  command = command;
  message = 0;
  fd = pos 0;
  event_fd = pos 0;
  processed = pos 0;
  status = 0;
}

pub add_read : FileIoBatch → ℕ → ℤ → ℤ → FileIoBatch
unfolding make_block
add_read b d offset size = record b { blocks_ = b.blocks_ ++ make_block d offset size pread ∷ [] }

pub add_write : FileIoBatch → ℕ → ℤ → ℤ → FileIoBatch
unfolding make_block
add_write b d offset size = record b { blocks_ = b.blocks_ ++ make_block d offset size pwrite ∷ [] }

-- `blocks(from)`
pub blocks : FileIoBatch → ℕ → List Block
blocks b from = drop from b.blocks_

pub nblocks : FileIoBatch → ℕ
nblocks b = length b.blocks_

configure_block : ℤ → ℤ → ℕ → Block → Block
configure_block fd event_fd message c = record c { message = message; fd = fd; event_fd = event_fd }

pub configure : FileIoBatch → ℤ → ℤ → ℕ → FileIoBatch
unfolding configure_block
configure b fd event_fd message = record b {
  blocks_ = map (configure_block fd event_fd message) b.blocks_;
}

pub processed : FileIoBatch → ℕ → Option ℤ
processed b idx = elim (get_elem? b.blocks_ idx) [ none ↦ none | some c ↦ some c.processed ]

pub status : FileIoBatch → ℕ → Option ℕ
status b idx = elim (get_elem? b.blocks_ idx) [ none ↦ none | some c ↦ some c.status ]

-- `- processed` is thrown where that is negative.
pub check_each : List Block → Result (Unit {0})
check_each [] = ok tt
check_each (c ∷ cs) =
    let rest = check_each cs in elim c.processed [ pos n ↦ rest | negsuc n ↦ err (thrown (suc n)) ]

pub check_status : FileIoBatch → Result (Unit {0})
unfolding check_each
check_status b = check_each b.blocks_

-- FileMultiIOMessage::report, at the block that the event points to.
report_at : ℕ → IoEvent → List Block → List Block
report_at i e [] = []
report_at zero e (c ∷ cs) = record c { processed = e.res; status = e.res2 } ∷ cs
report_at (suc i) e (c ∷ cs) = c ∷ report_at i e cs

pub report : FileIoBatch → IoEvent → FileIoBatch
unfolding report_at
report b e = record b { blocks_ = report_at e.obj e b.blocks_ }

-- The completions of a batch, each reported and then finished, until `finish` resumes the fiber.
-- `none`: no event is left, and the fiber is not resumed.
pub wait_for : FileIoBatch → ℕ → List IoEvent → Option FileIoBatch
unfolding report
wait_for b remaining [] = none
wait_for b remaining (e ∷ es) =
    let rest = wait_for (report b e) (sub64 remaining 1) es in
    if sub64 remaining 1 == 0 then some (report b e) else rest

-- io_submit of the blocks from an index on, so many of them: a negative answer comes with errno.
-- The index and the blocks stand for the pointers that are handed over. `completions` are the
-- events that reach the message until its fiber is resumed.
pub record Aio : Type 1 where
  pub State : Type 0
  pub io_submit : State → ℕ → List Block → ℤ → ℤ × State
  pub errno : State → ℕ
  pub completions : State → List IoEvent × State

module _ (k : Aio) where
  -- What a round does with the answer of io_submit; `again` goes on with the next one.
  pub round :
      (FileIoBatch → ℕ → k.State → Result (ℕ × FileIoBatch × k.State))
      → FileIoBatch
      → ℕ
      → ℤ × k.State
      → Result (ℕ × FileIoBatch × k.State)
  round again b done (pos zero, s) = ok (0, b, s)
  round again b done (pos (suc n), s) = do
    let b₁ = record b { submited = (b.submited + suc n) % 2 ^ 64 }
    let (es, s₁) = k.completions s
    b₂ ← checked (wait_for b₁ (suc n) es)
    again b₂ (done + suc n) s₁
  round again b done (negsuc n, s) = err (thrown (k.errno s))

  -- The loop; each round submits a block at least, so `fuel` is the number of blocks.
  pub submit_from : ℕ → ℕ → FileIoBatch → ℕ → k.State → Result (ℕ × FileIoBatch × k.State)
  unfolding round blocks
  submit_from zero total b done s = if ltb done total then err asserted else ok (done, b, s)
  submit_from (suc fuel) total b done s =
      let again = submit_from fuel total in
      if ltb done total
      then round again b done (k.io_submit s done (blocks b done) (to_int32 (sub64 total done)))
      else ok (done, b, s)

  -- `rise_ex_on_error` is not used.
  pub process_batch : ℤ → ℤ → ℕ → FileIoBatch → Bool → k.State → Result (ℕ × FileIoBatch × k.State)
  unfolding submit_from configure nblocks
  process_batch fd event_fd message b rise_ex_on_error s =
      submit_from (nblocks b) (nblocks b) (configure b fd event_fd message) 0 s

  -- One operation, whose only event is the first one; `none` for an event that does not come.
  single_result : List IoEvent × k.State → Result (ℤ × k.State)
  single_result ([], s) = err asserted
  single_result (e ∷ es, s) = elim e.res [ pos n ↦ ok (pos n, s) | negsuc n ↦ err (thrown (suc n)) ]

  single_round : (k.State → Result (ℤ × k.State)) → ℤ × k.State → Result (ℤ × k.State)
  unfolding single_result
  single_round again (pos zero, s) = again s
  single_round again (pos (suc n), s) = single_result (k.completions s)
  single_round again (negsuc n, s) = err (thrown (k.errno s))

  -- The loop repeats while io_submit answers 0; `fuel` bounds that.
  pub submit_single : ℕ → Block → k.State → Result (ℤ × k.State)
  unfolding single_round
  submit_single zero c s = err asserted
  submit_single (suc fuel) c s =
      let again = submit_single fuel c in single_round again (k.io_submit s 0 (c ∷ []) (pos 1))

  pub process_single_io : ℕ → ℤ → ℤ → ℕ → ℕ → ℤ → ℤ → Command → k.State → Result (ℤ × k.State)
  unfolding make_block submit_single
  process_single_io fuel fd event_fd message buffer offset size command =
      submit_single fuel (record (make_block buffer offset size command) {
        message = message;
        fd = fd;
        event_fd = event_fd;
      })

  pub read : ℕ → ℤ → ℤ → ℕ → ℕ → ℤ → ℤ → k.State → Result (ℤ × k.State)
  unfolding process_single_io
  read fuel fd event_fd message buffer offset size =
      process_single_io fuel fd event_fd message buffer offset size pread

  pub write : ℕ → ℤ → ℤ → ℕ → ℕ → ℤ → ℤ → k.State → Result (ℤ × k.State)
  unfolding process_single_io
  write fuel fd event_fd message buffer offset size =
      process_single_io fuel fd event_fd message buffer offset size pwrite
