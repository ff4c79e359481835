-- ===== src/File/Messages.antt =====
-- The messages of file operations, FileSingleIOMessage and FileMultiIOMessage of file_impl.cpp. The
-- poller calls `process` and `report` for each event, the event loop `finish` for each message that
-- it takes from the ring; a fiber is resumed by its context.
pub mod Order
mod Tests
use dumbo.Base.{
  ℕ, List, [], ◌∷◌, ◌++◌, Bool, true, false, ◌==◌, if◌then◌else◌, ℤ, pos, sub64, ◌+◌, ◌%◌, ◌^◌,
}
use dumbo.Poller.{IoEvent}
use dumbo.File.{Command, Block, FileIoBatch, make_block, configure, nblocks, report}

pub record FileSingleIoMessage : Type 0 where
  pub cpu : ℕ
  pub block : Block
  pub size : ℤ
  pub status : ℕ
  pub fiber_context : ℕ
  pub returned : Bool

-- Made by the fiber `active`, at the address `this`.
pub make_single_message : ℕ → ℕ → ℕ → ℤ → ℤ → ℕ → ℤ → ℤ → Command → FileSingleIoMessage
unfolding make_block
make_single_message this active cpu fd event_fd buffer offset size command = record {
  cpu = cpu;
  block = record (make_block buffer offset size command) {
    message = this;
    fd = fd;
    event_fd = event_fd;
  };
  size = pos 0;
  status = 0;
  fiber_context = active;
  returned = false;
}

pub process_single : FileSingleIoMessage → FileSingleIoMessage
process_single m = record m { returned = true }

pub report_single : IoEvent → FileSingleIoMessage → FileSingleIoMessage
report_single e m = record m { size = e.res; status = e.res2 }

-- With the fibers that are resumed.
pub finish_single : FileSingleIoMessage → FileSingleIoMessage × List ℕ
finish_single m = (m, m.fiber_context ∷ [])

pub record FileMultiIoMessage : Type 0 where
  pub cpu : ℕ
  pub batch : FileIoBatch
  pub remaining : ℕ
  pub fiber_context : ℕ
  pub returned : Bool

pub make_multi_message : ℕ → ℕ → ℕ → ℤ → ℤ → FileIoBatch → FileMultiIoMessage
unfolding configure nblocks
make_multi_message this active cpu fd event_fd batch = record {
  cpu = cpu;
  batch = configure batch fd event_fd this;
  remaining = nblocks batch;
  fiber_context = active;
  returned = true;
}

pub process_multi : FileMultiIoMessage → FileMultiIoMessage
process_multi m = m

pub report_multi : IoEvent → FileMultiIoMessage → FileMultiIoMessage
unfolding report
report_multi e m = record m { batch = report m.batch e }

pub finish_multi : FileMultiIoMessage → FileMultiIoMessage × List ℕ
finish_multi m =
    let left = sub64 m.remaining 1 in
    (record m { remaining = left }, if left == 0 then m.fiber_context ∷ [] else [])

pub add_submited : ℕ → FileMultiIoMessage → FileMultiIoMessage
add_submited num m = record m {
  remaining = num;
  batch = record m.batch { submited = (m.batch.submited + num) % 2 ^ 64 };
}
