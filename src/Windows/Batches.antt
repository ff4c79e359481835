-- ===== src/Windows/Batches.antt =====
-- `process_batch` of src/reactor/msvc/msvc_file_impl.cpp, and FileIOBatch of
-- include/dumbo/v1/reactor/msvc/msvc_buffer_vec.hpp. The address of a block is its index.
pub mod Shortage
pub mod Submission
mod Tests
use Prim.Native.Nat.{min}
use dumbo.Base.{
  ℕ, zero, suc, ◌+◌, ◌-◌, List, [], ◌∷◌, ◌++◌, map, Option, none, some, Bool, ◌&&◌, ltb, leb, sub64,
  if◌then◌else◌, length, ℤ, pos, negsuc,
}
use dumbo.Base.Results.{Result, ok, err, thrown, asserted, blocked}
use dumbo.Windows.{
  Overlapped, Operation, read_operation, write_operation, zeroed_overlapped, configure_overlapped,
  dword, Call, read_file, write_file, set_count, wait_for, Win, Os, sys, is_started, is_starved,
}
use dumbo.Windows.Files.{File}

pub record FileIoBatch : Type 0 where
  pub blocks : List Overlapped
  pub submited : ℕ

pub empty_batch : FileIoBatch
empty_batch = record { blocks = []; submited = 0 }

pub add_block : Operation → FileIoBatch → ℕ → ℕ → ℕ → FileIoBatch
unfolding configure_overlapped zeroed_overlapped
add_block operation batch buffer offset size = record batch {
  blocks = batch.blocks ++ configure_overlapped operation buffer offset size zeroed_overlapped ∷ [];
}

pub add_read : FileIoBatch → ℕ → ℕ → ℕ → FileIoBatch
unfolding add_block
add_read = add_block read_operation

pub add_write : FileIoBatch → ℕ → ℕ → ℕ → FileIoBatch
unfolding add_block
add_write = add_block write_operation

pub nblocks : FileIoBatch → ℕ
nblocks batch = length batch.blocks

pub set_submited : FileIoBatch → ℕ → FileIoBatch
set_submited batch num = record batch { submited = num }

set_message : ℕ → Overlapped → Overlapped
set_message message o = record o { message = message }

pub configure : FileIoBatch → ℕ → FileIoBatch
unfolding set_message
configure batch message = record batch { blocks = map (set_message message) batch.blocks }

-- The call that starts the operation of a block.
pub call_of_block : File → ℕ → Overlapped → Operation → Call
unfolding dword
call_of_block f c ovl write_operation = write_file f.fd ovl.buffer (dword ovl.requested_size) c ovl
call_of_block f c ovl read_operation = read_file f.fd ovl.buffer (dword ovl.requested_size) c ovl

-- The local message: its address, `count_`, which is 1 at first, and the number of started
-- operations whose completion it has not counted.
pub record AioMessage : Type 0 where
  pub address : ℕ
  pub count : ℕ
  pub pending : ℕ

abbrev pub made_message : ℕ → AioMessage
made_message address = record { address = address; count = 1; pending = 0 }

abbrev pub submitted : AioMessage → AioMessage
submitted m = record m { pending = m.pending + 1 }

-- The completions that are to come count it down to 0; if it is 0 it has to come round.
pub is_resumed : AioMessage → Bool
is_resumed m = ltb 0 m.count && leb m.count m.pending

-- What the answer of the wait stands for: how many more completions are counted, of those that are
-- left, before the fiber goes on.
pub counted_more : ℤ → ℕ → ℕ
counted_more (pos n) left = min n left
counted_more (negsuc n) left = 0

pub count_down : ℤ → AioMessage → AioMessage
unfolding counted_more
count_down answer m =
    let left = m.pending - m.count in
    let more = counted_more answer left in record m { count = sub64 0 more; pending = left - more }

module _ (win : Win) where
  -- `message.wait_for()`
  pub waited : AioMessage → Os win → Os win × Result AioMessage
  unfolding is_resumed count_down sys
  waited m o =
      let a = sys win o (wait_for m.address) in
      (a.1, if is_resumed m then ok (count_down a.0 m) else err blocked)

  -- The answer of a block, with the message: `none` is a started operation, `some` the code of an
  -- error.
  abbrev pub Answer : Type 0
  Answer = AioMessage × Option ℕ

  pub again_after :
      (AioMessage → Os win → Os win × Result Answer)
      → Os win × Result AioMessage
      → Os win × Result Answer
  again_after again (o, ok m) = again m o
  again_after again (o, err stop) = (o, err stop)

  pub attempted :
      (AioMessage → Os win → Os win × Result Answer)
      → AioMessage
      → ℤ × Os win
      → Os win × Result Answer
  unfolding is_started is_starved waited again_after
  attempted again m (r, o) =
      let rest = again_after again (waited m o) in
      if is_started win r o
      then (o, ok (submitted m, none))
      else (if is_starved (win.last_error o.kernel)
          then rest
          else (o, ok (m, some (win.last_error o.kernel))))

  -- The inner loop; `fuel` bounds its rounds.
  pub submit_block : ℕ → File → ℕ → Overlapped → AioMessage → Os win → Os win × Result Answer
  unfolding attempted call_of_block sys
  submit_block zero f c ovl m o = (o, err asserted)
  submit_block (suc fuel) f c ovl m o =
      attempted (submit_block fuel f c ovl) m (sys win o (call_of_block f c ovl ovl.operation))

  -- `message.set_count(wait_num); message.wait_for();`
  pub wait_for_all : AioMessage → ℕ → Os win → Os win × Result AioMessage
  unfolding waited sys
  wait_for_all m wait_num o =
      waited (record m { count = wait_num }) (sys win o (set_count m.address wait_num)).1

  -- `set_submited`, and the result, unless the wait before it has no end.
  pub ended :
      FileIoBatch → ℕ → Result ℕ → Os win × Result AioMessage → (Os win × FileIoBatch) × Result ℕ
  unfolding set_submited
  ended batch wait_num result (o, ok m) = ((o, set_submited batch wait_num), result)
  ended batch wait_num result (o, err stop) = ((o, batch), err stop)

  -- An operation was refused: those submitted are waited for.
  pub give_up : AioMessage → Bool → FileIoBatch → ℕ → ℕ → Os win → (Os win × FileIoBatch) × Result ℕ
  unfolding wait_for_all ended
  give_up m rise_ex_on_error batch wait_num code o =
      ended batch wait_num (if rise_ex_on_error then err (thrown code) else ok wait_num)
        (if ltb 0 wait_num then wait_for_all m wait_num o else (o, ok m))

  pub after_block :
      (AioMessage → Os win → (Os win × FileIoBatch) × Result ℕ)
      → Bool
      → FileIoBatch
      → ℕ
      → Os win × Result Answer
      → (Os win × FileIoBatch) × Result ℕ
  unfolding give_up
  after_block next rise_ex_on_error batch c (o, err stop) = ((o, batch), err stop)
  after_block next rise_ex_on_error batch c (o, ok (m, none)) = next m o
  after_block next rise_ex_on_error batch c (o, ok (m, some code)) =
      give_up m rise_ex_on_error batch c code o

  -- The outer loop over the blocks from `c` on; `wait_num` is `c`.
  pub submit_blocks :
      ℕ
      → File
      → Bool
      → FileIoBatch
      → ℕ
      → List Overlapped
      → AioMessage
      → Os win
      → (Os win × FileIoBatch) × Result ℕ
  unfolding submit_block after_block wait_for_all ended
  submit_blocks fuel f rise_ex_on_error batch c [] m o = ended batch c (ok c) (wait_for_all m c o)
  submit_blocks fuel f rise_ex_on_error batch c (ovl ∷ ovls) m o =
      after_block (submit_blocks fuel f rise_ex_on_error batch (c + 1) ovls) rise_ex_on_error batch
        c (submit_block fuel f c ovl m o)

  -- `message` is the address of the local message.
  pub process_batch : ℕ → File → ℕ → FileIoBatch → Bool → Os win → (Os win × FileIoBatch) × Result ℕ
  unfolding submit_blocks configure
  process_batch fuel f message batch rise_ex_on_error o =
      let configured = configure batch message in
      submit_blocks fuel f rise_ex_on_error configured 0 configured.blocks (made_message message) o
