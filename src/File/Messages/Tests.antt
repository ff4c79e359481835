-- ===== src/File/Messages/Tests.antt =====
-- A batch of two blocks, whose events are reported by two polls.
use dumbo.Base.{ℕ, ◌≡◌, refl, List, [], ◌∷◌, some, true, arith, pos, ltb, if◌then◌else◌}
use dumbo.Poller.{IoEvent}
use dumbo.File.{FileIoBatch, empty_batch, add_read, wait_for}
use dumbo.File.Messages.{
  FileSingleIoMessage, FileMultiIoMessage, make_single_message, process_single, report_single,
  finish_single, make_multi_message, add_submited,
}
use dumbo.File.Messages.Order.{Action, reported, taken, act, order_lem}
use dumbo.File.{pread}

abbrev event : ℕ → IoEvent
event i = record { message = 70; obj = i; res = pos 512; res2 = i }

abbrev batch : FileIoBatch
batch = add_read (add_read empty_batch 1024 (pos 0) (pos 512)) 2048 (pos 512) (pos 512)

abbrev message : FileMultiIoMessage
message = make_multi_message 70 5 0 (pos 3) (pos 4) batch

abbrev two_polls : List Action
two_polls = reported (event 1) ∷ taken ∷ reported (event 0) ∷ taken ∷ []

order_lem_example :
    (wait_for (add_submited 2 message).batch 2 (event 1 ∷ event 0 ∷ [])
      ≡ some (act two_polls (add_submited 2 message)).0.batch)
    × ((act two_polls (add_submited 2 message)).0.returned ≡ message.returned)
    × ((act two_polls (add_submited 2 message)).1
        ≡ (if ltb 2 2 then [] else message.fiber_context ∷ []))
order_lem_example = order_lem two_polls message 2 (omega arith) (omega arith) (omega arith) refl

-- A read of 512 bytes: its event is reported, and its fiber resumed.
abbrev single : FileSingleIoMessage
single =
    report_single (event 0)
      (process_single (make_single_message 70 5 0 (pos 3) (pos 4) 1024 (pos 0) (pos 512) pread))

single_test :
    (single.size ≡ pos 512) × (single.returned ≡ true) × ((finish_single single).1 ≡ 5 ∷ [])
unfolding single make_single_message process_single report_single finish_single
single_test = (refl, refl, refl)
