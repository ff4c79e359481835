-- ===== src/File/Messages/Order.antt =====
-- The calls that the poller and the event loop make for the message of a batch in file_impl.cpp.
use dumbo.Base.{
  ℕ, suc, ◌^◌, ◌≤◌, ◌<◌, ◌≡◌, refl, List, [], ◌∷◌, ◌++◌, some, Bool-cases, inl, inr, ltb, lt→ltb,
  le→ltb, ◌==◌, if◌then◌else◌, arith, length, sub64, ap, ◌∙◌, sym,
}
use dumbo.Poller.{IoEvent}
use dumbo.File.{wait_for}
use dumbo.File.Batch.{report_all, wait_for_all}
use dumbo.File.Messages.{
  FileMultiIoMessage, process_multi, report_multi, finish_multi, add_submited,
}

-- An event that the poller reports, or the message taken from the ring.
pub data Action : Type 0 where
  reported : IoEvent → Action
  taken : Action

-- What the message becomes, and the fibers that are resumed.
abbrev pub act : List Action → FileMultiIoMessage → FileMultiIoMessage × List ℕ
act [] m = (m, [])
act (reported e ∷ as') m = act as' (report_multi e (process_multi m))
act (taken ∷ as') m =
    let (m₁, woken) = finish_multi m in let (m₂, later) = act as' m₁ in (m₂, woken ++ later)

abbrev pub events : List Action → List IoEvent
events [] = []
events (reported e ∷ as') = e ∷ events as'
events (taken ∷ as') = events as'

abbrev pub takes : List Action → ℕ
takes [] = 0
takes (reported e ∷ as') = takes as'
takes (taken ∷ as') = suc (takes as')

act-batch :
    (as' : List Action) (m : FileMultiIoMessage)
    → (act as' m).0.batch ≡ report_all (events as') m.batch
unfolding report_multi finish_multi process_multi
act-batch [] m = refl
act-batch (reported e ∷ as') m = act-batch as' (report_multi e m)
act-batch (taken ∷ as') m = act-batch as' (finish_multi m).0

ltb_less : (t n : ℕ) → 0 < n → n < 2 ^ 64 → ltb t (sub64 n 1) ≡ ltb (suc t) n
ltb_less t n z small = ground arith

act-quiet : (as' : List Action) (m : FileMultiIoMessage) → takes as' ≡ 0 → (act as' m).1 ≡ []
unfolding report_multi process_multi
act-quiet [] m h = refl
act-quiet (reported e ∷ as') m h = act-quiet as' (report_multi e m) h
act-quiet (taken ∷ as') m h = absurd (omega (arith, h))

-- Before the last of the takings that the message counts no fiber is resumed, and its own after it.
act-woken :
    (as' : List Action) (m : FileMultiIoMessage)
    → m.remaining < 2 ^ 64
    → 0 < m.remaining
    → takes as' ≤ m.remaining
    → (act as' m).1 ≡ (if ltb (takes as') m.remaining then [] else m.fiber_context ∷ [])
unfolding report_multi process_multi finish_multi
act-woken [] m small z h = rw (lt→ltb 0 m.remaining z) refl
act-woken (reported e ∷ as') m small z h = act-woken as' (report_multi e m) small z h
act-woken (taken ∷ as') m small z h = elim (Bool-cases (sub64 m.remaining 1 == 0)) [
  | inl last ↦
      rw
        (
          last,
          act-quiet as' (finish_multi m).0 (ground (arith, last)),
          le→ltb (suc (takes as')) m.remaining (ground (arith, last)),
        )
        refl
  | inr more ↦
      rw
        (
          more,
          act-woken as' (finish_multi m).0 (omega arith) (ground (arith, more))
              (ground (arith, more)),
        )
        (ap (λ b. if b then [] else m.fiber_context ∷ [])
          (ltb_less (takes as') m.remaining z small))
]

act-returned : (as' : List Action) (m : FileMultiIoMessage) → (act as' m).0.returned ≡ m.returned
unfolding report_multi finish_multi process_multi
act-returned [] m = refl
act-returned (reported e ∷ as') m = act-returned as' (report_multi e m)
act-returned (taken ∷ as') m = act-returned as' (finish_multi m).0

-- The kernel took `num` blocks of a submission. The poller reports their events, and the event loop
-- takes the message from the ring, in any order, and at most `num` times. Then the message has the
-- batch with which `wait_for` resumes the fiber, and is marked as returned if it was; no fiber is
-- resumed before the message was taken `num` times, and its own once then.
pub order_lem :
    (as' : List Action) (m : FileMultiIoMessage) (num : ℕ)
    → num < 2 ^ 64
    → 0 < num
    → takes as' ≤ num
    → length (events as') ≡ num
    → (wait_for (add_submited num m).batch num (events as')
        ≡ some (act as' (add_submited num m)).0.batch)
      × ((act as' (add_submited num m)).0.returned ≡ m.returned)
      × ((act as' (add_submited num m)).1
          ≡ (if ltb (takes as') num then [] else m.fiber_context ∷ []))
unfolding add_submited
order_lem as' m num small z h e = (
  wait_for_all (events as') (add_submited num m).batch num e z small
      ∙ ap some (sym (act-batch as' (add_submited num m))),
  act-returned as' (add_submited num m),
  act-woken as' (add_submited num m) small z h,
)
