-- ===== src/Windows/Batches/Submission.antt =====
-- What `process_batch` of msvc_file_impl.cpp does on every branch.
use dumbo.Base.{
  ℕ, suc, ◌+◌, ◌^◌, ◌<◌, ◌≡◌, refl, sym, ap, ◌∙◌, arith, inl, inr, List, [], ◌∷◌, Option, Bool,
  Bool-cases, true, false, ◌&&◌, ltb, leb, if◌then◌else◌, length, length-map,
}
use dumbo.Base.Results.{Result, ok, err, thrown, blocked}
use dumbo.Windows.{Overlapped, set_count, wait_for, Win, Os, sys}
use dumbo.Windows.Transfer.{Starving}
use dumbo.Windows.Files.{File}
use dumbo.Windows.Batches.Shortage.{
  call_at, Ended, Accepted, Refused, answer_cases, attempted-Accepted, attempted-Starving,
  attempted-Refused, waited_for, count_down-Short, block_blocked, more_blocked,
}
use dumbo.Windows.Batches.{
  FileIoBatch, AioMessage, is_resumed, count_down, waited, again_after, set_message, set_submited,
  configure, submit_block, wait_for_all, ended, give_up, after_block, submit_blocks, process_batch,
}

module _ (win : Win) where
  module _ (f : File) (rise_ex_on_error : Bool) (batch : FileIoBatch) where
    module _ (message : ℕ) where
      -- With `c` operations started, what becomes of the blocks that remain: an operation that is
      -- started leaves the others; when none is left, all that were started are waited for, without
      -- end if there are none; one that is refused ends the batch with the number of those started,
      -- which are waited for, if there are any, or with its error; and after a call that lacks
      -- resources the batch never ends.
      pub data Outcome : ℕ → List Overlapped → Os win → Ended win → Type 0 where
        all :
            (c : ℕ) (o : Os win)
            → 0 < c
            → Outcome c [] o ((waited_for win message c o, record batch { submited = c }), ok c)
        none_started :
            (c : ℕ) (o : Os win)
            → c ≡ 0
            → Outcome c [] o ((waited_for win message c o, batch), err blocked)
        starts :
            (c : ℕ) (ovl : Overlapped) (ovls : List Overlapped) (o : Os win) (r : Ended win)
            → Accepted win (sys win o (call_at f c ovl))
            → Outcome (c + 1) ovls (sys win o (call_at f c ovl)).1 r
            → Outcome c (ovl ∷ ovls) o r
        starved :
            (c : ℕ) (ovl : Overlapped) (ovls : List Overlapped) (o : Os win)
            (b : Os win × FileIoBatch)
            → Starving win (sys win o (call_at f c ovl))
            → Outcome c (ovl ∷ ovls) o (b, err blocked)
        refused :
            (c : ℕ) (ovl : Overlapped) (ovls : List Overlapped) (o : Os win)
            → Refused win (sys win o (call_at f c ovl))
            → Outcome c (ovl ∷ ovls) o (
              (
                if ltb 0 c
                    then waited_for win message c (sys win o (call_at f c ovl)).1
                    else (sys win o (call_at f c ovl)).1,
                record batch { submited = c },
              ),
              if rise_ex_on_error
                  then err (thrown (win.last_error (sys win o (call_at f c ovl)).1.kernel))
                  else ok c,
            )

      -- The message while no wait has counted a completion.
      abbrev fresh : ℕ → AioMessage
      fresh c = record { address = message; count = 1; pending = c }

      wait_for_all-fresh :
          (c : ℕ) (o : Os win)
          → 0 < c
          → (m : AioMessage) × (wait_for_all win (fresh c) c o ≡ (waited_for win message c o, ok m))
      unfolding wait_for_all waited is_resumed
      wait_for_all-fresh c o h =
          let reached : (ltb 0 c && leb c c) ≡ true = ground (arith, h) in
          (
            count_down (sys win (sys win o (set_count message c)).1 (wait_for message)).0
                (record (fresh c) { count = c }),
            rw reached refl,
          )

      give_up-fresh :
          (c code : ℕ) (o : Os win)
          → give_up win (fresh c) rise_ex_on_error batch c code o ≡ (
            (if ltb 0 c then waited_for win message c o else o, record batch { submited = c }),
            if rise_ex_on_error then err (thrown code) else ok c,
          )
      unfolding give_up ended set_submited
      give_up-fresh c code o =
          let result : Result ℕ = if rise_ex_on_error then err (thrown code) else ok c in
          let answer = λ (t : Bool).
            ended win batch c result
              (if t then wait_for_all win (fresh c) c o else (o, ok (fresh c))) in
          let told : Bool → Ended win = λ t. (
            (if t then waited_for win message c o else o, record batch { submited = c }),
            result,
          ) in
          elim (Bool-cases (ltb 0 c)) [
            | inr e ↦ ap answer e ∙ sym (ap told e)
            | inl e ↦
                ap answer e
                ∙ ap (ended win batch c result) (wait_for_all-fresh c o (ground (arith, e))).1
                ∙ sym (ap told e)
          ]

      none-blocked :
          (c : ℕ) (o : Os win)
          → c ≡ 0
          → wait_for_all win (fresh c) c o ≡ (waited_for win message c o, err blocked)
      unfolding wait_for_all waited is_resumed
      none-blocked c o z =
          let unreached : (ltb 0 c && leb c c) ≡ false = ground (arith, z) in rw unreached refl

      one_wait :
          (c : ℕ) (o : Os win)
          (again : AioMessage → Os win → Os win × Result (AioMessage × Option ℕ))
          → 0 < c
          → again_after win again (waited win (fresh c) o)
            ≡ again
                (count_down (sys win o (wait_for message)).0 (fresh c))
                (sys win o (wait_for message)).1
      unfolding waited is_resumed again_after
      one_wait c o again h =
          let reached : (ltb 0 1 && leb 1 c) ≡ true = ground (arith, h) in
          ap
            (λ (t : Bool). again_after win again (
              (sys win o (wait_for message)).1,
              (if t
                  then ok (count_down (sys win o (wait_for message)).0 (fresh c))
                  else err blocked),
            ))
            reached

      no_wait :
          (c : ℕ) (o : Os win)
          (again : AioMessage → Os win → Os win × Result (AioMessage × Option ℕ))
          → c ≡ 0
          → again_after win again (waited win (fresh c) o)
            ≡ ((sys win o (wait_for message)).1, err blocked)
      unfolding waited is_resumed again_after
      no_wait c o again z =
          let unreached : (ltb 0 1 && leb 1 c) ≡ false = ground (arith, z) in
          ap
            (λ (t : Bool). again_after win again (
              (sys win o (wait_for message)).1,
              (if t
                  then ok (count_down (sys win o (wait_for message)).0 (fresh c))
                  else err blocked),
            ))
            unreached

      module _ (more : ℕ) where
        abbrev remaining : ℕ → List Overlapped → AioMessage → Os win → Ended win
        remaining = submit_blocks win (suc (suc more)) f rise_ex_on_error batch

        starved-blocked :
            (c : ℕ) (ovl : Overlapped) (ovls : List Overlapped) (o : Os win)
            → c + 1 + length ovls < 2 ^ 63
            → Starving win (sys win o (call_at f c ovl))
            → (b : Os win × FileIoBatch) × (remaining c (ovl ∷ ovls) (fresh c) o ≡ (b, err blocked))
        unfolding submit_blocks submit_block after_block
        starved-blocked c ovl ovls o small e =
            let a = sys win o (call_at f c ovl) in
            let again = submit_block win (suc more) f c ovl in
            let after = after_block win (remaining (c + 1) ovls) rise_ex_on_error batch c in
            let first = ap after (attempted-Starving win again (fresh c) a e) in
            elim (Bool-cases (ltb 0 c)) [
              | inr z ↦ (
                ((sys win a.1 (wait_for message)).1, batch),
                first ∙ ap after (no_wait c a.1 again (ground (arith, z))),
              )
              | inl l ↦
                  let some_started : 0 < c = ground (arith, l) in
                  let m = count_down (sys win a.1 (wait_for message)).0 (fresh c) in
                  let (b, q) =
                    block_blocked win f rise_ex_on_error batch (remaining (c + 1) ovls) c
                      some_started (omega (arith, small))
                      (λ m' o' s.
                        more_blocked win f rise_ex_on_error batch (suc more) (c + 1) ovls m' o'
                          (omega arith) (omega (arith, small)) s)
                      more ovl m (sys win a.1 (wait_for message)).1
                      (count_down-Short c (sys win a.1 (wait_for message)).0 (fresh c)
                        (omega (arith, small)) refl refl some_started) in
                  (b, first ∙ ap after (one_wait c a.1 again some_started) ∙ q)
            ]

        blocks-Outcome :
            (c : ℕ) (ovls : List Overlapped) (o : Os win)
            → c + length ovls < 2 ^ 63
            → (r : Ended win) × Outcome c ovls o r × (remaining c ovls (fresh c) o ≡ r)
        unfolding submit_blocks submit_block after_block ended set_submited
        blocks-Outcome c [] o small = elim (Bool-cases (ltb 0 c)) [
          | inl l ↦
              let some_started : 0 < c = ground (arith, l) in
              (
                ((waited_for win message c o, record batch { submited = c }), ok c),
                all c o some_started,
                ap (ended win batch c (ok c)) (wait_for_all-fresh c o some_started).1,
              )
          | inr z ↦
              let none : c ≡ 0 = ground (arith, z) in
              (
                ((waited_for win message c o, batch), err blocked),
                none_started c o none,
                ap (ended win batch c (ok c)) (none-blocked c o none),
              )
        ]
        blocks-Outcome c (ovl ∷ ovls) o small =
            let a = sys win o (call_at f c ovl) in
            let again = submit_block win (suc more) f c ovl in
            let after = after_block win (remaining (c + 1) ovls) rise_ex_on_error batch c in
            elim (answer_cases win a) [
              | inl e ↦
                  let (r, outcome, q) = blocks-Outcome (c + 1) ovls a.1 (omega (arith, small)) in
                  (
                    r,
                    starts c ovl ovls o r e outcome,
                    ap after (attempted-Accepted win again (fresh c) a e) ∙ q,
                  )
              | inr (inl e) ↦
                  let (b, q) = starved-blocked c ovl ovls o (omega (arith, small)) e in
                  ((b, err blocked), starved c ovl ovls o b e, q)
              | inr (inr e) ↦ (
                _,
                refused c ovl ovls o e,
                ap after (attempted-Refused win again (fresh c) a e)
                    ∙ give_up-fresh c (win.last_error a.1.kernel) a.1,
              )
            ]

  -- Whatever the calls answer, `process_batch` starts the operations of its blocks in their order.
  -- When all of a batch are started it waits for so many completions and returns their number, but
  -- never returns if the batch is empty. When one is refused it waits for those before it, if there
  -- are any, and returns their number, or throws the error if `rise_ex_on_error`; in both cases
  -- `submited` is that number. When a call lacks resources it never returns, also if a completion
  -- ends the first wait and the calls after it are answered. This is for fewer than 2 ^ 63 blocks,
  -- and then no block has more than two rounds.
  pub submission_lem :
      (f : File) (message more : ℕ) (rise_ex_on_error : Bool) (batch : FileIoBatch) (o : Os win)
      → length batch.blocks < 2 ^ 63
      → (r : (Os win × FileIoBatch) × Result ℕ) × Outcome f rise_ex_on_error
          (configure batch message)
          message
          0
          (configure batch message).blocks
          o
          r
        × (process_batch win (suc (suc more)) f message batch rise_ex_on_error o ≡ r)
  unfolding process_batch configure
  submission_lem f message more rise_ex_on_error batch o small =
      blocks-Outcome f rise_ex_on_error (configure batch message) message more 0
        (configure batch message).blocks o
        (omega (arith, small, length-map (set_message message) batch.blocks))
