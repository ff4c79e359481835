-- ===== src/Windows/Batches/Shortage.antt =====
-- That `process_batch` of msvc_file_impl.cpp never returns after a call that lacked resources.
use dumbo.Base.{
  ℕ, zero, suc, ◌+◌, ◌-◌, ◌^◌, ◌≤◌, ◌<◌, ◌≡◌, refl, ap, ◌∙◌, arith, inl, inr, ◌⊎◌, List, [], ◌∷◌,
  Option, none, some, Bool, Bool-cases, true, false, ◌&&◌, ltb, leb, sub64, if◌then◌else◌, length,
  ℤ, pos, negsuc,
}
use dumbo.Base.Results.{Result, ok, err, thrown, blocked}
use dumbo.Windows.{Overlapped, Call, set_count, wait_for, Win, Os, sys, is_started, is_starved}
use dumbo.Windows.Transfer.{Starving}
use dumbo.Windows.Files.{File}
use dumbo.Windows.Batches.{
  FileIoBatch, AioMessage, submitted, is_resumed, counted_more, count_down, waited, again_after,
  call_of_block, attempted, submit_block, wait_for_all, ended, give_up, after_block, submit_blocks,
}

-- A message that no longer counts all the completions of the `c` operations that were started, and
-- whose count those to come do not reach.
pub record Short (c : ℕ) (m : AioMessage) : Type 0 where
  fewer : m.pending < c
  unreached : is_resumed m ≡ false
  far : (m.count ≡ 0) ⊎ (2 ^ 63 < m.count)

Short-is_resumed :
    (c : ℕ) (m : AioMessage)
    → c < 2 ^ 63
    → m.pending < c
    → (m.count ≡ 0) ⊎ (2 ^ 63 < m.count)
    → Short c m
unfolding is_resumed
Short-is_resumed c m small fewer far = record {
  fewer = fewer;
  unreached = elim far [ inl z ↦ rw z refl | inr l ↦ ground (arith, l, fewer, small) ];
  far = far;
}

counted_more_le : (answer : ℤ) (left : ℕ) → counted_more answer left ≤ left
unfolding counted_more
counted_more_le (pos n) left = omega arith
counted_more_le (negsuc n) left = omega arith

sub64-far : (more : ℕ) → more < 2 ^ 63 → (sub64 0 more ≡ 0) ⊎ (2 ^ 63 < sub64 0 more)
sub64-far zero h = inl refl
sub64-far (suc more) h = inr (ground (arith, h))

pub count_down-Short :
    (c : ℕ) (answer : ℤ) (m : AioMessage)
    → c < 2 ^ 63
    → m.count ≡ 1
    → m.pending ≡ c
    → 0 < c
    → Short c (count_down answer m)
unfolding count_down
count_down-Short c answer m small one all some_started =
    let more = counted_more answer (m.pending - m.count) in
    let few : more ≤ m.pending - m.count = counted_more_le answer (m.pending - m.count) in
    Short-is_resumed c (count_down answer m) small (omega (arith, few, one, all, some_started))
      (sub64-far more (omega (arith, few, all, small)))

-- The call for a block.
abbrev pub call_at : File → ℕ → Overlapped → Call
call_at f c ovl = call_of_block f c ovl ovl.operation

module _ (win : Win) where
  abbrev pub Ended : Type 0
  Ended = (Os win × FileIoBatch) × Result ℕ

  -- The answer of a call whose operation is started, or is refused for good.
  abbrev pub Accepted : ℤ × Os win → Type 0
  Accepted (r, o) = is_started win r o ≡ true

  abbrev pub Refused : ℤ × Os win → Type 0
  Refused (r, o) = (is_started win r o ≡ false) × (is_starved (win.last_error o.kernel) ≡ false)

  pub answer_cases : (a : ℤ × Os win) → Accepted a ⊎ (Starving win a ⊎ Refused a)
  answer_cases (r, o) = elim (Bool-cases (is_started win r o)) [
    | inl e ↦ inl e
    | inr e ↦ elim (Bool-cases (is_starved (win.last_error o.kernel))) [
      | inl s ↦ inr (inl (e, s))
      | inr s ↦ inr (inr (e, s))
    ]
  ]

  module _ (again : AioMessage → Os win → Os win × Result (AioMessage × Option ℕ))
      (m : AioMessage) where
    pub attempted-Accepted :
        (a : ℤ × Os win) → Accepted a → attempted win again m a ≡ (a.1, ok (submitted m, none))
    unfolding attempted
    attempted-Accepted (r, o) e = rw e

    pub attempted-Starving :
        (a : ℤ × Os win)
        → Starving win a
        → attempted win again m a ≡ again_after win again (waited win m a.1)
    unfolding attempted
    attempted-Starving (r, o) (e, s) = rw (e, s)

    pub attempted-Refused :
        (a : ℤ × Os win)
        → Refused a
        → attempted win again m a ≡ (a.1, ok (m, some (win.last_error a.1.kernel)))
    unfolding attempted
    attempted-Refused (r, o) (e, s) = rw (e, s)

  -- The wait for `c` completions.
  abbrev pub waited_for : ℕ → ℕ → Os win → Os win
  waited_for message c o = (sys win (sys win o (set_count message c)).1 (wait_for message)).1

  pub wait_for_all-short :
      (m : AioMessage) (c : ℕ) (o : Os win)
      → m.pending < c
      → (o' : Os win) × (wait_for_all win m c o ≡ (o', err blocked))
  unfolding wait_for_all waited is_resumed
  wait_for_all-short m c o h =
      let unreached : (ltb 0 c && leb c m.pending) ≡ false = ground (arith, h) in
      (waited_for m.address c o, rw unreached refl)

  module _ (f : File) (rise_ex_on_error : Bool) (batch : FileIoBatch) where
    give_up-short :
        (m : AioMessage) (c code : ℕ) (o : Os win)
        → 0 < c
        → m.pending < c
        → (b : Os win × FileIoBatch) × (give_up win m rise_ex_on_error batch c code o
            ≡ (b, err blocked))
    unfolding give_up ended
    give_up-short m c code o some_started h =
        let (o', e) = wait_for_all-short m c o h in
        let positive : ltb 0 c ≡ true = ground (arith, some_started) in
        let result : Result ℕ = if rise_ex_on_error then err (thrown code) else ok c in
        (
          (o', batch),
          ap
                (λ (t : Bool).
                  ended win batch c result (if t then wait_for_all win m c o else (o, ok m)))
                positive
              ∙ ap (ended win batch c result) e,
        )

    module _ (next : AioMessage → Os win → Ended) (c : ℕ) (some_started : 0 < c)
        (small : c + 1 < 2 ^ 63)
        (more_blocked : (m : AioMessage) (o : Os win)
          → Short (c + 1) m
          → (b : Os win × FileIoBatch) × (next m o ≡ (b, err blocked))) where
      -- A block after a wait for resources, whatever becomes of its operation.
      pub block_blocked :
          (fuel : ℕ) (ovl : Overlapped) (m : AioMessage) (o : Os win)
          → Short c m
          → (b : Os win × FileIoBatch) × (after_block win next rise_ex_on_error batch c
                (submit_block win (suc fuel) f c ovl m o)
              ≡ (b, err blocked))
      unfolding submit_block after_block waited again_after
      block_blocked fuel ovl m o short =
          let a = sys win o (call_at f c ovl) in
          let again = submit_block win fuel f c ovl in
          let after = after_block win next rise_ex_on_error batch c in
          elim (answer_cases a) [
            | inl e ↦
                let (b, q) = more_blocked (submitted m) a.1 (
                  Short-is_resumed (c + 1) (submitted m) small (omega (arith, short.fewer))
                    short.far) in
                (b, ap after (attempted-Accepted again m a e) ∙ q)
            | inr (inl e) ↦ (
              _,
              ap after (
                  attempted-Starving again m a e
                  ∙ ap
                      (λ (t : Bool). again_after win again (
                        (sys win a.1 (wait_for m.address)).1,
                        (if t
                            then ok (count_down (sys win a.1 (wait_for m.address)).0 m)
                            else err blocked),
                      ))
                      short.unreached),
            )
            | inr (inr e) ↦
                let (b, q) =
                  give_up-short m c (win.last_error a.1.kernel) a.1 some_started short.fewer in
                (b, ap after (attempted-Refused again m a e) ∙ q)
          ]

    pub more_blocked :
        (fuel c : ℕ) (ovls : List Overlapped) (m : AioMessage) (o : Os win)
        → 0 < c
        → c + length ovls < 2 ^ 63
        → Short c m
        → (b : Os win × FileIoBatch) × (submit_blocks win
              (suc fuel)
              f
              rise_ex_on_error
              batch
              c
              ovls
              m
              o
            ≡ (b, err blocked))
    unfolding submit_blocks ended
    more_blocked fuel c [] m o some_started small short =
        let (o', e) = wait_for_all-short m c o short.fewer in
        ((o', batch), ap (ended win batch c (ok c)) e)
    more_blocked fuel c (ovl ∷ ovls) m o some_started small short =
        block_blocked (submit_blocks win (suc fuel) f rise_ex_on_error batch (c + 1) ovls) c
          some_started (omega (arith, small))
          (λ m' o' s. more_blocked fuel (c + 1) ovls m' o' (omega arith) (omega (arith, small)) s)
          fuel ovl m o short
